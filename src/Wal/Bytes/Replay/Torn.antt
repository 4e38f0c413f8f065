-- ===== src/Wal/Bytes/Replay/Torn.antt =====
-- crates/lightning-core/src/storage/wal.rs, `replay`: recovery from a log that a crash has cut anywhere.
use lightning_db.Prelude.{
  ℕ, zero, suc, ◌+◌, ◌-◌, ◌^◌, ◌≤◌, ◌<◌, ◌≡◌, refl, ap, ◌∙◌, Bool, true, false, none, some, List,
  [], ◌∷◌, ◌++◌, arith, ltb, ◌==◌, length, take, drop, length-take, length-append, ==_refl, lt→ltb,
  ltb→lt, Bool-cases, inl, inr,
}
use mathlib.Core.List.{append_assoc}
use lightning_db.Prelude.Bytes.{le_bytes, length-le_bytes, from_le_bytes-le_bytes}
use lightning_db.Wal.Bytes.{compute_checksum_v2}
use lightning_db.Wal.Bytes.Replay.{Scan, read_exact, framed, at_eof}

module _ {ℓ} {A : Type ℓ} where
  take-take : (k n : ℕ) (xs ys : List A) → length xs ≡ k → k ≤ n → take k (take n (xs ++ ys)) ≡ xs
  take-take zero n [] ys l h = refl
  take-take zero n (x ∷ xs) ys l h = absurd (omega arith)
  take-take (suc k) zero xs ys l h = absurd (omega arith)
  take-take (suc k) (suc n) [] ys l h = absurd (omega arith)
  take-take (suc k) (suc n) (x ∷ xs) ys l h =
      ap (◌∷◌ x) (take-take k n xs ys (omega arith) (omega arith))

  drop-take :
      (k n : ℕ) (xs ys : List A)
      → length xs ≡ k
      → k ≤ n
      → drop k (take n (xs ++ ys)) ≡ take (n - k) ys
  drop-take zero n [] ys l h = ap (λ (m : ℕ). take m ys) (let e : n ≡ n - 0 = omega arith in e)
  drop-take zero n (x ∷ xs) ys l h = absurd (omega arith)
  drop-take (suc k) zero xs ys l h = absurd (omega arith)
  drop-take (suc k) (suc n) [] ys l h = absurd (omega arith)
  drop-take (suc k) (suc n) (x ∷ xs) ys l h =
      drop-take k n xs ys (omega arith) (omega arith)
      ∙ ap (λ (m : ℕ). take m ys) (let e : n - k ≡ suc n - suc k = omega arith in e)

pub read_exact-whole :
    (k n : ℕ) (xs ys : List ℕ)
    → length xs ≡ k
    → k ≤ n
    → read_exact k (take n (xs ++ ys)) ≡ some (xs, take (n - k) ys)
unfolding read_exact
read_exact-whole k n xs ys l h =
    let enough : ltb (length (take n (xs ++ ys))) k ≡ false =
      ground (arith, length-take n (xs ++ ys), length-append xs ys) in
    rw (enough, take-take k n xs ys l h, drop-take k n xs ys l h) refl

pub read_exact-torn : (k n : ℕ) (xs : List ℕ) → n < k → read_exact k (take n xs) ≡ none
unfolding read_exact
read_exact-torn k n xs h =
    let short : ltb (length (take n xs)) k ≡ true = lt→ltb _ _ (omega (arith, length-take n xs)) in
    rw short refl

-- Length, checksum and payload.
abbrev pub body : (List ℕ → ℕ) → ℕ → ℕ → List ℕ → List ℕ
body digest t n payload =
    le_bytes 2 (4 + n) ++ (le_bytes 4 (compute_checksum_v2 digest t (4 + n) payload) ++ payload)

module _ (digest : List ℕ → ℕ) (digest_fits : (bytes : List ℕ) → digest bytes < 2 ^ 32) where
  module _ (version checkpoint t n : ℕ) (accept : Scan → List ℕ → Scan × Bool) (payload ys : List ℕ)
      (size : length payload ≡ n) (small : n < 5000) where
    abbrev body_rest : List ℕ
    body_rest = le_bytes 4 (compute_checksum_v2 digest t (4 + n) payload) ++ (payload ++ ys)

    body_assoc : body digest t n payload ++ ys ≡ le_bytes 2 (4 + n) ++ body_rest
    body_assoc =
        append_assoc (le_bytes 2 (4 + n)) _ ys
        ∙ ap (λ (bs : List ℕ). le_bytes 2 (4 + n) ++ bs)
            (append_assoc (le_bytes 4 (compute_checksum_v2 digest t (4 + n) payload)) payload ys)

    -- A record that stands whole before the cut is accepted.
    pub framed_whole :
        (m : ℕ) (s : Scan)
        → 6 + n ≤ m
        → framed digest version checkpoint t n accept
            (record s { rest = take m (body digest t n payload ++ ys) })
          ≡ accept (record s { rest = take (m - 2 - 4 - n) ys }) payload
    framed_whole m s h =
        let c : ℕ = compute_checksum_v2 digest t (4 + n) payload in
        let len = from_le_bytes-le_bytes 2 (4 + n) (omega arith) in
        let crc = from_le_bytes-le_bytes 4 c (unfold compute_checksum_v2 in digest_fits _) in
        let same : (4 + n == 4 + n) ≡ true = ==_refl (4 + n) in
        rw
          (
            body_assoc,
            read_exact-whole 2 m (le_bytes 2 (4 + n)) body_rest (length-le_bytes 2 (4 + n))
                (omega arith),
            len,
            same,
            read_exact-whole 4 (m - 2) (le_bytes 4 c) (payload ++ ys) (length-le_bytes 4 c)
                (omega arith),
            read_exact-whole n (m - 2 - 4) payload ys size (omega arith),
            crc,
            ==_refl c,
          )
          refl

    -- A record that the cut goes through ends the replay, and changes nothing.
    pub framed_torn :
        (m : ℕ) (s : Scan)
        → m < 6 + n
        → (rest : List ℕ) × (framed digest version checkpoint t n accept
              (record s { rest = take m (body digest t n payload ++ ys) })
            ≡ at_eof (record s { rest = rest }))
    framed_torn m s h =
        let c : ℕ = compute_checksum_v2 digest t (4 + n) payload in
        let len = from_le_bytes-le_bytes 2 (4 + n) (omega arith) in
        let same : (4 + n == 4 + n) ≡ true = ==_refl (4 + n) in
        elim (Bool-cases (ltb m 2)) [
          | inl no_length ↦ (
            take m (body digest t n payload ++ ys),
            rw (read_exact-torn 2 m (body digest t n payload ++ ys) (ltb→lt _ _ no_length)) refl,
          )
          | inr more ↦ elim (Bool-cases (ltb m 6)) [
            | inl no_crc ↦ (
              take (m - 2) body_rest,
              rw
                  (
                    body_assoc,
                    read_exact-whole 2 m (le_bytes 2 (4 + n)) body_rest (length-le_bytes 2 (4 + n))
                        (ground arith),
                    len,
                    same,
                    read_exact-torn 4 (m - 2) body_rest (ground arith),
                  )
                  refl,
            )
            | inr enough ↦ (
              take (m - 2 - 4) (payload ++ ys),
              rw
                  (
                    body_assoc,
                    read_exact-whole 2 m (le_bytes 2 (4 + n)) body_rest (length-le_bytes 2 (4 + n))
                        (ground arith),
                    len,
                    same,
                    read_exact-whole 4 (m - 2) (le_bytes 4 c) (payload ++ ys) (length-le_bytes 4 c)
                        (ground arith),
                    read_exact-torn n (m - 2 - 4) (payload ++ ys) (ground arith),
                  )
                  refl,
            )
          ]
        ]
