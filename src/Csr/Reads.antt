-- ===== src/Csr/Reads.antt =====
-- crates/lightning-core/src/storage/index/csr.rs: reading one number, and many, from a file of pages.
use lightning_db.Prelude.{
  ℕ, zero, suc, ◌+◌, ◌-◌, ◌*◌, ◌/◌, ◌%◌, ◌≤◌, ◌<◌, ◌≡◌, refl, ap, ap₂, sym, ◌∙◌, min, true, false,
  some, List, [], ◌∷◌, ◌++◌, map, arith, leb, ltb, length, count_up, get_or, Bool-cases, inl, inr,
}
use mathlib.Core.List.{map-append}
use lightning_db.Prelude.Bytes.{from_le_bytes}
use lightning_db.Csr.{
  FileHandle, page_size, slice, u64_at, read_u64_at, values_from, batch_loop, read_u64_batch,
}

count_up-add : (a b start : ℕ) → count_up (a + b) start ≡ count_up a start ++ count_up b (start + a)
count_up-add zero b start =
    ap₂ count_up (let e : 0 + b ≡ b = omega arith in e)
      (let e : start ≡ start + 0 = omega arith in e)
count_up-add (suc a) b start =
    ap (λ (n : ℕ). count_up n start) (let e : suc a + b ≡ suc (a + b) = omega arith in e)
    ∙ ap (◌∷◌ start) (
        count_up-add a b (start + 1)
        ∙ ap (λ (k : ℕ). count_up a (start + 1) ++ count_up b k)
            (let e : start + 1 + a ≡ start + suc a = omega arith in e))

module _ (fh : FileHandle) where
  slice-add : (a b start : ℕ) → slice fh start (a + b) ≡ slice fh start a ++ slice fh (start + a) b
  slice-add a b start =
      ap (map fh.byte_at) (count_up-add a b start) ∙ map-append fh.byte_at (count_up a start) _

  -- Reading a number across the boundary of two pages gives the number that stands there.
  pub read_u64_at-eq : (byte_pos : ℕ) → read_u64_at fh byte_pos ≡ u64_at fh byte_pos
  unfolding read_u64_at u64_at
  read_u64_at-eq byte_pos = elim (Bool-cases (leb (byte_pos % page_size + 8) page_size)) [
    | inl inside ↦ rw inside refl
    | inr across ↦
        let first_part : ℕ = page_size - byte_pos % page_size in
        rw across (
          ap from_le_bytes (
            ap (λ (p : ℕ). slice fh byte_pos first_part ++ slice fh p (8 - first_part))
              (let e : (byte_pos / page_size + 1) * page_size ≡ byte_pos + first_part =
                  omega arith in
                e)
            ∙ sym (slice-add first_part (8 - first_part) byte_pos)
            ∙ ap (slice fh byte_pos)
                (let e : first_part + (8 - first_part) ≡ 8 = ground arith in e)))
  ]

  length-values_from : (n p : ℕ) → length (values_from fh n p) ≡ n
  unfolding values_from
  length-values_from zero p = refl
  length-values_from (suc n) p = ap suc (length-values_from n (p + 8))

  -- The loop ends: every round takes at least a byte.
  pub batch_loop-total :
      (fuel p end : ℕ) → end - p < fuel → (vs : List ℕ) × (batch_loop fh fuel p end ≡ some vs)
  unfolding batch_loop
  batch_loop-total zero p end h = absurd (omega arith)
  batch_loop-total (suc fuel) p end h = elim (Bool-cases (ltb p end)) [
    | inr over ↦ ([], rw over refl)
    | inl more ↦
        let n : ℕ = min (page_size - p % page_size) (end - p) in
        let (vs, e) = batch_loop-total fuel (p + n) end (ground arith) in
        (values_from fh (n / 8) p ++ vs, rw (more, e) refl)
  ]

  first_value :
      (n p : ℕ) (vs : List ℕ) → 0 < n → get_or (values_from fh n p ++ vs) 0 0 ≡ u64_at fh p
  unfolding values_from
  first_value zero p vs h = absurd (omega arith)
  first_value (suc n) p vs h = refl

  get_or-past : (xs ys : List ℕ) → get_or (xs ++ ys) (length xs) 0 ≡ get_or ys 0 0
  get_or-past [] ys = refl
  get_or-past (x ∷ xs) ys = get_or-past xs ys

  two_rounds :
      (fuel end : ℕ) (vs : List ℕ)
      → 4104 ≤ end
      → end ≤ fh.num_pages * page_size
      → batch_loop fh fuel (4096 + min 4096 (end - 4096)) end ≡ some vs
      → read_u64_batch fh (suc (suc fuel)) 12 end
        ≡ some (values_from fh 510 12 ++ (values_from fh (min 4096 (end - 4096) / 8) 4096 ++ vs))
  unfolding read_u64_batch batch_loop
  two_rounds fuel end vs h k e =
      let long : leb end 12 ≡ false = ground arith in
      let whole : min end (fh.num_pages * page_size) ≡ end = omega arith in
      let page : min 4084 (end - 12) ≡ 4084 = omega arith in
      let first : ltb 12 end ≡ true = ground arith in
      let second : ltb 4096 end ≡ true = ground arith in
      rw (long, whole, long, page, first, second, e) refl

  -- Reading a file of entries in one batch goes wrong at the first boundary of two pages: entry 510,
  -- which stands at byte 12 + 8 * 510 = 4092, is taken from byte 4096. The read itself ends.
  pub read_u64_batch-misreads :
      (fuel end : ℕ)
      → 4104 ≤ end
      → end ≤ fh.num_pages * page_size
      → end < fuel
      → (vs : List ℕ) × (read_u64_batch fh fuel 12 end ≡ some vs)
        × (get_or vs 510 0 ≡ u64_at fh 4096)
  read_u64_batch-misreads zero end h k f = absurd (omega arith)
  read_u64_batch-misreads (suc zero) end h k f = absurd (omega arith)
  read_u64_batch-misreads (suc (suc fuel)) end h k f =
      let n : ℕ = min 4096 (end - 4096) in
      let (vs, e) = batch_loop-total fuel (4096 + n) end (omega arith) in
      (
        values_from fh 510 12 ++ (values_from fh (n / 8) 4096 ++ vs),
        two_rounds fuel end vs h k e,
        ap (λ (i : ℕ). get_or (values_from fh 510 12 ++ (values_from fh (n / 8) 4096 ++ vs)) i 0)
              (sym (length-values_from 510 12))
            ∙ get_or-past (values_from fh 510 12) (values_from fh (n / 8) 4096 ++ vs)
            ∙ first_value (n / 8) 4096 vs (omega arith),
      )
