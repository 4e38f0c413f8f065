-- ===== src/Compression/RunCodec.antt =====
-- crates/lightning-core/src/storage/compression/rle.rs: what is compressed is read back.
use lightning_db.Prelude.{
  ℕ, zero, suc, ◌+◌, ◌-◌, ◌*◌, ◌≤◌, ◌<◌, ◌≡◌, refl, ap, sym, ◌∙◌, true, ◌==◌, List, ◌++◌, arith,
  leb, ltb, Bool-cases, inl, inr, length, get_or, ok,
}
use lightning_db.Prelude.Bytes.{
  le_bytes, from_le_bytes, slice, copy_to, from_le_bytes-le_bytes, length-copy_to, length-le_bytes,
  get_or-copy_to,
}
use lightning_db.Compression.Codecs.{Compressed, CompressionMetadata}
use lightning_db.Compression.Codecs.Rle.{run_loop, compress_loop, decompress_loop}
use lightning_db.Compression.Codecs.Rle
use lightning_db.Compression.Codecs.{rle}
use lightning_db.Compression.Algs.{
  get_alg, block_bytes, zero_page, length-zero_page, get_or-zero_page, frame_of, IsCodecFor,
}
use lightning_db.Compression.Blocks.{slice-put, slice-block_bytes, length-page, get_or-page}
use lightning_db.Prelude.Bytes.{slice_of, length-slice}
use lightning_db.Compression.Runs.{IsRun, run_loop-IsRun, read_skips, read_emits}

module _ (src : List ℕ) (n : ℕ) (all_there : n * 8 ≤ length src) where
  -- A read of one value through the runs from byte `o` on, of the values from `p` on.
  abbrev ReadsRuns : List ℕ → ℕ → ℕ → Type 0
  ReadsRuns page p o =
      (s fuel : ℕ) (temp : List ℕ)
      → p + s < n
      → n - p ≤ fuel
      → length temp ≡ 256
      → decompress_loop fuel page temp 1 o 0 0 s ≡ ok (copy_to temp 0 (slice src ((p + s) * 8) 8))

  abbrev Agrees : Compressed → List ℕ → Type 0
  Agrees c page = c.size ≤ length page × ((k : ℕ) → k < c.size → get_or page k 0 ≡ get_or c.dst k 0)

  abbrev Encodes : ℕ → List ℕ → ℕ → Compressed → Type 0
  Encodes p dst o c =
      c.processed ≡ n
      × length c.dst ≡ length dst
      × o ≤ c.size
      × c.size ≤ o + 12 * (n - p)
      × ((k : ℕ) → k < o → get_or c.dst k 0 ≡ get_or dst k 0)
      × ((page : List ℕ) → Agrees c page → ReadsRuns page p o)

  encoded_none :
      (p o : ℕ) (dst : List ℕ)
      → p ≡ n
      → Encodes p dst o (record { dst = dst; size = o; processed = p })
  encoded_none p o dst e = (
    e,
    refl,
    omega arith,
    omega arith,
    λ k h. refl,
    λ page agree s fuel temp inside enough l. absurd (omega (arith, inside, e)),
  )

  in_run :
      (p s count j : ℕ)
      → IsRun src n (slice src (p * 8) 8) 1 (p + 1) (count, j)
      → s < count
      → slice src ((p + s) * 8) 8 ≡ slice src (p * 8) 8
  in_run p s count j run h = elim (Bool-cases (s == 0)) [
    | inl none ↦ let e : p + s ≡ p = ground arith in ap (λ (a : ℕ). slice src (a * 8) 8) e
    | inr some ↦ run.4 (p + s) (ground arith) (omega (arith, run.0))
  ]

  reads_run :
      (page temp : List ℕ) (p o count j s fuel : ℕ)
      → p < n
      → IsRun src n (slice src (p * 8) 8) 1 (p + 1) (count, j)
      → o + 12 ≤ length page
      → slice page o 8 ≡ slice src (p * 8) 8
      → from_le_bytes (slice page (o + 8) 4) ≡ count
      → ReadsRuns page j (o + 12)
      → p + s < n
      → n - p ≤ fuel
      → length temp ≡ 256
      → decompress_loop fuel page temp 1 o 0 0 s ≡ ok (copy_to temp 0 (slice src ((p + s) * 8) 8))
  reads_run page temp p o count j s zero h run room value counted later inside enough full =
      absurd (omega arith)
  reads_run page temp p o count j s (suc fuel) h run room value counted later inside enough full =
      elim (Bool-cases (leb count s)) [
        | inl over ↦
            let e : j + (s - count) ≡ p + s = ground (arith, run.0) in
            read_skips fuel page temp o s count room counted (ground arith)
            ∙ later (s - count) fuel temp (omega (arith, e)) (omega (arith, run.1)) full
            ∙ ap (λ (a : ℕ). ok (copy_to temp 0 (slice src (a * 8) 8))) e
        | inr inside_run ↦
            read_emits fuel page temp o s count room counted (ground arith) full
            ∙ ap (λ (bytes : List ℕ). ok (copy_to temp 0 bytes))
                (value ∙ sym (in_run p s count j run (ground arith)))
      ]

  -- One run, and what is written after it.
  encoded_run :
      (p o count j : ℕ) (dst : List ℕ) (c : Compressed)
      → p < n
      → IsRun src n (slice src (p * 8) 8) 1 (p + 1) (count, j)
      → o + 12 * (n - p) ≤ length dst
      → Encodes j
          (copy_to (copy_to dst o (slice src (p * 8) 8)) (o + 8) (le_bytes 4 count))
          (o + 12)
          c
      → Encodes p dst o c
  encoded_run p o count j dst c h run room rest =
      let val : List ℕ = slice src (p * 8) 8 in
      let l : length val ≡ 8 = length-slice src (p * 8) 8 (omega arith) in
      let l' = length-le_bytes 4 count in
      let first = length-copy_to dst o val (omega arith) in
      let dst₁ : List ℕ = copy_to dst o val in
      let dst₂ : List ℕ = copy_to dst₁ (o + 8) (le_bytes 4 count) in
      let second = length-copy_to dst₁ (o + 8) (le_bytes 4 count) (omega (arith, first)) in
      let byte₁ = λ (k : ℕ). get_or-copy_to dst o val k 0 (omega arith) in
      let byte₂ =
        λ (k : ℕ). get_or-copy_to dst₁ (o + 8) (le_bytes 4 count) k 0 (omega (arith, first)) in
      (
        rest.0,
        rest.1 ∙ second ∙ first,
        omega (arith, rest.2),
        omega (arith, rest.3, run.1),
        λ k q. rest.4 k (omega arith) ∙ byte₂ k ∙ ground (arith, byte₁ k),
        λ page agree s fuel temp inside enough full.
            (let value : slice page o 8 ≡ val =
                slice_of page val o 8 (omega (arith, agree.0, rest.2)) l λ i q.
                  (agree.1 (o + i) (omega (arith, rest.2))
                    ∙ rest.4 (o + i) (omega arith)
                    ∙ byte₂ (o + i)
                    ∙ (let place : o + i - o ≡ i = omega arith in
                        ground (arith, byte₁ (o + i), ap (λ (k : ℕ). get_or val k 0) place, l))) in
              let number : slice page (o + 8) 4 ≡ le_bytes 4 count =
                slice_of page (le_bytes 4 count) (o + 8) 4 (omega (arith, agree.0, rest.2)) l'
                  λ i q.
                    (agree.1 (o + 8 + i) (omega (arith, rest.2))
                      ∙ rest.4 (o + 8 + i) (omega arith)
                      ∙ byte₂ (o + 8 + i)
                      ∙ (let place : o + 8 + i - (o + 8) ≡ i = omega arith in
                          ground
                            (arith, l', ap (λ (k : ℕ). get_or (le_bytes 4 count) k 0) place))) in
              let counted : from_le_bytes (slice page (o + 8) 4) ≡ count =
                ap from_le_bytes number ∙ from_le_bytes-le_bytes 4 count (omega (arith, run.3)) in
              reads_run page temp p o count j s fuel h run (omega (arith, agree.0, rest.2)) value
                counted (rest.5 page agree) inside enough full),
      )

  pub compress_loop-Encodes :
      (fuel p o : ℕ) (dst : List ℕ)
      → p ≤ n
      → n - p ≤ fuel
      → o + 12 * (n - p) ≤ length dst
      → Encodes p dst o (compress_loop fuel src n dst p o)
  unfolding compress_loop
  compress_loop-Encodes zero p o dst h enough room = encoded_none p o dst (omega arith)
  compress_loop-Encodes (suc fuel) p o dst h enough room = elim (Bool-cases (ltb p n)) [
    | inr last ↦ rw last (encoded_none p o dst (ground arith))
    | inl more ↦
        let val : List ℕ = slice src (p * 8) 8 in
        let run = run_loop n src n val 1 (p + 1) in
        let is_run = run_loop-IsRun n src n val 1 (p + 1) (ground arith) (omega arith) in
        let l = length-slice src (p * 8) 8 (ground arith) in
        let first = length-copy_to dst o val (ground (arith, l)) in
        let second =
          length-copy_to (copy_to dst o val) (o + 8) (le_bytes 4 run.0)
            (ground (arith, first, length-le_bytes 4 run.0)) in
        let dst' : List ℕ = copy_to (copy_to dst o val) (o + 8) (le_bytes 4 run.0) in
        let here : leb (o + 12) (length dst) ≡ true = ground arith in
        let there : leb (p * 8 + 8) (length src) ≡ true = ground arith in
        rw (more, here, there)
          (encoded_run p o run.0 run.1 dst _ (ground arith) is_run room (
            compress_loop-Encodes fuel run.1 (o + 12) dst' is_run.2 (ground (arith, is_run.1))
              (ground (arith, first, second, is_run.1))))
  ]

pub rle-IsCodecFor :
    (as_i64 : ℕ → ℕ) (metadata : CompressionMetadata) (P : ℕ → Type 0)
    → IsCodecFor (get_alg as_i64 rle 8) metadata P
unfolding get_alg Rle.compress_next_page Rle.decompress_from_page
rle-IsCodecFor as_i64 metadata P values padding some_values few fit whole =
    let n : ℕ = length values in
    let src : List ℕ = block_bytes values ++ padding in
    let all_there : n * 8 ≤ length src = omega (arith, whole) in
    let c : Compressed = compress_loop n src n zero_page 0 0 in
    let encodes =
      compress_loop-Encodes src n all_there n 0 0 zero_page (omega arith) (omega arith)
        (omega (arith, length-zero_page)) in
    let size : c.size ≤ 4096 = omega (arith, encodes.3) in
    let page = frame_of c in
    let full = length-page zero_page length-zero_page get_or-zero_page c.size c.dst size in
    let agrees = λ (k : ℕ) (p : k < c.size).
      (get_or-page zero_page length-zero_page get_or-zero_page c.size c.dst k size
          (encodes.1 ∙ length-zero_page)
        ∙ ground (arith, p)) in
    (
      c,
      (
        refl,
        encodes.0,
        λ i temp inside room. (
          copy_to temp 0 (slice src ((0 + i) * 8) 8),
          (
            encodes.5 page (omega (arith, size, full), agrees) i (length page) temp
                (omega (arith, inside)) (omega (arith, full)) room,
            slice-put temp (slice src ((0 + i) * 8) 8)
                  (length-slice src ((0 + i) * 8) 8 (omega (arith, whole, inside)))
                ∙ ap (λ (a : ℕ). slice src (a * 8) 8) (let e : 0 + i ≡ i = omega arith in e)
                ∙ slice-block_bytes values padding i inside,
          ),
        ),
      ),
    )
