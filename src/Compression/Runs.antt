-- ===== src/Compression/Runs.antt =====
-- crates/lightning-core/src/storage/compression/rle.rs: the runs that are counted, and a run as it is
-- read.
use lightning_db.Prelude.{
  ℕ, zero, suc, ◌+◌, ◌-◌, ◌*◌, ◌^◌, ◌≤◌, ◌<◌, ◌≡◌, refl, ap, sym, ◌∙◌, min, true, false, ◌&&◌, ◌==◌,
  List, arith, leb, ltb, Bool-cases, inl, inr, length, ok,
}
use lightning_db.Prelude.Bytes.{bytes_eq, bytes_eq_iff, length-slice, from_le_bytes, slice, copy_to}
use lightning_db.Compression.Codecs.Rle.{run_loop, decompress_loop}
use lightning_db.Compression.Blocks.{emit_one}
use lightning_db.Compression.PackedCodecs.{bind_ok}

-- The values from `j` on up to the run's end are equal, and are counted.
abbrev pub IsRun : List ℕ → ℕ → List ℕ → ℕ → ℕ → ℕ × ℕ → Type 0
IsRun src n val count j run =
    run.0 + j ≡ run.1 + count
    × j ≤ run.1
    × run.1 ≤ n
    × run.0 < 2 ^ 32
    × ((q : ℕ) → j ≤ q → q < run.1 → slice src (q * 8) 8 ≡ val)

pub run_loop-IsRun :
    (fuel : ℕ) (src : List ℕ) (n : ℕ) (val : List ℕ) (count j : ℕ)
    → j ≤ n
    → count < 2 ^ 32
    → IsRun src n val count j (run_loop fuel src n val count j)
unfolding run_loop
run_loop-IsRun zero src n val count j h small =
    (omega arith, omega arith, h, small, λ q p p'. absurd (omega (arith, p, p')))
run_loop-IsRun (suc fuel) src n val count j h small =
    elim (Bool-cases (
      ltb j n
      && ltb count (2 ^ 32 - 1)
      && leb ((j + 1) * 8) (length src)
      && bytes_eq (slice src (j * 8) 8) val)) [
        | inr last ↦
            rw last (omega arith, omega arith, h, small, λ q p p'. absurd (omega (arith, p, p')))
        | inl more ↦
            let rest =
              run_loop-IsRun fuel src n val (count + 1) (j + 1) (ground arith) (ground arith) in
            rw more (
              omega (arith, rest.0),
              omega (arith, rest.1),
              rest.2,
              rest.3,
              λ q p p'. elim (Bool-cases (q == j)) [
                | inl here ↦
                    let e : j ≡ q = ground arith in
                    ap (λ (a : ℕ). slice src (a * 8) 8) (sym e)
                    ∙ (bytes_eq_iff (slice src (j * 8) 8) val).0 (ground arith)
                | inr later ↦ rest.4 q (ground arith) p'
              ],
            )
      ]

-- The value is written: nothing follows.
pub read_done :
    (fuel : ℕ) (page temp : List ℕ) (src_ptr dst_ptr skip : ℕ)
    → decompress_loop fuel page temp 1 src_ptr dst_ptr 1 skip ≡ ok temp
unfolding decompress_loop
read_done zero page temp src_ptr dst_ptr skip = refl
read_done (suc fuel) page temp src_ptr dst_ptr skip = refl

pub read_skips :
    (fuel : ℕ) (page temp : List ℕ) (src_ptr skip count : ℕ)
    → src_ptr + 12 ≤ length page
    → from_le_bytes (slice page (src_ptr + 8) 4) ≡ count
    → count ≤ skip
    → decompress_loop (suc fuel) page temp 1 src_ptr 0 0 skip
      ≡ decompress_loop fuel page temp 1 (src_ptr + 12) 0 0 (skip - count)
unfolding decompress_loop
read_skips fuel page temp src_ptr skip count room e h =
    let here : (ltb 0 1 && leb (src_ptr + 12) (length page)) ≡ true = ground arith in
    let over : leb count skip ≡ true = ground arith in rw (here, e, over) refl

pub read_emits :
    (fuel : ℕ) (page temp : List ℕ) (src_ptr skip count : ℕ)
    → src_ptr + 12 ≤ length page
    → from_le_bytes (slice page (src_ptr + 8) 4) ≡ count
    → skip < count
    → length temp ≡ 256
    → decompress_loop (suc fuel) page temp 1 src_ptr 0 0 skip
      ≡ ok (copy_to temp 0 (slice page src_ptr 8))
unfolding decompress_loop
read_emits fuel page temp src_ptr skip count room e h l =
    let here : (ltb 0 1 && leb (src_ptr + 12) (length page)) ≡ true = ground arith in
    let inside : leb count skip ≡ false = ground arith in
    let one : min (count - skip) (1 - 0) ≡ 1 = omega arith in
    rw (here, e, inside, one)
      (bind_ok (λ (dst : List ℕ). decompress_loop fuel page dst 1 (src_ptr + 12) (0 + 1) (0 + 1) 0)
          (emit_one (λ i. slice page src_ptr 8) temp (length-slice page src_ptr 8 (omega arith)) l)
        ∙ read_done fuel page _ (src_ptr + 12) (0 + 1) 0)
