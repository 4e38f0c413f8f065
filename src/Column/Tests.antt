-- ===== src/Column/Tests.antt =====
-- Runs of columns, and the witnesses of their properties.
use lightning_db.Prelude.{
  ℕ, zero, suc, ◌+◌, ◌≤◌, ◌<◌, ◌≡◌, ◌^◌, refl, ap, sym, ◌∙◌, subst, min, false, List, [], ◌∷◌, ◌++◌,
  arith, length, take, replicate, count_up, none, ok, All, length-append, length-replicate,
}
use lightning_db.Prelude.Bytes.{take-exact}
use lightning_db.Compression.Codecs.{node}
use lightning_db.Column.{Column, optimize, get_plain_value}
use lightning_db.Column.Optimize.{ReadsAll}
use lightning_db.Column.Reads.{optimize-ReadsAll, optimize-loses}

abbrev column_of : List ℕ → Column
column_of values = record {
  values = values;
  pages = [];
  compression_meta = none;
  compressed = false;
}

abbrev same_bits : ℕ → ℕ
same_bits bits = bits

abbrev forty_ids : List ℕ
forty_ids = count_up 40 100

count_up-below : (n start bound : ℕ) → start + n ≤ bound → All (λ v. v < bound) (count_up n start)
count_up-below zero start bound h = tt
count_up-below (suc n) start bound h =
    (omega arith, count_up-below n (start + 1) bound (omega arith))

optimize-ReadsAll_example :
    (c' : Column) × (optimize same_bits length false (column_of forty_ids) ≡ ok c'
      × ReadsAll same_bits length c' forty_ids)
optimize-ReadsAll_example =
    optimize-ReadsAll same_bits length (column_of forty_ids) refl (omega arith)
      (count_up-below 40 100 (2 ^ 63) (omega arith))

-- 4096 sevens and a nine: the nine is lost.
abbrev sevens : ℕ → List ℕ
sevens n = replicate n 7 ++ 9 ∷ []

length-sevens : (n : ℕ) → length (sevens n) ≡ n + 1
length-sevens n =
    omega (arith, length-append (replicate {A = ℕ} n 7) (9 ∷ []), length-replicate {A = ℕ} n 7)

only_sevens : (n : ℕ) → All (λ (x : ℕ). x ≡ 7) (replicate n 7)
only_sevens zero = tt
only_sevens (suc n) = (refl, only_sevens n)

first_sevens : (n : ℕ) → All (λ x. x ≡ 7) (take (min (length (sevens n)) n) (sevens n))
first_sevens n =
    let cut : min (length (sevens n)) n ≡ n = omega (arith, length-sevens n) in
    let sample : take (min (length (sevens n)) n) (sevens n) ≡ replicate n 7 =
      ap (λ (k : ℕ). take k (sevens n)) cut
      ∙ take-exact n (replicate n 7) (9 ∷ []) (length-replicate {A = ℕ} n 7) in
    subst (All (λ x. x ≡ 7)) (sym sample) (only_sevens n)

enough_sevens : (n : ℕ) → 32 ≤ n → 32 ≤ length (sevens n)
enough_sevens n h = omega (arith, length-sevens n)

optimize-loses_example :
    (c' : Column) × (optimize same_bits length false (column_of (sevens 4096)) ≡ ok c'
      × ((row : ℕ) → get_plain_value same_bits length c' row ≡ ok (node 7)))
optimize-loses_example =
    optimize-loses same_bits length (column_of (sevens 4096)) 7 refl
      (enough_sevens 4096 (omega arith)) (first_sevens 4096)
