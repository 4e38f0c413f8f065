-- ===== src/Compression/Tests.antt =====
-- Runs of the codecs, and the witnesses of their properties.
use lightning_db.Prelude.{ℕ, ◌≡◌, refl, List, [], ◌∷◌, arith, replicate, get_or-replicate}
use lightning_db.Compression.{pack_32, unpack_32}
use lightning_db.Compression.Packing.{unpack_32-pack_32}

abbrev four_values : List ℕ
four_values = 1023 ∷ 0 ∷ 5 ∷ 700 ∷ []

-- Ten bits for each, across the bytes.
packed_four : pack_32 four_values 10 (replicate 5 0) ≡ 255 ∷ 3 ∷ 80 ∷ 0 ∷ 175 ∷ []
unfolding pack_32
packed_four = refl

unpack_32-pack_32_example :
    unpack_32 (pack_32 four_values 10 (replicate 5 0)) 10 (replicate 4 0) ≡ four_values
unpack_32-pack_32_example =
    unpack_32-pack_32 four_values 10 (replicate 5 0) (replicate 4 0) (omega arith) (omega arith)
      refl (omega arith, (omega arith, (omega arith, (omega arith, tt)))) (omega arith)
      (λ i. omega (arith, get_or-replicate {A = ℕ} 5 i 0))
