-- ===== src/Column/Blocks.antt =====
-- crates/lightning-core/src/storage/column.rs: the pages that reencode_compressed writes.
use lightning_db.Prelude.{
  ℕ, zero, suc, ◌+◌, ◌-◌, ◌*◌, ◌/◌, ◌%◌, ◌≤◌, ◌<◌, ◌≡◌, refl, ap, sym, ◌∙◌, min, false, ◌==◌, List,
  [], ◌∷◌, ◌++◌, arith, ltb, Bool-cases, inl, inr, length, get_or, take, drop, ok, All,
  length-append, length-take, length-drop, ext_get_or, subst,
}
use lightning_db.Prelude.Bytes.{
  le_bytes, slice, copy_to, length-copy_to, get_or-copy_to, get_or-append, get_or-take,
  get_or-drop_at, length-le_bytes,
}
use lightning_db.Compression.Codecs.{CompressionMetadata, Compressed}
use lightning_db.Compression.Algs.{
  CompressionAlg, IsCodecFor, DecodesTo, block_bytes, zero_page, frame_of,
}
use lightning_db.Compression.Blocks.{length-block_bytes}
use lightning_db.Column.{fill, reencode_loop}

-- Two neighbouring copies are one.
copy_to-copy_to :
    (xs ys zs : List ℕ) (start : ℕ)
    → start + length ys + length zs ≤ length xs
    → copy_to (copy_to xs start ys) (start + length ys) zs ≡ copy_to xs start (ys ++ zs)
copy_to-copy_to xs ys zs start h =
    let both = length-append ys zs in
    let one = length-copy_to xs start ys (omega arith) in
    ext_get_or 0 _ _
      (length-copy_to (copy_to xs start ys) (start + length ys) zs (omega (arith, one))
        ∙ one
        ∙ sym (length-copy_to xs start (ys ++ zs) (omega (arith, both))))
      λ i p.
        (get_or-copy_to (copy_to xs start ys) (start + length ys) zs i 0 (omega (arith, one))
          ∙ ground (
            arith,
            both,
            get_or-copy_to xs start ys i 0 (omega arith),
            get_or-copy_to xs start (ys ++ zs) i 0 (omega (arith, both)),
            get_or-append ys zs (i - start) 0,
          ))

copy_to-nil : (xs : List ℕ) (start : ℕ) → start ≤ length xs → copy_to xs start [] ≡ xs
copy_to-nil xs start h =
    ext_get_or 0 _ _ (length-copy_to xs start [] (omega arith))
      λ i p. get_or-copy_to xs start [] i 0 (omega arith) ∙ ground arith

fill_lem :
    (values : List ℕ) (i : ℕ) (src : List ℕ)
    → (i + length values) * 8 ≤ length src
    → fill i values src ≡ copy_to src (i * 8) (block_bytes values)
unfolding fill block_bytes
fill_lem [] i src h = sym (copy_to-nil src (i * 8) (omega arith))
fill_lem (v ∷ values) i src h =
    let word = length-le_bytes 8 v in
    let place : (i + 1) * 8 ≡ i * 8 + length (le_bytes 8 v) = omega (arith, word) in
    fill_lem values (i + 1) (copy_to src (i * 8) (le_bytes 8 v))
      (omega (arith, length-copy_to src (i * 8) (le_bytes 8 v) (omega (arith, word))))
    ∙ ap (λ (a : ℕ). copy_to (copy_to src (i * 8) (le_bytes 8 v)) a (block_bytes values)) place
    ∙ copy_to-copy_to src (le_bytes 8 v) (block_bytes values) (i * 8)
        (omega (arith, word, length-block_bytes values))

-- A filled block is its bytes, and what is left of the block before.
filled :
    (values src : List ℕ)
    → length values * 8 ≤ length src
    → fill 0 values src ≡ block_bytes values ++ drop (0 + length (block_bytes values)) src
unfolding copy_to
filled values src h = fill_lem values 0 src (omega arith)

module _ (alg : CompressionAlg) (metadata : CompressionMetadata) where
  -- A read of the row's block gives the row's value.
  abbrev pub Reads : List (List ℕ) → ℕ → ℕ → Type 0
  Reads pages row v =
      row / 32 < length pages
      × ((temp : List ℕ)
          → length temp ≡ 256
          → (out : List ℕ) × (alg.decompress_from_page (get_or pages (row / 32) []) (row % 32) temp
                  0 1 metadata
                ≡ ok out
              × slice out 0 8 ≡ le_bytes 8 v))

  later_page :
      (frame : List ℕ) (pages : List (List ℕ)) (row v : ℕ)
      → 32 ≤ row
      → Reads pages (row - 32) v
      → Reads (frame ∷ pages) row v
  later_page frame pages row v h reads =
      let page : row / 32 ≡ suc ((row - 32) / 32) = omega arith in
      let place : row % 32 ≡ (row - 32) % 32 = omega arith in
      (omega (arith, reads.0), λ temp room. rw (page, place) (reads.1 temp room))

  first_page :
      (frame : List ℕ) (pages : List (List ℕ)) (block : List ℕ) (row v : ℕ)
      → row < 32
      → row < length block
      → get_or block row 0 ≡ v
      → DecodesTo alg metadata frame block
      → Reads (frame ∷ pages) row v
  first_page frame pages block row v h inside e decodes =
      let page : row / 32 ≡ 0 = omega arith in
      let place : row % 32 ≡ row = omega arith in
      (omega arith, λ temp room. rw (page, place, sym e) (decodes row temp inside room))

  none_left :
      (fuel : ℕ) (values src : List ℕ)
      → length values ≡ 0
      → reencode_loop fuel alg metadata values src ≡ ok []
  unfolding reencode_loop
  none_left zero values src h = refl
  none_left (suc fuel) [] src h = refl
  none_left (suc fuel) (v ∷ values) src h = absurd (omega arith)

module _ (P : ℕ → Type 0) where
  All-take : (n : ℕ) (values : List ℕ) → All P values → All P (take n values)
  All-take zero values h = tt
  All-take (suc n) [] h = tt
  All-take (suc n) (v ∷ values) h = (h.0, All-take n values h.1)

  All-drop : (n : ℕ) (values : List ℕ) → All P values → All P (drop n values)
  All-drop zero values h = h
  All-drop (suc n) [] h = tt
  All-drop (suc n) (v ∷ values) h = All-drop n values h.1

  module _ (alg : CompressionAlg) (metadata : CompressionMetadata)
      (codec : IsCodecFor alg metadata P) where
    -- A round that compresses a block whole.
    round :
        (fuel : ℕ) (values src : List ℕ) (c : Compressed) (pages : List (List ℕ))
        → 0 < length values
        → c.processed ≡ min 32 (length values)
        → alg.compress_next_page
            (fill 0 (take (min 32 (length values)) values) src)
            (min 32 (length values))
            zero_page
            metadata
          ≡ ok c
        → reencode_loop fuel alg metadata
            (drop c.processed values)
            (fill 0 (take (min 32 (length values)) values) src)
          ≡ ok pages
        → reencode_loop (suc fuel) alg metadata values src ≡ ok (frame_of c ∷ pages)
    unfolding reencode_loop
    round fuel [] src c pages h all_of_it e rest = absurd (omega arith)
    round fuel (v ∷ values) src c pages h all_of_it e rest =
        let moved : (c.processed == 0) ≡ false = ground arith in rw (e, moved, rest) refl

    pub reencode_loop-Reads :
        (fuel : ℕ) (values src : List ℕ)
        → length values ≤ fuel
        → length src ≡ 256
        → All P values
        → (pages : List (List ℕ)) × (reencode_loop fuel alg metadata values src ≡ ok pages
            × ((row : ℕ)
                → row < length values
                → Reads alg metadata pages row (get_or values row 0)))
    reencode_loop-Reads zero values src enough whole fit =
        ([], (none_left alg metadata zero values src (omega arith), λ row p. absurd (omega arith)))
    reencode_loop-Reads (suc fuel) [] src enough whole fit =
        ([], (none_left alg metadata (suc fuel) [] src refl, λ row p. absurd (omega arith)))
    reencode_loop-Reads (suc fuel) (v ∷ others) src enough whole fit =
        let values : List ℕ = v ∷ others in
        let blk : ℕ = min 32 (length values) in
        let block : List ℕ = take blk values in
        let l : length block ≡ blk = omega (arith, length-take blk values) in
        let bytes = length-block_bytes block in
        let src' : List ℕ = fill 0 block src in
        let padding : List ℕ = drop (0 + length (block_bytes block)) src in
        let as_bytes : src' ≡ block_bytes block ++ padding = filled block src (omega arith) in
        let all_bytes : length (block_bytes block ++ padding) ≡ 256 = omega (
          arith,
          length-append (block_bytes block) padding,
          length-drop (0 + length (block_bytes block)) src,
        ) in
        let coded =
          codec block padding (omega arith) (omega arith) (All-take blk values fit) all_bytes in
        let c = coded.0 in
        let done : c.processed ≡ blk = coded.1.1 ∙ l in
        let compressed : alg.compress_next_page src' blk zero_page metadata ≡ ok c =
          ap (λ (s : List ℕ). alg.compress_next_page s blk zero_page metadata) as_bytes
          ∙ ap
              (λ (n : ℕ).
                alg.compress_next_page (block_bytes block ++ padding) n zero_page metadata)
              (sym l)
          ∙ coded.1.0 in
        let tail =
          reencode_loop-Reads fuel (drop c.processed values) src'
            (omega (arith, length-drop c.processed values)) (ap length as_bytes ∙ all_bytes)
            (All-drop c.processed values fit) in
        (
          frame_of c ∷ tail.0,
          (
            round fuel values src c tail.0 (omega arith) done compressed tail.1.0,
            λ row p. elim (Bool-cases (ltb row blk)) [
              | inl inside ↦
                  let same : get_or block row 0 ≡ get_or values row 0 =
                    get_or-take blk row values 0 (ground arith) in
                  first_page alg metadata (frame_of c) tail.0 block row (get_or values row 0)
                    (ground arith) (ground arith) same coded.1.2
              | inr later ↦
                  let there : c.processed + (row - 32) ≡ row = ground arith in
                  let same : get_or (drop c.processed values) (row - 32) 0 ≡ get_or values row 0 =
                    get_or-drop_at c.processed (row - 32) values 0
                    ∙ ap (λ (k : ℕ). get_or values k 0) there in
                  later_page alg metadata (frame_of c) tail.0 row (get_or values row 0)
                    (ground arith)
                    (subst (Reads alg metadata tail.0 (row - 32)) same
                      (tail.1.1 (row - 32) (ground (arith, length-drop c.processed values))))
            ],
          ),
        )
