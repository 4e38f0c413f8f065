-- ===== src/Compression/Blocks.antt =====
-- crates/lightning-core/src/storage/compression: the bytes of a block of values, as the codecs of packed
-- integers read them and write one value back.
use lightning_db.Prelude.{
  ℕ, zero, suc, ◌+◌, ◌*◌, ◌/◌, ◌%◌, ◌^◌, ◌≤◌, ◌<◌, ◌≡◌, refl, ap, sym, ◌∙◌, true, false, List, [],
  ◌∷◌, ◌++◌, map, ◌==◌, arith, leb, ltb, if◌then◌else◌, Bool-cases, inl, inr, length, get_or, take,
  drop, ok, length-append, length-take,
}
use mathlib.Core.List.{append_assoc}
use lightning_db.Prelude.Bits.{bit}
use lightning_db.Prelude.Bytes.{
  le_bytes, from_le_bytes, slice, copy_to, from_le_bytes-le_bytes, length-copy_to, length-le_bytes,
  get_or-copy_to, take-exact, drop-exact, drop-add, get_or-take,
}
use lightning_db.Compression.{pack_32, unpack_32, pack_loop, unpack_loop}
use lightning_db.Compression.Packing.{pack_loop-keeps, unpack_loop-pack_loop, unpack_loop-agrees}
use lightning_db.Compression.Bytes.{AreBytes}
use lightning_db.Compression.Codecs.{CodecError, emit_each, read_words, compressed_size}
use lightning_db.Compression.Algs.{block_bytes}

-- A value at the front of a buffer.
pub slice-put : (dst bytes : List ℕ) → length bytes ≡ 8 → slice (copy_to dst 0 bytes) 0 8 ≡ bytes
unfolding copy_to
slice-put dst bytes h = take-exact 8 bytes (drop (0 + length bytes) dst) h

pub emit_one :
    (value : ℕ → List ℕ) (dst : List ℕ)
    → length (value 0) ≡ 8
    → length dst ≡ 256
    → emit_each 1 value 0 dst 0 ≡ ok (copy_to dst 0 (value 0))
unfolding emit_each
emit_one value dst h l =
    let fits : leb (0 * 8 + length (value 0)) (length dst) ≡ true = ground arith in rw fits refl

-- The words of a buffer.
abbrev pub words : ℕ → ℕ → List ℕ → List ℕ
words zero i src = []
words (suc n) i src = from_le_bytes (slice src (i * 8) 8) ∷ words n (i + 1) src

pub length-words : (n i : ℕ) (src : List ℕ) → length (words n i src) ≡ n
length-words zero i src = refl
length-words (suc n) i src = ap suc (length-words n (i + 1) src)

pub read_words_lem :
    (short : CodecError) (n i : ℕ) (src : List ℕ)
    → (i + n) * 8 ≤ length src
    → read_words short n i src ≡ ok (words n i src)
unfolding read_words
read_words_lem short zero i src h = refl
read_words_lem short (suc n) i src h =
    let here : leb (i * 8 + 8) (length src) ≡ true = ground arith in
    rw (here, read_words_lem short n (i + 1) src (omega arith)) refl

pub get_or-words :
    (n i j : ℕ) (src : List ℕ)
    → j < n
    → get_or (words n i src) j 0 ≡ from_le_bytes (slice src ((i + j) * 8) 8)
get_or-words zero i j src h = absurd (omega arith)
get_or-words (suc n) i zero src h =
    ap (λ (k : ℕ). from_le_bytes (slice src (k * 8) 8)) (let e : i ≡ i + 0 = omega arith in e)
get_or-words (suc n) i (suc j) src h =
    get_or-words n (i + 1) j src (omega arith)
    ∙ ap (λ (k : ℕ). from_le_bytes (slice src (k * 8) 8))
        (let e : i + 1 + j ≡ i + suc j = omega arith in e)

pub length-block_bytes : (values : List ℕ) → length (block_bytes values) ≡ length values * 8
unfolding block_bytes
length-block_bytes [] = refl
length-block_bytes (v ∷ values) = omega (
  arith,
  length-append (le_bytes 8 v) (block_bytes values),
  length-le_bytes 8 v,
  length-block_bytes values,
)

pub slice-block_bytes :
    (values padding : List ℕ) (j : ℕ)
    → j < length values
    → slice (block_bytes values ++ padding) (j * 8) 8 ≡ le_bytes 8 (get_or values j 0)
unfolding block_bytes
slice-block_bytes [] padding j h = absurd (omega arith)
slice-block_bytes (v ∷ values) padding zero h =
    ap (take 8) (append_assoc (le_bytes 8 v) (block_bytes values) padding)
    ∙ take-exact 8 (le_bytes 8 v) (block_bytes values ++ padding) (length-le_bytes 8 v)
slice-block_bytes (v ∷ values) padding (suc j) h =
    ap (λ (n : ℕ). slice ((le_bytes 8 v ++ block_bytes values) ++ padding) n 8)
      (let e : suc j * 8 ≡ 8 + j * 8 = omega arith in e)
    ∙ ap (take 8) (
        drop-add 8 (j * 8) ((le_bytes 8 v ++ block_bytes values) ++ padding)
        ∙ ap (drop (j * 8)) (
            ap (drop 8) (append_assoc (le_bytes 8 v) (block_bytes values) padding)
            ∙ drop-exact 8 (le_bytes 8 v) (block_bytes values ++ padding) (length-le_bytes 8 v)))
    ∙ slice-block_bytes values padding j (omega arith)

pub word-block_bytes :
    (values padding : List ℕ) (j : ℕ)
    → j < length values
    → length values ≤ 32
    → get_or values j 0 < 2 ^ 64
    → get_or (words 32 0 (block_bytes values ++ padding)) j 0 ≡ get_or values j 0
word-block_bytes values padding j h n small =
    get_or-words 32 0 j (block_bytes values ++ padding) (omega arith)
    ∙ ap (λ (k : ℕ). from_le_bytes (slice (block_bytes values ++ padding) (k * 8) 8))
        (let e : 0 + j ≡ j = omega arith in e)
    ∙ ap from_le_bytes (slice-block_bytes values padding j h)
    ∙ from_le_bytes-le_bytes 8 (get_or values j 0) small

pack_32-narrow :
    (values : List ℕ) (w : ℕ) (output : List ℕ)
    → 0 < w
    → w < 64
    → pack_32 values w output ≡ pack_loop values w 0 output
unfolding pack_32
pack_32-narrow values w output some_bits narrow =
    let nonzero : (w == 0) ≡ false = ground arith in
    let not_whole : (w == 64) ≡ false = ground arith in rw (nonzero, not_whole) refl

unpack_32-narrow :
    (bytes : List ℕ) (w : ℕ) (old : List ℕ)
    → 0 < w
    → w < 64
    → unpack_32 bytes w old ≡ unpack_loop bytes w 0 old
unfolding unpack_32
unpack_32-narrow bytes w old some_bits narrow =
    let nonzero : (w == 0) ≡ false = ground arith in
    let not_whole : (w == 64) ≡ false = ground arith in rw (nonzero, not_whole) refl

-- A buffer of zeros.
module _ (zeros : List ℕ) (clear : (i : ℕ) → get_or zeros i 0 ≡ 0) where
  -- The buffer has the compressed bytes.
  pub length-over_zeros :
      (size : ℕ) (dst : List ℕ)
      → size ≤ length zeros
      → length (copy_to zeros 0 (take size dst)) ≡ length zeros
  length-over_zeros size dst h =
      length-copy_to zeros 0 (take size dst) (omega (arith, length-take size dst))

  pub get_or-over_zeros :
      (size : ℕ) (dst : List ℕ) (i : ℕ)
      → size ≤ length zeros
      → length dst ≡ length zeros
      → get_or (copy_to zeros 0 (take size dst)) i 0 ≡ (if ltb i size then get_or dst i 0 else 0)
  get_or-over_zeros size dst i h l =
      let cut : length (take size dst) ≡ size = omega (arith, length-take size dst) in
      get_or-copy_to zeros 0 (take size dst) i 0 (omega (arith, cut))
      ∙ (elim (Bool-cases (ltb i size)) [
        | inl inside ↦ rw inside (ground (arith, cut, get_or-take size i dst 0))
        | inr outside ↦ rw outside (ground (arith, cut, clear i))
      ])

  zeros-AreBytes : AreBytes zeros
  zeros-AreBytes i = omega (arith, clear i)

  unpack_loop-over_zeros :
      (values : List ℕ) (w : ℕ) (old : List ℕ)
      → 0 < w
      → w < 64
      → 256 ≤ length zeros
      → length values ≡ 32
      → length old ≡ 32
      → unpack_loop
          (copy_to zeros 0 (take (compressed_size w) (pack_loop values w 0 zeros)))
          w
          0
          old
        ≡ map (λ v. v % 2 ^ w) values
  unpack_loop-over_zeros values w old some_bits narrow wide l l' =
      let dst : List ℕ = pack_loop values w 0 zeros in
      let page : List ℕ = copy_to zeros 0 (take (compressed_size w) dst) in
      let count : length values * w ≡ 32 * w = ap (λ (n : ℕ). n * w) l in
      let count' : length old * w ≡ 32 * w = ap (λ (n : ℕ). n * w) l' in
      let room : 0 + length values * w ≤ 8 * length zeros = omega (arith, wide, count) in
      let keeps = pack_loop-keeps w some_bits narrow values 0 zeros room zeros-AreBytes in
      let whole : length dst ≡ length zeros = keeps.1 in
      let size : compressed_size w ≤ length zeros = omega (arith, wide) in
      unpack_loop-agrees w some_bits narrow dst page 0 old (omega (arith, whole, count', wide))
        (length-over_zeros (compressed_size w) dst size ∙ sym whole) keeps.2
        (λ i. ground (arith, get_or-over_zeros (compressed_size w) dst i size whole, keeps.2 i))
        (λ k p.
          (let inside : ltb (k / 8) (compressed_size w) ≡ true = ground (arith, count') in
            ap (λ (a : ℕ). bit a (k % 8))
              (get_or-over_zeros (compressed_size w) dst (k / 8) size whole ∙ rw inside refl)))
      ∙ unpack_loop-pack_loop w some_bits narrow values 0 zeros old (l' ∙ sym l) room zeros-AreBytes

  -- What a buffer of 32 packed values unpacks to.
  pub unpack_32-over_zeros :
      (values : List ℕ) (w : ℕ) (old : List ℕ)
      → 0 < w
      → w < 64
      → 256 ≤ length zeros
      → length values ≡ 32
      → length old ≡ 32
      → unpack_32 (copy_to zeros 0 (take (compressed_size w) (pack_32 values w zeros))) w old
        ≡ map (λ v. v % 2 ^ w) values
  unpack_32-over_zeros values w old some_bits narrow wide l l' =
      unpack_32-narrow _ w old some_bits narrow
      ∙ ap (λ (dst : List ℕ). unpack_loop (copy_to zeros 0 (take (compressed_size w) dst)) w 0 old)
          (pack_32-narrow values w zeros some_bits narrow)
      ∙ unpack_loop-over_zeros values w old some_bits narrow wide l l'

  pub length-pack_32 :
      (values : List ℕ) (w : ℕ)
      → 0 < w
      → w < 64
      → 256 ≤ length zeros
      → length values ≡ 32
      → length (pack_32 values w zeros) ≡ length zeros
  length-pack_32 values w some_bits narrow wide l =
      let count : length values * w ≡ 32 * w = ap (λ (n : ℕ). n * w) l in
      let room : 0 + length values * w ≤ 8 * length zeros = omega (arith, wide, count) in
      ap length (pack_32-narrow values w zeros some_bits narrow)
      ∙ (pack_loop-keeps w some_bits narrow values 0 zeros room zeros-AreBytes).1

-- A page of zeros.
module _ (zeros : List ℕ) (full : length zeros ≡ 4096)
    (clear : (i : ℕ) → get_or zeros i 0 ≡ 0) where
  pub length-page :
      (size : ℕ) (dst : List ℕ) → size ≤ 4096 → length (copy_to zeros 0 (take size dst)) ≡ 4096
  length-page size dst h = length-over_zeros zeros clear size dst (omega (arith, full)) ∙ full

  pub get_or-page :
      (size : ℕ) (dst : List ℕ) (i : ℕ)
      → size ≤ 4096
      → length dst ≡ 4096
      → get_or (copy_to zeros 0 (take size dst)) i 0 ≡ (if ltb i size then get_or dst i 0 else 0)
  get_or-page size dst i h l =
      get_or-over_zeros zeros clear size dst i (omega (arith, full)) (l ∙ sym full)

  pub unpack_32-packed :
      (values : List ℕ) (w : ℕ) (old : List ℕ)
      → 0 < w
      → w < 64
      → length values ≡ 32
      → length old ≡ 32
      → unpack_32 (copy_to zeros 0 (take (compressed_size w) (pack_32 values w zeros))) w old
        ≡ map (λ v. v % 2 ^ w) values
  unpack_32-packed values w old some_bits narrow l l' =
      unpack_32-over_zeros zeros clear values w old some_bits narrow (omega (arith, full)) l l'
