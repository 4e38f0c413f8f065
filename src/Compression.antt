-- ===== src/Compression.antt =====
-- crates/lightning-core/src/storage/compression: the codecs of column pages. A buffer is a list of
-- bytes. This module has the packing of 32 values (bitpacking.rs), the children the codecs.
mod Bytes
mod Fields
pub mod Codecs
pub mod Algs
pub mod Analyzer
mod Writes
mod Reads
mod Packing
pub mod Blocks
pub mod PackedCodecs
pub mod FrameCodec
mod Runs
pub mod RunCodec
pub mod DictIndex
pub mod DictReads
pub mod DictCodec
pub mod Choice
mod Tests
use Prim.Native.Nat.{bit_and, bit_or}
use lightning_db.Prelude.{
  ℕ, zero, suc, ◌+◌, ◌-◌, ◌*◌, ◌/◌, ◌%◌, ◌^◌, min, Bool, ◌&&◌, ◌||◌, List, [], ◌∷◌, leb, ltb, ◌==◌,
  if◌then◌else◌, length, get_or, set, is_empty,
}
use lightning_db.Prelude.Bytes.{le_bytes, from_le_bytes, slice, copy_to}

-- !mask, on n bits
abbrev pub complement : ℕ → ℕ → ℕ
complement n mask = 2 ^ n - 1 - mask

-- The words of 64 bits that lie whole in the buffer.
abbrev pub in_word : ℕ → ℕ → List ℕ → Bool
in_word bit_width bit_offset bytes =
    leb (bit_offset % 64 + bit_width) 64 && leb (bit_offset / 64 * 8 + 8) (length bytes)

unfoldable pub write_word : ℕ → ℕ → ℕ → List ℕ → List ℕ
write_word val bit_width bit_offset bytes =
    let word_idx = bit_offset / 64 in
    let bit_in_word = bit_offset % 64 in
    let word = from_le_bytes (slice bytes (word_idx * 8) 8) in
    let mask = (2 ^ bit_width - 1) * 2 ^ bit_in_word in
    copy_to bytes (word_idx * 8) (
      le_bytes 8 (
        bit_or (bit_and word (complement 64 mask)) (bit_and (val * 2 ^ bit_in_word % 2 ^ 64) mask)))

-- `while bits_written < bit_width`; every round writes a bit at least, so that many rounds are enough.
unfoldable pub write_bits_loop : ℕ → ℕ → ℕ → ℕ → ℕ → List ℕ → List ℕ
write_bits_loop zero val bit_width bit_offset bits_written bytes = bytes
write_bits_loop (suc fuel) val bit_width bit_offset bits_written bytes =
    let byte_idx = (bit_offset + bits_written) / 8 in
    let bit_in_byte = (bit_offset + bits_written) % 8 in
    let count = min (bit_width - bits_written) (8 - bit_in_byte) in
    let mask = 2 ^ count - 1 in
    let bits = bit_and (val / 2 ^ bits_written) mask in
    let byte =
      bit_or (bit_and (get_or bytes byte_idx 0) (complement 8 (mask * 2 ^ bit_in_byte)))
        (bits * 2 ^ bit_in_byte) in
    let rest =
      write_bits_loop fuel val bit_width bit_offset (bits_written + count)
        (set bytes byte_idx byte) in
    if ltb bits_written bit_width
    then if leb (length bytes) byte_idx then bytes else rest
    else bytes

unfoldable pub write_bits : ℕ → ℕ → ℕ → List ℕ → List ℕ
unfolding write_word write_bits_loop
write_bits val bit_width bit_offset bytes =
    if bit_width == 0 || leb 64 bit_width || is_empty bytes
    then bytes
    else if in_word bit_width bit_offset bytes
    then write_word val bit_width bit_offset bytes
    else write_bits_loop bit_width val bit_width bit_offset 0 bytes

unfoldable pub read_bits_loop : ℕ → ℕ → ℕ → ℕ → ℕ → List ℕ → ℕ
read_bits_loop zero bit_width bit_offset bits_read val bytes = val
read_bits_loop (suc fuel) bit_width bit_offset bits_read val bytes =
    let byte_idx = (bit_offset + bits_read) / 8 in
    let bit_in_byte = (bit_offset + bits_read) % 8 in
    let count = min (bit_width - bits_read) (8 - bit_in_byte) in
    let mask = 2 ^ count - 1 in
    let bits = bit_and (get_or bytes byte_idx 0 / 2 ^ bit_in_byte) mask in
    let rest =
      read_bits_loop fuel bit_width bit_offset (bits_read + count)
        (bit_or val (bits * 2 ^ bits_read)) bytes in
    if ltb bits_read bit_width then if leb (length bytes) byte_idx then val else rest else val

unfoldable pub read_bits : ℕ → ℕ → List ℕ → ℕ
unfolding read_bits_loop
read_bits bit_width bit_offset bytes =
    if bit_width == 0 || leb 64 bit_width || is_empty bytes
    then 0
    else if in_word bit_width bit_offset bytes
    then bit_and (from_le_bytes (slice bytes (bit_offset / 64 * 8) 8) / 2 ^ (bit_offset % 64))
        (2 ^ bit_width - 1)
    else read_bits_loop bit_width bit_width bit_offset 0 0 bytes

-- The loop over the values, of `bit_width` bits each, and of whole words.
unfoldable pub pack_loop : List ℕ → ℕ → ℕ → List ℕ → List ℕ
unfolding write_bits
pack_loop [] bit_width bit_offset output = output
pack_loop (val ∷ values) bit_width bit_offset output =
    pack_loop values bit_width (bit_offset + bit_width) (write_bits val bit_width bit_offset output)

unfoldable pub pack_words : List ℕ → ℕ → List ℕ → List ℕ
pack_words [] offset output = output
pack_words (val ∷ values) offset output =
    pack_words values (offset + 8)
      (if leb (offset + 8) (length output) then copy_to output offset (le_bytes 8 val) else output)

unfoldable pub pack_32 : List ℕ → ℕ → List ℕ → List ℕ
unfolding pack_loop pack_words
pack_32 values bit_width output =
    if bit_width == 0
    then output
    else if bit_width == 64
    then pack_words values 0 output
    else pack_loop values bit_width 0 output

-- `output` are the values that stand there before.
unfoldable pub unpack_loop : List ℕ → ℕ → ℕ → List ℕ → List ℕ
unfolding read_bits
unpack_loop bytes bit_width bit_offset [] = []
unpack_loop bytes bit_width bit_offset (v ∷ output) =
    read_bits bit_width bit_offset bytes
    ∷ unpack_loop bytes bit_width (bit_offset + bit_width) output

unfoldable pub unpack_words : List ℕ → ℕ → List ℕ → List ℕ
unpack_words bytes offset [] = []
unpack_words bytes offset (v ∷ output) =
    (if leb (offset + 8) (length bytes) then from_le_bytes (slice bytes offset 8) else v)
    ∷ unpack_words bytes (offset + 8) output

unfoldable pub unpack_32 : List ℕ → ℕ → List ℕ → List ℕ
unfolding unpack_loop unpack_words
unpack_32 bytes bit_width output =
    if bit_width == 0
    then output
    else if bit_width == 64
    then unpack_words bytes 0 output
    else unpack_loop bytes bit_width 0 output
