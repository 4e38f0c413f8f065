-- ===== src/Csr/Writes.antt =====
-- crates/lightning-core/src/storage/index/csr.rs, `build`: what is read where a table of numbers was
-- written. An entry that no page's end cuts is not 510, 1022, ...
use Prim.Native.Nat.{bit_and}
use lightning_db.Prelude.Bits.{bit_and-mask}
use lightning_db.Prelude.Bytes.{le_bytes, from_le_bytes, from_le_bytes-le_bytes, length-le_bytes}
use lightning_db.Prelude.{
  ℕ, zero, suc, ◌+◌, ◌-◌, ◌*◌, ◌/◌, ◌%◌, ◌^◌, ◌≤◌, ◌<◌, ◌≡◌, ◌≢◌, refl, ap, ap₂, sym, ◌∙◌, true,
  false, ◌&&◌, List, [], ◌∷◌, map, arith, ltb, leb, ◌==◌, if◌then◌else◌, length, get_or, take, drop,
  count_up, All, subst,
}
use lightning_db.Csr.{
  FileHandle, page_size, u64_at, values_from, csr_offset_byte, kept, contains_edge,
}
use lightning_db.Csr.Build.{write_at, write_values}

abbrev pub IsWhole : ℕ → Type 0
IsWhole i = i % 512 ≢ 510

pub write_at-byte :
    (fh : FileHandle) (pos : ℕ) (bytes : List ℕ) (p : ℕ)
    → (write_at fh pos bytes).byte_at p ≡ (
        if (leb pos p && ltb p (pos + length bytes)) && (p / page_size == pos / page_size)
        then get_or bytes (p - pos) 0
        else fh.byte_at p)
unfolding write_at
write_at-byte fh pos bytes p = refl

write_values-before :
    (fh : FileHandle) (i : ℕ) (values : List ℕ) (p : ℕ)
    → p < 12 + i * 8
    → (write_values fh i values).byte_at p ≡ fh.byte_at p
unfolding write_values csr_offset_byte
write_values-before fh i [] p h = refl
write_values-before fh i (v ∷ values) p h =
    write_values-before (write_at fh (12 + i * 8) (le_bytes 8 v)) (suc i) values p (omega arith)
    ∙ write_at-byte fh (12 + i * 8) (le_bytes 8 v) p
    ∙ (let outside : leb (12 + i * 8) p ≡ false = ground arith in rw outside refl)

-- A byte of an entry.
write_at_entry :
    (fh : FileHandle) (i v m : ℕ)
    → m < 8
    → IsWhole i
    → (write_at fh (12 + i * 8) (le_bytes 8 v)).byte_at (12 + i * 8 + m) ≡ get_or (le_bytes 8 v) m 0
write_at_entry fh i v m h whole =
    let from : leb (12 + i * 8) (12 + i * 8 + m) ≡ true = ground arith in
    let to : ltb (12 + i * 8 + m) (12 + i * 8 + length (le_bytes 8 v)) ≡ true =
      ground (arith, length-le_bytes 8 v) in
    let page : (12 + i * 8 + m) / page_size ≡ (12 + i * 8) / page_size = omega (arith, whole) in
    let same : ((12 + i * 8 + m) / page_size == (12 + i * 8) / page_size) ≡ true =
      ground (arith, page) in
    let place : 12 + i * 8 + m - (12 + i * 8) ≡ m = omega arith in
    write_at-byte fh (12 + i * 8) (le_bytes 8 v) (12 + i * 8 + m) ∙ rw (from, to, same, place) refl

write_values-there :
    (fh : FileHandle) (i : ℕ) (values : List ℕ) (j m : ℕ)
    → j < length values
    → m < 8
    → IsWhole (i + j)
    → (write_values fh i values).byte_at (12 + (i + j) * 8 + m)
      ≡ get_or (le_bytes 8 (get_or values j 0)) m 0
unfolding write_values csr_offset_byte
write_values-there fh i [] j m h b whole = absurd (omega arith)
write_values-there fh i (v ∷ values) zero m h b whole =
    let e : i + 0 ≡ i = omega arith in
    let fh' : FileHandle = write_at fh (12 + i * 8) (le_bytes 8 v) in
    write_values-before fh' (suc i) values (12 + (i + 0) * 8 + m) (omega arith)
    ∙ ap (λ (k : ℕ). fh'.byte_at (12 + k * 8 + m)) e
    ∙ write_at_entry fh i v m b (λ cut. whole (ap (λ (k : ℕ). k % 512) e ∙ cut))
write_values-there fh i (v ∷ values) (suc j) m h b whole =
    let e : i + suc j ≡ suc i + j = omega arith in
    let fh' : FileHandle = write_at fh (12 + i * 8) (le_bytes 8 v) in
    ap (λ (k : ℕ). (write_values fh' (suc i) values).byte_at (12 + k * 8 + m)) e
    ∙ write_values-there fh' (suc i) values j m (omega arith) b
        (λ cut. whole (ap (λ (k : ℕ). k % 512) e ∙ cut))

pub write_values-num_pages_le :
    (fh : FileHandle) (i : ℕ) (values : List ℕ)
    → fh.num_pages ≤ (write_values fh i values).num_pages
unfolding write_values write_at
write_values-num_pages_le fh i [] = omega arith
write_values-num_pages_le fh i (v ∷ values) =
    let rest =
      write_values-num_pages_le (write_at fh (csr_offset_byte i) (le_bytes 8 v)) (suc i) values in
    ground (arith, rest)

-- The page of an entry is there.
pub write_values-num_pages :
    (fh : FileHandle) (i : ℕ) (values : List ℕ) (j : ℕ)
    → j < length values
    → (12 + (i + j) * 8) / page_size < (write_values fh i values).num_pages
unfolding write_values csr_offset_byte write_at
write_values-num_pages fh i [] j h = absurd (omega arith)
write_values-num_pages fh i (v ∷ values) zero h =
    let rest = write_values-num_pages_le (write_at fh (12 + i * 8) (le_bytes 8 v)) (suc i) values in
    let page : (12 + (i + 0) * 8) / page_size ≡ (12 + i * 8) / page_size = omega arith in
    ground (arith, rest, page)
write_values-num_pages fh i (v ∷ values) (suc j) h =
    let e : suc i + j ≡ i + suc j = omega arith in
    let file : FileHandle = write_values fh i (v ∷ values) in
    subst (λ (k : ℕ). (12 + k * 8) / page_size < file.num_pages) e
      (write_values-num_pages (write_at fh (12 + i * 8) (le_bytes 8 v)) (suc i) values j
        (omega arith))

map-count_up :
    (f : ℕ → ℕ) (n start : ℕ) (ys : List ℕ)
    → length ys ≡ n
    → ((m : ℕ) → m < n → f (start + m) ≡ get_or ys m 0)
    → map f (count_up n start) ≡ ys
map-count_up f zero start [] l h = refl
map-count_up f zero start (y ∷ ys) l h = absurd (omega arith)
map-count_up f (suc n) start [] l h = absurd (omega arith)
map-count_up f (suc n) start (y ∷ ys) l h =
    ap₂ ◌∷◌ (ap f (let e : start ≡ start + 0 = omega arith in e) ∙ h 0 (omega arith)) (
      map-count_up f n (start + 1) ys (omega arith) λ m p.
        (ap f (let e : start + 1 + m ≡ start + suc m = omega arith in e) ∙ h (suc m) (omega arith)))

-- An entry is read back.
pub u64_at-write_values :
    (fh : FileHandle) (values : List ℕ) (j : ℕ)
    → j < length values
    → IsWhole j
    → get_or values j 0 < 256 ^ 8
    → u64_at (write_values fh 0 values) (12 + j * 8) ≡ get_or values j 0
unfolding u64_at
u64_at-write_values fh values j h whole small =
    let v : ℕ = get_or values j 0 in
    let e : 0 + j ≡ j = omega arith in
    let file : FileHandle = write_values fh 0 values in
    ap from_le_bytes (
      map-count_up file.byte_at 8 (12 + j * 8) (le_bytes 8 v) (length-le_bytes 8 v) λ m p.
        (ap (λ (k : ℕ). file.byte_at (12 + k * 8 + m)) (sym e)
          ∙ write_values-there fh 0 values j m h p
              (λ cut. whole (ap (λ (k : ℕ). k % 512) (sym e) ∙ cut))))
    ∙ from_le_bytes-le_bytes 8 v small

take_from :
    (n s : ℕ) (xs : List ℕ)
    → s < length xs
    → take (suc n) (drop s xs) ≡ get_or xs s 0 ∷ take n (drop (suc s) xs)
take_from n s [] h = absurd (omega arith)
take_from n zero (x ∷ xs) h = refl
take_from n (suc s) (x ∷ xs) h = take_from n s xs (omega arith)

-- Consecutive entries are read back.
pub values_from-write_values :
    (fh : FileHandle) (values : List ℕ) (n s : ℕ)
    → s + n ≤ length values
    → ((t : ℕ) → s ≤ t → t < s + n → IsWhole t)
    → ((t : ℕ) → get_or values t 0 < 256 ^ 8)
    → values_from (write_values fh 0 values) n (12 + s * 8) ≡ take n (drop s values)
unfolding values_from
values_from-write_values fh values zero s h whole small = refl
values_from-write_values fh values (suc n) s h whole small =
    ap₂ ◌∷◌
      (u64_at-write_values fh values s (omega arith) (whole s (omega arith) (omega arith))
        (small s))
      (ap (values_from (write_values fh 0 values) n)
          (let e : 12 + s * 8 + 8 ≡ 12 + suc s * 8 = omega arith in e)
        ∙ values_from-write_values fh values n (suc s) (omega arith)
            (λ t a b. whole t (omega arith) (omega arith)) small)
    ∙ sym (take_from n s values (omega arith))

-- Without marks and deletions every value is reported.
pub kept_plain :
    (node : ℕ) (values : List ℕ) → All (λ v. v < 2 ^ 63) values → kept [] node values ≡ values
unfolding kept contains_edge
kept_plain node [] small = refl
kept_plain node (v ∷ values) small =
    let unmarked : bit_and v (2 ^ 63) ≡ 0 = bit_and-mask v 1 63 ∙ omega (arith, small.0) in
    let plain : bit_and v (2 ^ 63 - 1) ≡ v = bit_and-mask v 63 0 ∙ omega (arith, small.0) in
    let live : (bit_and v (2 ^ 63) == 0) ≡ true = ground (arith, unmarked) in
    rw live (ap₂ ◌∷◌ plain (kept_plain node values small.1))
