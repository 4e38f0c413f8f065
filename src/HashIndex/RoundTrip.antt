-- ===== src/HashIndex/RoundTrip.antt =====
-- crates/lightning-core/src/storage/index/hash_index.rs: the bytes of a value, written and read.
use lightning_db.Prelude.{
  ℕ, ◌+◌, ◌<◌, ◌≤◌, ◌≡◌, ◌^◌, ◌-◌, refl, ap, sym, ◌∙◌, Bool, true, false, not, List, [], ◌∷◌, arith,
  ltb, ◌==◌, length, get_or, set, ok, get_or-set, length-set, drop,
}
use lightning_db.Prelude.Bytes.{
  le_bytes, from_le_bytes, slice, copy_to, from_le_bytes-le_bytes, length-le_bytes, length-copy_to,
  get_or-copy_to, get_or-take, get_or-drop_at, slice_of, length-slice,
}
use lightning_db.HashIndex.Values.{
  Value, number, string, boolean, node, relationship, date, timestamp, other, IsKey, max_val_size,
  tagged, number_of, string_of, by_tag, serialize_value, deserialize_value,
}

-- The bytes at the place of a copy.
slice-copy_to :
    (xs ys : List ℕ) (start : ℕ)
    → start + length ys ≤ length xs
    → slice (copy_to xs start ys) start (length ys) ≡ ys
slice-copy_to xs ys start h =
    let whole = length-copy_to xs start ys h in
    slice_of (copy_to xs start ys) ys start (length ys) (omega (arith, whole)) refl λ i p.
      (get_or-copy_to xs start ys (start + i) 0 h
        ∙ (let place : start + i - start ≡ i = omega arith in
            ground (arith, ap (λ (k : ℕ). get_or ys k 0) place)))

-- Bytes before a copy.
slice-copy_to_later :
    (xs ys : List ℕ) (from n start : ℕ)
    → from + n ≤ start
    → start + length ys ≤ length xs
    → slice (copy_to xs start ys) from n ≡ slice xs from n
slice-copy_to_later xs ys from n start h room =
    let whole = length-copy_to xs start ys room in
    slice_of (copy_to xs start ys) (slice xs from n) from n (omega (arith, whole))
      (length-slice xs from n (omega arith))
      λ i p.
        (get_or-copy_to xs start ys (from + i) 0 room
          ∙ ground (arith, get_or-take n i (drop from xs) 0, get_or-drop_at from i xs 0))

deserialize-by_tag :
    (xs : List ℕ) (tag : ℕ)
    → 0 < length xs
    → get_or xs 0 0 ≡ tag
    → deserialize_value xs ≡ by_tag tag xs
unfolding deserialize_value
deserialize-by_tag [] tag h e = absurd (omega arith)
deserialize-by_tag (x ∷ xs) tag h e = ap (λ (t : ℕ). by_tag t (x ∷ xs)) e

module _ (buf : List ℕ) (room : length buf ≡ 256) where
  length-tagged :
      (tag : ℕ) (bytes : List ℕ) → 1 + length bytes ≤ 256 → length (tagged tag bytes buf) ≡ 256
  length-tagged tag bytes h =
      length-copy_to (set buf 0 tag) 1 bytes (omega (arith, length-set buf 0 tag))
      ∙ length-set buf 0 tag
      ∙ room

  tag_of :
      (tag : ℕ) (bytes : List ℕ) → 1 + length bytes ≤ 256 → get_or (tagged tag bytes buf) 0 0 ≡ tag
  tag_of tag bytes h =
      get_or-copy_to (set buf 0 tag) 1 bytes 0 0 (omega (arith, length-set buf 0 tag, room))
      ∙ ground (arith, get_or-set buf 0 0 tag 0)

  bytes_of :
      (tag : ℕ) (bytes : List ℕ)
      → 1 + length bytes ≤ 256
      → slice (tagged tag bytes buf) 1 (length bytes) ≡ bytes
  bytes_of tag bytes h =
      slice-copy_to (set buf 0 tag) bytes 1 (omega (arith, length-set buf 0 tag, room))

  number_back :
      (tag n v : ℕ) (value : ℕ → Value)
      → 1 + n ≤ 256
      → v < 256 ^ n
      → number_of (tagged tag (le_bytes n v) buf) n value ≡ ok (value v)
  number_back tag n v value h small =
      let l = length-le_bytes n v in
      let whole = length-tagged tag (le_bytes n v) (omega (arith, l)) in
      let enough : ltb (length (tagged tag (le_bytes n v) buf)) (1 + n) ≡ false =
        ground (arith, whole) in
      let word : slice (tagged tag (le_bytes n v) buf) 1 n ≡ le_bytes n v =
        ap (slice (tagged tag (le_bytes n v) buf) 1) (sym l)
        ∙ bytes_of tag (le_bytes n v) (omega (arith, l)) in
      rw (enough, word, from_le_bytes-le_bytes n v small) refl

  -- What stands in an entry is read back.
  stored :
      (v : Value) (out : List ℕ)
      → serialize_value v buf ≡ ok out
      → length out ≡ 256 × deserialize_value out ≡ ok v
      → (out : List ℕ) × (serialize_value v buf ≡ ok out
          × length out ≡ 256
          × deserialize_value out ≡ ok v)
  stored v out e back = (out, (e, back.0, back.1))

  back_boolean :
      (b : Bool) (x : ℕ)
      → not (x == 0) ≡ b
      → length (tagged 2 (x ∷ []) buf) ≡ 256
        × deserialize_value (tagged 2 (x ∷ []) buf) ≡ ok (boolean b)
  unfolding by_tag
  back_boolean b x e =
      let whole = length-tagged 2 (x ∷ []) (omega arith) in
      let enough : ltb (length (tagged 2 (x ∷ []) buf)) 2 ≡ false = ground (arith, whole) in
      let there : get_or (tagged 2 (x ∷ []) buf) 1 0 ≡ x =
        get_or-copy_to (set buf 0 2) 1 (x ∷ []) 1 0 (omega (arith, length-set buf 0 2, room)) in
      (
        whole,
        deserialize-by_tag (tagged 2 (x ∷ []) buf) 2 (omega (arith, whole))
              (tag_of 2 (x ∷ []) (omega arith))
            ∙ rw (enough, there, e) refl,
      )

  back_string :
      (bytes : List ℕ)
      → length bytes ≤ 251
      → length (copy_to (tagged 1 (le_bytes 4 (length bytes)) buf) 5 bytes) ≡ 256
        × deserialize_value (copy_to (tagged 1 (le_bytes 4 (length bytes)) buf) 5 bytes)
          ≡ ok (string bytes)
  unfolding by_tag
  back_string bytes h =
      let n : ℕ = length bytes in
      let l = length-le_bytes 4 n in
      let head : List ℕ = tagged 1 (le_bytes 4 n) buf in
      let first = length-tagged 1 (le_bytes 4 n) (omega (arith, l)) in
      let fits : 5 + length bytes ≤ length head = omega (arith, first) in
      let out : List ℕ = copy_to head 5 bytes in
      let whole : length out ≡ 256 = length-copy_to head 5 bytes fits ∙ first in
      let tag : get_or out 0 0 ≡ 1 =
        get_or-copy_to head 5 bytes 0 0 fits ∙ tag_of 1 (le_bytes 4 n) (omega (arith, l)) in
      let size : slice out 1 4 ≡ le_bytes 4 n =
        slice-copy_to_later head bytes 1 4 5 (omega arith) fits
        ∙ ap (slice head 1) (sym l)
        ∙ bytes_of 1 (le_bytes 4 n) (omega (arith, l)) in
      let enough : ltb (length out) 5 ≡ false = ground (arith, whole) in
      let enough' : ltb (length out) (5 + n) ≡ false = ground (arith, whole) in
      (
        whole,
        deserialize-by_tag out 1 (omega (arith, whole)) tag
            ∙ ap (string_of out) (ap from_le_bytes size ∙ from_le_bytes-le_bytes 4 n (omega arith))
            ∙ rw (enough, enough', slice-copy_to head bytes 5 fits) refl,
      )

  back_number :
      (tag n v : ℕ) (value : ℕ → Value)
      → 1 + n ≤ 256
      → v < 256 ^ n
      → by_tag tag (tagged tag (le_bytes n v) buf)
        ≡ number_of (tagged tag (le_bytes n v) buf) n value
      → length (tagged tag (le_bytes n v) buf) ≡ 256
        × deserialize_value (tagged tag (le_bytes n v) buf) ≡ ok (value v)
  back_number tag n v value h small match =
      let l = length-le_bytes n v in
      let whole = length-tagged tag (le_bytes n v) (omega (arith, l)) in
      (
        whole,
        deserialize-by_tag (tagged tag (le_bytes n v) buf) tag (omega (arith, whole))
              (tag_of tag (le_bytes n v) (omega (arith, l)))
            ∙ match
            ∙ number_back tag n v value h small,
      )

  -- A value that an entry can hold (a string of at most 251 bytes, a number that fits its bytes) is
  -- written into a buffer of 256 bytes, whatever that held, and read back from it.
  pub deserialize-serialize_value :
      (v : Value)
      → IsKey v
      → (out : List ℕ) × (serialize_value v buf ≡ ok out
          × length out ≡ 256
          × deserialize_value out ≡ ok v)
  unfolding serialize_value by_tag
  deserialize-serialize_value (number n) h =
      stored _ _ refl (back_number 0 8 n number (omega arith) h refl)
  deserialize-serialize_value (string bytes) h =
      let short : ltb (max_val_size - 5) (length bytes) ≡ false = ground arith in
      stored (string bytes) _ (rw short refl) (back_string bytes h)
  deserialize-serialize_value (boolean true) h =
      stored _ _ refl (back_boolean true 1 (ground arith))
  deserialize-serialize_value (boolean false) h =
      stored _ _ refl (back_boolean false 0 (ground arith))
  deserialize-serialize_value (node n) h =
      stored _ _ refl (back_number 3 8 n node (omega arith) h refl)
  deserialize-serialize_value (relationship n) h =
      stored _ _ refl (back_number 4 8 n relationship (omega arith) h refl)
  deserialize-serialize_value (date n) h =
      stored _ _ refl (back_number 5 4 n date (omega arith) h refl)
  deserialize-serialize_value (timestamp n) h =
      stored _ _ refl (back_number 6 8 n timestamp (omega arith) h refl)
  deserialize-serialize_value (other n) h = absurd (omega arith)
