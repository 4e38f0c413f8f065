-- ===== src/HashIndex/Values.antt =====
-- crates/lightning-core/src/storage/index/hash_index.rs: the values of an index as the bytes of an entry.
-- A string is its bytes; a number is its bits, a date and a timestamp their two's complements.
use lightning_db.Prelude.{
  ℕ, ◌+◌, ◌<◌, ◌≤◌, ◌≡◌, ◌^◌, ◌-◌, Bool, true, false, not, List, [], ◌∷◌, arith, ltb, ◌==◌, ◌↔◌,
  if◌then◌else◌, length, get_or, set, Result, ok, err,
}
use lightning_db.Prelude.Bytes.{le_bytes, from_le_bytes, slice, copy_to, bytes_eq, bytes_eq_iff}

pub data Value : Type 0 where
  number : ℕ → Value
  string : List ℕ → Value
  boolean : Bool → Value
  node : ℕ → Value
  relationship : ℕ → Value
  date : ℕ → Value
  timestamp : ℕ → Value
  -- null, a path, a list, a struct or a map, by a number for each
  other : ℕ → Value

pub data IndexError : Type 0 where
  string_too_long : IndexError
  unsupported : IndexError
  short_buffer : IndexError
  page_full : IndexError
  key_length : IndexError
  reinit_failed : IndexError
  out_of_fuel : IndexError

abbrev pub max_val_size : ℕ
max_val_size = 256

-- PartialEq of Value
unfoldable pub value_eq : Value → Value → Bool
value_eq (number a) (number b) = a == b
value_eq (string a) (string b) = bytes_eq a b
value_eq (boolean true) (boolean b) = b
value_eq (boolean false) (boolean b) = not b
value_eq (node a) (node b) = a == b
value_eq (relationship a) (relationship b) = a == b
value_eq (date a) (date b) = a == b
value_eq (timestamp a) (timestamp b) = a == b
value_eq (other a) (other b) = a == b
value_eq a b = false

abbrev pub tagged : ℕ → List ℕ → List ℕ → List ℕ
tagged tag bytes buf = copy_to (set buf 0 tag) 1 bytes

unfoldable pub serialize_value : Value → List ℕ → Result IndexError (List ℕ)
serialize_value (number n) buf = ok (tagged 0 (le_bytes 8 n) buf)
serialize_value (string bytes) buf =
    if ltb (max_val_size - 5) (length bytes)
    then err string_too_long
    else ok (copy_to (tagged 1 (le_bytes 4 (length bytes)) buf) 5 bytes)
serialize_value (boolean b) buf = ok (tagged 2 ((if b then 1 else 0) ∷ []) buf)
serialize_value (node id) buf = ok (tagged 3 (le_bytes 8 id) buf)
serialize_value (relationship id) buf = ok (tagged 4 (le_bytes 8 id) buf)
serialize_value (date d) buf = ok (tagged 5 (le_bytes 4 d) buf)
serialize_value (timestamp t) buf = ok (tagged 6 (le_bytes 8 t) buf)
serialize_value (other n) buf = err unsupported

-- A number of `n` bytes behind the tag.
abbrev pub number_of : List ℕ → ℕ → (ℕ → Value) → Result IndexError Value
number_of buf n value =
    if ltb (length buf) (1 + n)
    then err short_buffer
    else ok (value (from_le_bytes (slice buf 1 n)))

abbrev pub string_of : List ℕ → ℕ → Result IndexError Value
string_of buf len =
    if ltb (length buf) 5
    then err short_buffer
    else if ltb (length buf) (5 + len)
    then err short_buffer
    else ok (string (slice buf 5 len))

-- match buf[0]
unfoldable pub by_tag : ℕ → List ℕ → Result IndexError Value
by_tag tag buf =
    if tag == 0
    then number_of buf 8 number
    else if tag == 1
    then string_of buf (from_le_bytes (slice buf 1 4))
    else if tag == 2
    then if ltb (length buf) 2 then err short_buffer else ok (boolean (not (get_or buf 1 0 == 0)))
    else if tag == 3
    then number_of buf 8 node
    else if tag == 4
    then number_of buf 8 relationship
    else if tag == 5
    then number_of buf 4 date
    else if tag == 6
    then number_of buf 8 timestamp
    else err unsupported

unfoldable pub deserialize_value : List ℕ → Result IndexError Value
unfolding by_tag
deserialize_value [] = err short_buffer
deserialize_value (tag ∷ rest) = by_tag tag (tag ∷ rest)

-- The values that an entry holds.
abbrev pub IsKey : Value → Type 0
IsKey (number n) = n < 256 ^ 8
IsKey (string bytes) = length bytes ≤ 251
IsKey (boolean b) = Unit {0}
IsKey (node id) = id < 256 ^ 8
IsKey (relationship id) = id < 256 ^ 8
IsKey (date d) = d < 256 ^ 4
IsKey (timestamp t) = t < 256 ^ 8
IsKey (other n) = 1 ≤ 0

pub value_eq_iff : (a b : Value) → (value_eq a b ≡ true) ↔ (a ≡ b)
unfolding value_eq
value_eq_iff (string xs) (string ys) = ground (arith, bytes_eq_iff xs ys)
value_eq_iff (boolean true) (boolean b) = ground arith
value_eq_iff (boolean false) (boolean true) = ground arith
value_eq_iff (boolean false) (boolean false) = ground arith
value_eq_iff a b = ground arith
