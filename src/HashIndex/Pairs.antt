-- ===== src/HashIndex/Pairs.antt =====
-- crates/lightning-core/src/storage/index/hash_index.rs: the rows of a key among pairs of keys and rows.
use lightning_db.Prelude.{
  ℕ, ◌≡◌, refl, ◌∙◌, Bool, true, false, ◌&&◌, List, [], ◌∷◌, ◌++◌, arith, ◌==◌, if◌then◌else◌,
  length, take, take_eq, take-append, length-append, length-take, ◌-◌, Option, none, some,
}
use lightning_db.HashIndex.Values.{Value, value_eq, value_eq_iff}

-- The rows of a key among pairs of a key and a row.
abbrev pub rows_of : Value → List (Value × ℕ) → List ℕ
rows_of key [] = []
rows_of key (pair ∷ rest) =
    if value_eq pair.0 key then pair.1 ∷ rows_of key rest else rows_of key rest

-- The pairs without the first one of a key and a row.
abbrev pub without : Value → ℕ → List (Value × ℕ) → List (Value × ℕ)
without key row [] = []
without key row (pair ∷ rest) =
    if value_eq pair.0 key && (pair.1 == row) then rest else pair ∷ without key row rest

abbrev pub contains : ℕ → List ℕ → Bool
contains row [] = false
contains row (x ∷ xs) = if x == row then true else contains row xs

abbrev pub remove_first : ℕ → List ℕ → List ℕ
remove_first row [] = []
remove_first row (x ∷ xs) = if x == row then xs else x ∷ remove_first row xs

pub rows_of-append :
    (key : Value) (ps qs : List (Value × ℕ))
    → rows_of key (ps ++ qs) ≡ rows_of key ps ++ rows_of key qs
rows_of-append key [] qs = refl
rows_of-append key (p ∷ ps) qs = ground (arith, rows_of-append key ps qs)

pub rows_of-without :
    (key : Value) (row : ℕ) (ps : List (Value × ℕ))
    → rows_of key (without key row ps) ≡ remove_first row (rows_of key ps)
rows_of-without key row [] = refl
rows_of-without key row (p ∷ ps) = ground (arith, rows_of-without key row ps)

-- Another key keeps its rows.
pub rows_of-without_other :
    (another key : Value) (row : ℕ) (ps : List (Value × ℕ))
    → value_eq another key ≡ false
    → rows_of another (without key row ps) ≡ rows_of another ps
rows_of-without_other another key row [] h = refl
rows_of-without_other another key row (p ∷ ps) h = ground (
  arith,
  rows_of-without_other another key row ps h,
  value_eq_iff p.0 key,
  value_eq_iff p.0 another,
  value_eq_iff another key,
)

pub without-append_here :
    (key : Value) (row : ℕ) (ps qs : List (Value × ℕ))
    → contains row (rows_of key ps) ≡ true
    → without key row (ps ++ qs) ≡ without key row ps ++ qs
without-append_here key row [] qs h = absurd (ground (arith, h))
without-append_here key row (p ∷ ps) qs h = ground (arith, without-append_here key row ps qs)

pub without-append_later :
    (key : Value) (row : ℕ) (ps qs : List (Value × ℕ))
    → contains row (rows_of key ps) ≡ false
    → without key row (ps ++ qs) ≡ ps ++ without key row qs
without-append_later key row [] qs h = refl
without-append_later key row (p ∷ ps) qs h = ground (arith, without-append_later key row ps qs)

pub contains-append :
    (row : ℕ) (xs ys : List ℕ)
    → contains row (xs ++ ys) ≡ (if contains row xs then true else contains row ys)
contains-append row [] ys = refl
contains-append row (x ∷ xs) ys = ground (arith, contains-append row xs ys)

-- Every limit: the rows of the key behind the results, up to it.
abbrev pub capped : Option ℕ → List ℕ → List ℕ → List ℕ
capped none results rows = rows
capped (some l) results rows = take (l - length results) rows

pub capped-append :
    (limit : Option ℕ) (results xs ys : List ℕ)
    → capped limit results (xs ++ ys)
      ≡ capped limit results xs ++ capped limit (results ++ capped limit results xs) ys
capped-append none results xs ys = refl
capped-append (some l) results xs ys =
    let n : ℕ = l - length results in
    take-append n xs ys
    ∙ take_eq (n - length xs) (l - length (results ++ take n xs)) (take n xs) ys
        (omega (arith, length-append results (take n xs), length-take n xs))
