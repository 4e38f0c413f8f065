-- ===== src/Operators/LimitSkip.antt =====
-- crates/lightning-core/src/processor/operators/limit_skip.rs: the operators of LIMIT and SKIP over any
-- child. The shared counter is an atomic of 64 bits and wraps.
use lightning_db.Prelude.{
  ℕ, zero, suc, ◌+◌, ◌-◌, ◌%◌, ◌^◌, ◌≤◌, ◌<◌, ◌≡◌, refl, ap, sym, subst, ◌∙◌, min, Bool, true,
  false, List, [], ◌++◌, arith, leb, ltb, ◌==◌, if◌then◌else◌, length, take, drop, lt→ltb,
  length-drop, drop_all, take_all, take_eq, take-nil, take-append, drop_eq, drop-nil, drop-append,
  length-append, Bool-cases, inl, inr,
}
use native.Mathlib.Decide.{dec_lt}
use lightning_db.Operators.{
  Answer, chunk, finished, failed, looping, GetNext, Yields, ends, gives, chunks,
}

module _ {S A E : Type 0} (child_next : GetNext S A E) where
  pub record Limit : Type 0 where
    pub child : S
    pub count : ℕ
    pub limit : ℕ

  unfoldable new_limit : S → ℕ → Limit
  new_limit child limit = record { child = child; count = 0; limit = limit }

  unfoldable is_single_row : Limit → Bool
  is_single_row op = op.limit == 1

  -- `child_clone` is the child's own `clone_box`.
  unfoldable clone_limit : (S → S) → Limit → Limit
  unfolding new_limit
  clone_limit child_clone op = new_limit (child_clone op.child) op.limit

  abbrev on_chunk : Limit → S → List A → Limit × Answer A E
  on_chunk op child batch =
      let num_rows = length batch in
      let start = op.count in
      let op' = record op { child = child; count = (start + num_rows) % 2 ^ 64 } in
      if leb op.limit start
      then (op', finished)
      else let taken = min (start + num_rows) op.limit - start in
        if taken == num_rows then (op', chunk batch) else (op', chunk (take taken batch))

  abbrev after_child : Limit → S × Answer A E → Limit × Answer A E
  after_child op (child, chunk batch) = on_chunk op child batch
  after_child op (child, finished) = (record op { child = child }, finished)
  after_child op (child, failed e) = (record op { child = child }, failed e)
  after_child op (child, looping) = (record op { child = child }, looping)

  unfoldable pub limit_next : GetNext Limit A E
  limit_next op = after_child op (child_next op.child)

  pub record Skip : Type 0 where
    pub child : S
    pub count : ℕ
    pub skip : ℕ

  unfoldable new_skip : S → ℕ → Skip
  new_skip child skip = record { child = child; count = 0; skip = skip }

  unfoldable clone_skip : (S → S) → Skip → Skip
  unfolding new_skip
  clone_skip child_clone op = new_skip (child_clone op.child) op.skip

  abbrev counted : Skip → S → List A → Skip
  counted op child batch = record op { child = child; count = (op.count + length batch) % 2 ^ 64 }

  -- The body of the loop. `rest` is the loop's next round.
  abbrev skip_chunk : Skip → S → List A → Skip × Answer A E → Skip × Answer A E
  skip_chunk op child batch rest =
      let num_rows = length batch in
      if leb (op.count + num_rows) op.skip
      then rest
      else let start = op.skip - op.count in
        if ltb start num_rows
        then (counted op child batch, chunk (take (num_rows - start) (drop start batch)))
        else rest

  -- One round of the loop; `loop` is the next one.
  abbrev skip_round : GetNext Skip A E → Skip → S × Answer A E → Skip × Answer A E
  skip_round loop op (child, chunk batch) =
      skip_chunk op child batch (loop (counted op child batch))
  skip_round loop op (child, finished) = (record op { child = child }, finished)
  skip_round loop op (child, failed e) = (record op { child = child }, failed e)
  skip_round loop op (child, looping) = (record op { child = child }, looping)

  -- The `while let` loop, on fuel.
  unfoldable pub skip_next : ℕ → GetNext Skip A E
  skip_next zero op = (op, looping)
  skip_next (suc fuel) op = skip_round (skip_next fuel) op (child_next op.child)

  module _ (op : Limit) (child : S) (c rest : List A)
      (few : op.count + (length c + length rest) < 2 ^ 64) where
    next_count : ℕ
    next_count = (op.count + length c) % 2 ^ 64

    on_chunk-more :
        leb op.limit op.count ≡ false
        → on_chunk op child c
          ≡ (record op { child = child; count = next_count }, chunk (take (op.limit - op.count) c))
    unfolding next_count
    on_chunk-more more =
        let n : ℕ = length c in
        elim (Bool-cases (min (op.count + n) op.limit - op.count == n)) [
          | inl whole ↦ rw (more, whole, take_all (op.limit - op.count) c (ground arith)) refl
          | inr part ↦
              rw (more, part)
                (ap
                  (λ (k : ℕ). (
                    record op { child = child; count = (op.count + n) % 2 ^ 64 },
                    chunk (take k c),
                  ))
                  (let e : min (op.count + n) op.limit - op.count ≡ op.limit - op.count =
                      ground arith in
                    e))
        ]

    on_chunk-reached :
        leb op.limit op.count ≡ true
        → on_chunk op child c ≡ (record op { child = child; count = next_count }, finished)
    unfolding next_count
    on_chunk-reached reached = rw reached refl

    take_split :
        take (op.limit - op.count) (c ++ rest)
        ≡ take (op.limit - op.count) c ++ take (op.limit - next_count) rest
    unfolding next_count
    take_split =
        take-append (op.limit - op.count) c rest
        ∙ take_eq (op.limit - op.count - length c) (op.limit - next_count) _ rest (omega arith)

  -- LIMIT yields the first rows of what its child yields, whatever the chunks are.
  pub limit_next-Yields :
      (s : S) (rows : List A) (y : Yields child_next s rows) (count limit : ℕ)
      → count + length rows < 2 ^ 64
      → Yields limit_next
          (record { child = s; count = count; limit = limit })
          (take (limit - count) rows)
  unfolding limit_next next_count
  limit_next-Yields s rows (ends e r) count limit h =
      ends (ap (after_child (record { child = s; count = count; limit = limit })) e)
        (rw r (take-nil (limit - count)))
  limit_next-Yields s rows (gives {s' = s'} c rest e y r) count limit h =
      let op : Limit = record { child = s; count = count; limit = limit } in
      let few : count + (length c + length rest) < 2 ^ 64 =
        omega (arith, h, ap length r, length-append c rest) in
      elim (Bool-cases (leb limit count)) [
        | inl reached ↦ ends (ap (after_child op) e ∙ on_chunk-reached op s' c rest few reached) (
            ap (λ (k : ℕ). take k rows)
              (let none_left : limit - count ≡ 0 = ground arith in none_left))
        | inr more ↦
            gives (take (limit - count) c) _
              (ap (after_child op) e ∙ on_chunk-more op s' c rest few more)
              (limit_next-Yields s' rest y (next_count op s' c rest few) limit (omega arith))
              (ap (take (limit - count)) r ∙ take_split op s' c rest few)
      ]

  module _ (op : Skip) (child : S) (c rest : List A)
      (few : op.count + (length c + length rest) < 2 ^ 64) where
    drop_split :
        drop (op.skip - op.count) (c ++ rest)
        ≡ drop (op.skip - op.count) c ++ drop (op.skip - (counted op child c).count) rest
    drop_split =
        drop-append (op.skip - op.count) c rest
        ∙ drop_eq (op.skip - op.count - length c) (op.skip - (counted op child c).count) _ rest
            (omega arith)

    skip_chunk-gives :
        (next : Skip × Answer A E)
        → op.skip - op.count < length c
        → skip_chunk op child c next ≡ (counted op child c, chunk (drop (op.skip - op.count) c))
    skip_chunk-gives next more =
        let start : ℕ = op.skip - op.count in
        let past : leb (op.count + length c) op.skip ≡ false = ground arith in
        rw (past, lt→ltb start (length c) more)
          (ap (λ (xs : List A). (counted op child c, chunk xs))
            (take_all (length c - start) (drop start c) (omega (arith, length-drop start c))))

    skip_chunk-skips :
        (next : Skip × Answer A E)
        → length c ≤ op.skip - op.count
        → skip_chunk op child c next ≡ next
    skip_chunk-skips next skips = ground arith

  -- The answer of a call, with what the calls after it yield.
  abbrev From : ℕ → Skip × Answer A E → List A → Type 0
  From f (op, chunk c) rows = (rest : List A) × Yields (skip_next f) op rest × (rows ≡ c ++ rest)
  From f (op, finished) rows = rows ≡ []
  From f (op, failed e) rows = ⊥
  From f (op, looping) rows = ⊥

  Yields-From :
      (f : ℕ) (op : Skip) (rows : List A) (answer : Skip × Answer A E)
      → skip_next f op ≡ answer
      → From f answer rows
      → Yields (skip_next f) op rows
  Yields-From f op rows (op', chunk c) e h = gives c h.0 e h.1 h.2
  Yields-From f op rows (op', finished) e h = ends e h
  Yields-From f op rows (op', failed x) e h = absurd h
  Yields-From f op rows (op', looping) e h = absurd h

  skip_next-From :
      (s : S) (rows : List A) (y : Yields child_next s rows) (g f count skip : ℕ)
      → chunks y < g
      → chunks y < f
      → count + length rows < 2 ^ 64
      → From f
          (skip_next g (record { child = s; count = count; skip = skip }))
          (drop (skip - count) rows)
  unfolding skip_next
  skip_next-From s rows y zero f count skip p q h = absurd (omega arith)
  skip_next-From s rows (ends e r) (suc g) f count skip p q h =
      subst
        (λ a.
          From f (skip_round (skip_next g) (record { child = s; count = count; skip = skip }) a)
            (drop (skip - count) rows))
        (sym e) (ap (drop (skip - count)) r ∙ drop-nil (skip - count))
  skip_next-From s rows (gives {s' = s'} c rest e y r) (suc g) f count skip p q h =
      let op : Skip = record { child = s; count = count; skip = skip } in
      let op' : Skip = counted op s' c in
      let few : count + (length c + length rest) < 2 ^ 64 =
        omega (arith, h, ap length r, length-append c rest) in
      let split : drop (skip - count) rows ≡ drop (skip - count) c ++ drop (skip - op'.count) rest =
        ap (drop (skip - count)) r ∙ drop_split op s' c rest few in
      subst (λ a. From f (skip_round (skip_next g) op a) (drop (skip - count) rows)) (sym e)
        (elim (dec_lt (skip - count) (length c)) [
          | yes more ↦ rw (skip_chunk-gives op s' c rest few (skip_next g op') more) (
            drop (skip - op'.count) rest,
            Yields-From f op' _ _ refl (
                skip_next-From s' rest y f f op'.count skip (omega arith) (omega arith)
                  (omega arith)),
            split,
          )
          | no all_skipped ↦
              rw
                (
                  skip_chunk-skips op s' c rest few (skip_next g op') (omega arith),
                  split,
                  drop_all (skip - count) c (omega arith),
                )
                (skip_next-From s' rest y g f op'.count skip (omega arith) (omega arith)
                  (omega arith))
        ])

  -- SKIP yields the rows of its child after the first ones, whatever the chunks are. A fuel above the
  -- number of the child's chunks is enough for each call.
  pub skip_next-Yields :
      (s : S) (rows : List A) (y : Yields child_next s rows) (fuel count skip : ℕ)
      → chunks y < fuel
      → count + length rows < 2 ^ 64
      → Yields
          (skip_next fuel)
          (record { child = s; count = count; skip = skip })
          (drop (skip - count) rows)
  skip_next-Yields s rows y fuel count skip p h =
      Yields-From fuel _ _ _ refl (skip_next-From s rows y fuel fuel count skip p p h)

-- SKIP below LIMIT yields one page of what the child yields: the rows after the first `skip`, at most
-- `limit` of them.
pub page-Yields :
    {S A E : Type 0} (child_next : GetNext S A E) (s : S) (rows : List A)
    (y : Yields child_next s rows) (fuel skip limit : ℕ)
    → chunks y < fuel
    → length rows < 2 ^ 64
    → Yields
        (limit_next (skip_next child_next fuel))
        (record { child = record { child = s; count = 0; skip = skip }; count = 0; limit = limit })
        (take limit (drop skip rows))
page-Yields child_next s rows y fuel skip limit p h =
    let skipping : Skip child_next = record { child = s; count = 0; skip = skip } in
    let unskipped : skip - 0 ≡ skip = omega arith in
    let skipped : Yields (skip_next child_next fuel) skipping (drop skip rows) =
      subst (λ k. Yields (skip_next child_next fuel) skipping (drop k rows)) unskipped
        (skip_next-Yields child_next s rows y fuel 0 skip p (omega arith)) in
    let unlimited : limit - 0 ≡ limit = omega arith in
    subst
      (λ k.
        Yields (limit_next (skip_next child_next fuel))
          (record { child = skipping; count = 0; limit = limit }) (take k (drop skip rows)))
      unlimited
      (limit_next-Yields (skip_next child_next fuel) skipping (drop skip rows) skipped 0 limit
        (omega (arith, length-drop skip rows)))
