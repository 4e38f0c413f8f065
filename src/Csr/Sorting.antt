-- ===== src/Csr/Sorting.antt =====
-- crates/lightning-core/src/storage/index/csr.rs, `build`: the order of the edges.
use lightning_db.Prelude.{
  ℕ, suc, ◌-◌, ◌≤◌, ◌<◌, ◌≡◌, refl, ap, sym, ◌∙◌, true, false, List, [], ◌∷◌, map, arith, ltb, leb,
  ◌==◌, if◌then◌else◌, Bool-cases, inl, inr, length, take, drop,
}
use lightning_db.Csr.{Edge}
use lightning_db.Csr.Build.{insert_by_source, sort_by_source}

-- The ends of the edges of a node, in their order.
abbrev pub targets : ℕ → List Edge → List ℕ
targets node [] = []
targets node (e ∷ edges) = if e.0 == node then e.1 ∷ targets node edges else targets node edges

-- The number of edges of the nodes below one.
abbrev pub below : ℕ → List Edge → ℕ
below node [] = 0
below node (e ∷ edges) = if ltb e.0 node then suc (below node edges) else below node edges

abbrev ends : List Edge → List ℕ
ends edges = map (λ (e : Edge). e.1) edges

-- The edges are in order of their sources, which are at least `low`.
abbrev IsOrdered : ℕ → List Edge → Type 0
IsOrdered low [] = Unit
IsOrdered low (e ∷ edges) = low ≤ e.0 × IsOrdered e.0 edges

insert_by_source-IsOrdered :
    (e : Edge) (edges : List Edge) (low : ℕ)
    → low ≤ e.0
    → IsOrdered low edges
    → IsOrdered low (insert_by_source e edges)
unfolding insert_by_source
insert_by_source-IsOrdered e [] low h ordered = (h, tt)
insert_by_source-IsOrdered e (x ∷ edges) low h ordered = elim (Bool-cases (leb e.0 x.0)) [
  | inl first ↦ rw first (h, (ground (arith, first), ordered.1))
  | inr later ↦
      rw later (ordered.0, insert_by_source-IsOrdered e edges x.0 (ground (arith, later)) ordered.1)
]

sort_by_source-IsOrdered : (edges : List Edge) → IsOrdered 0 (sort_by_source edges)
unfolding sort_by_source
sort_by_source-IsOrdered [] = tt
sort_by_source-IsOrdered (e ∷ edges) =
    insert_by_source-IsOrdered e (sort_by_source edges) 0 (omega arith)
      (sort_by_source-IsOrdered edges)

targets-insert_by_source :
    (node : ℕ) (e : Edge) (edges : List Edge)
    → targets node (insert_by_source e edges) ≡ targets node (e ∷ edges)
unfolding insert_by_source
targets-insert_by_source node e [] = refl
targets-insert_by_source node e (x ∷ edges) = ground (arith, targets-insert_by_source node e edges)

pub targets-sort_by_source :
    (node : ℕ) (edges : List Edge) → targets node (sort_by_source edges) ≡ targets node edges
unfolding sort_by_source
targets-sort_by_source node [] = refl
targets-sort_by_source node (e ∷ edges) =
    targets-insert_by_source node e (sort_by_source edges)
    ∙ ground (arith, targets-sort_by_source node edges)

below-insert_by_source :
    (node : ℕ) (e : Edge) (edges : List Edge)
    → below node (insert_by_source e edges) ≡ below node (e ∷ edges)
unfolding insert_by_source
below-insert_by_source node e [] = refl
below-insert_by_source node e (x ∷ edges) = ground (arith, below-insert_by_source node e edges)

pub below-sort_by_source :
    (node : ℕ) (edges : List Edge) → below node (sort_by_source edges) ≡ below node edges
unfolding sort_by_source
below-sort_by_source node [] = refl
below-sort_by_source node (e ∷ edges) =
    below-insert_by_source node e (sort_by_source edges)
    ∙ ground (arith, below-sort_by_source node edges)

none_below :
    (edges : List Edge) (low node : ℕ) → IsOrdered low edges → node ≤ low → below node edges ≡ 0
none_below [] low node ordered h = refl
none_below (e ∷ edges) low node ordered h =
    let later = none_below edges e.0 node ordered.1 (omega (arith, ordered.0)) in
    ground (arith, later, ordered.0)

no_targets :
    (edges : List Edge) (low node : ℕ) → IsOrdered low edges → node < low → targets node edges ≡ []
no_targets [] low node ordered h = refl
no_targets (e ∷ edges) low node ordered h =
    let later = no_targets edges e.0 node ordered.1 (omega (arith, ordered.0)) in
    ground (arith, later, ordered.0)

-- The edges of a node stand behind those of the nodes below it.
targets_of_ordered :
    (edges : List Edge) (low node : ℕ)
    → IsOrdered low edges
    → take (below (suc node) edges - below node edges) (drop (below node edges) (ends edges))
      ≡ targets node edges
targets_of_ordered [] low node ordered = refl
targets_of_ordered (e ∷ edges) low node ordered =
    let rest = targets_of_ordered edges e.0 node ordered.1 in
    let later : ltb e.0 node ≡ false → below node edges ≡ 0 =
      λ h. none_below edges e.0 node ordered.1 (ground (arith, h)) in
    elim (Bool-cases (ltb e.0 node)) [
      | inl lower ↦
          let low_too : ltb e.0 (suc node) ≡ true = ground (arith, lower) in
          let other_source : (e.0 == node) ≡ false = ground (arith, lower) in
          let a : ℕ = below (suc node) edges in
          let b : ℕ = below node edges in
          rw (lower, low_too, other_source)
            (ap (λ (n : ℕ). take n (drop b (ends edges)))
                (let less : suc a - suc b ≡ a - b = omega arith in less)
              ∙ rest)
      | inr not_lower ↦
          let none = later not_lower in
          elim (Bool-cases (e.0 == node)) [
            | inl same ↦
                let counted : ltb e.0 (suc node) ≡ true = ground (arith, same) in
                rw (not_lower, counted, same, none)
                  (ap (λ (n : ℕ). take n (e.1 ∷ ends edges))
                      (let whole : suc (below (suc node) edges) - 0
                            ≡ suc (below (suc node) edges - 0) =
                          omega arith in
                        whole)
                    ∙ ap (◌∷◌ e.1) (
                        ap (λ (n : ℕ). take (below (suc node) edges - n) (drop n (ends edges)))
                          (sym none)
                        ∙ rest))
            | inr higher ↦
                let uncounted : ltb e.0 (suc node) ≡ false = ground (arith, not_lower, higher) in
                let none_at =
                  none_below edges e.0 (suc node) ordered.1 (ground (arith, not_lower, higher)) in
                let absent =
                  no_targets edges e.0 node ordered.1 (ground (arith, not_lower, higher)) in
                rw (not_lower, uncounted, higher, none, none_at, absent) refl
          ]
    ]

-- The end of a node's edges among all, in the order of their sources.
pub ends_of_sorted :
    (edges : List Edge) (node : ℕ)
    → take
        (below (suc node) edges - below node edges)
        (drop (below node edges) (ends (sort_by_source edges)))
      ≡ targets node edges
ends_of_sorted edges node =
    ap
      (λ (n : ℕ).
        take (n - below node edges) (drop (below node edges) (ends (sort_by_source edges))))
      (sym (below-sort_by_source (suc node) edges))
    ∙ ap
        (λ (n : ℕ).
          take (below (suc node) (sort_by_source edges) - n) (drop n (ends (sort_by_source edges))))
        (sym (below-sort_by_source node edges))
    ∙ targets_of_ordered (sort_by_source edges) 0 node (sort_by_source-IsOrdered edges)
    ∙ targets-sort_by_source node edges

pub below-le : (node : ℕ) (edges : List Edge) → below node edges ≤ length edges
below-le node [] = omega arith
below-le node (e ∷ edges) = ground (arith, below-le node edges)

pub below_mono : (node : ℕ) (edges : List Edge) → below node edges ≤ below (suc node) edges
below_mono node [] = omega arith
below_mono node (e ∷ edges) = ground (arith, below_mono node edges)

length-insert_by_source :
    (e : Edge) (edges : List Edge) → length (insert_by_source e edges) ≡ suc (length edges)
unfolding insert_by_source
length-insert_by_source e [] = refl
length-insert_by_source e (x ∷ edges) = ground (arith, length-insert_by_source e edges)

pub length-sort_by_source : (edges : List Edge) → length (sort_by_source edges) ≡ length edges
unfolding sort_by_source
length-sort_by_source [] = refl
length-sort_by_source (e ∷ edges) =
    length-insert_by_source e (sort_by_source edges) ∙ ap suc (length-sort_by_source edges)
