-- ===== src/RowVersion/Mask/Agrees.antt =====
-- crates/lightning-core/src/storage/row_version.rs, `get_visibility_mask`: it answers for each row what
-- `is_visible` answers for it.
use native.Mathlib.Nat.{add-zero, zero-add}
use lightning_db.Prelude.{
  ℕ, zero, suc, ◌+◌, ◌-◌, ◌<◌, ◌||◌, ◌≡◌, refl, Bool, true, false, Option, none, some, List, [],
  ◌∷◌, map, arith, ◌==◌, length, get_or, set, take, replicate, sym, length-map, get_or-map,
  length-append, length-take, filter, All, Bool-cases, ==_iff, subst, ◌≤◌, contains, ◌⊎◌, inl, inr,
  ◌∙◌, ext_get_or, length-set, get_or-set, length-replicate, get_or-replicate,
}
use lightning_db.Prelude.HashMap.{lookup}
use lightning_db.Prelude.Groups.{group, get_or-group}
use lightning_db.RowVersion.{
  RowVersion, Shard, CommittedVersion, empty_shard, get_shard_idx, shard_idx, visible, is_visible,
}
use lightning_db.RowVersion.Shards.{IsValid, shard_idx-lt}
use lightning_db.RowVersion.Mask.{
  enumerate, resize, group_visible, fill_group, fill_groups, get_visibility_mask,
}

group_visible-eq :
    (a : Option ℕ) (h : Option CommittedVersion) (tx_id read_ts : ℕ)
    → group_visible a h tx_id read_ts ≡ visible a h tx_id read_ts
unfolding group_visible visible
group_visible-eq none none tx_id read_ts = refl
group_visible-eq none (some e) tx_id read_ts = refl
group_visible-eq (some t) none tx_id read_ts = ground arith
group_visible-eq (some t) (some e) tx_id read_ts = ground arith

-- Some group names place `j`.
abbrev named : ℕ → List (List (ℕ × ℕ)) → Bool
named j [] = false
named j (g ∷ groups) = contains j (map (λ p. p.0) g) || named j groups

-- `w i` is the answer that place `i` must get; a pair is right for a shard if it gets that answer.
module _ (w : ℕ → Bool) (n tx_id read_ts : ℕ) where
  abbrev IsRight : Shard → ℕ × ℕ → Type 0
  IsRight s p =
      (p.0 < n) × (visible (lookup p.1 s.versions) (lookup p.1 s.committed) tx_id read_ts ≡ w p.0)

  length-fill_group :
      (s : Shard) (g : List (ℕ × ℕ)) (mask : List Bool)
      → length (fill_group s tx_id read_ts g mask) ≡ length mask
  unfolding fill_group
  length-fill_group s [] mask = refl
  length-fill_group s ((i, r) ∷ g) mask = length-fill_group s g _ ∙ length-set mask i _

  -- A place that is right stays right, and one that the group names becomes right.
  fill_group-right :
      (s : Shard) (g : List (ℕ × ℕ)) (mask : List Bool) (j : ℕ)
      → length mask ≡ n
      → All (IsRight s) g
      → (get_or mask j true ≡ w j) ⊎ (contains j (map (λ p. p.0) g) ≡ true)
      → get_or (fill_group s tx_id read_ts g mask) j true ≡ w j
  unfolding fill_group
  fill_group-right s [] mask j l h (inl e) = e
  fill_group-right s [] mask j l h (inr e) = absurd (cc)
  fill_group-right s ((i, r) ∷ g) mask j l (ri, h) c =
      let b : Bool = group_visible (lookup r s.versions) (lookup r s.committed) tx_id read_ts in
      fill_group-right s g (set mask i b) j (length-set mask i b ∙ l) h (
        ground (
          arith,
          c,
          get_or-set mask i j b true (omega (arith, l, ri.0)),
          group_visible-eq (lookup r s.versions) (lookup r s.committed) tx_id read_ts,
        ))

  length-fill_groups :
      (shards : List Shard) (i : ℕ) (groups : List (List (ℕ × ℕ))) (mask : List Bool)
      → length (fill_groups shards tx_id read_ts i groups mask) ≡ length mask
  unfolding fill_groups
  length-fill_groups shards i [] mask = refl
  length-fill_groups shards i ([] ∷ groups) mask = length-fill_groups shards (i + 1) groups mask
  length-fill_groups shards i ((p ∷ g) ∷ groups) mask =
      length-fill_groups shards (i + 1) groups _
      ∙ length-fill_group (get_or shards i empty_shard) (p ∷ g) mask

  abbrev GroupsRight : List Shard → ℕ → List (List (ℕ × ℕ)) → Type 0
  GroupsRight shards i [] = Unit
  GroupsRight shards i (g ∷ groups) =
      All (IsRight (get_or shards i empty_shard)) g × GroupsRight shards (i + 1) groups

  fill_groups-right :
      (shards : List Shard) (i : ℕ) (groups : List (List (ℕ × ℕ))) (mask : List Bool) (j : ℕ)
      → length mask ≡ n
      → GroupsRight shards i groups
      → (get_or mask j true ≡ w j) ⊎ (named j groups ≡ true)
      → get_or (fill_groups shards tx_id read_ts i groups mask) j true ≡ w j
  unfolding fill_groups
  fill_groups-right shards i [] mask j l h (inl e) = e
  fill_groups-right shards i [] mask j l h (inr e) = absurd (cc)
  fill_groups-right shards i ([] ∷ groups) mask j l h c =
      fill_groups-right shards (i + 1) groups mask j l h.1 c
  fill_groups-right shards i ((p ∷ g) ∷ groups) mask j l h c =
      let s : Shard = get_or shards i empty_shard in
      fill_groups-right shards (i + 1) groups (fill_group s tx_id read_ts (p ∷ g) mask) j
        (length-fill_group s (p ∷ g) mask ∙ l) h.1
        (ground (arith, c, fill_group-right s (p ∷ g) mask j l h.0))

  GroupsRight-of_each :
      (shards : List Shard) (i : ℕ) (groups : List (List (ℕ × ℕ)))
      → ((k : ℕ) → All (IsRight (get_or shards (i + k) empty_shard)) (get_or groups k []))
      → GroupsRight shards i groups
  GroupsRight-of_each shards i [] h = tt
  GroupsRight-of_each shards i (g ∷ groups) h = (
    rw (← add-zero i) (h 0),
    GroupsRight-of_each shards (i + 1) groups (λ k.
        subst (λ m. All (IsRight (get_or shards m empty_shard)) (get_or groups k [])) (omega arith)
          (h (suc k))),
  )

  module _ (shards : List Shard) (key : ℕ → ℕ) where
    -- What the shard of a row says of it.
    abbrev seen : ℕ → Bool
    seen r =
        let s : Shard = get_or shards (key r) empty_shard in
        visible (lookup r s.versions) (lookup r s.committed) tx_id read_ts

    IsRight-pair :
        (k i r : ℕ)
        → i < n
        → seen r ≡ w i
        → key r ≡ k
        → IsRight (get_or shards k empty_shard) (i, r)
    IsRight-pair k i r lt e q = subst (λ m. IsRight (get_or shards m empty_shard) (i, r)) q (lt, e)

    -- The pairs from place `i` on that have the key `k` are right for shard `k`.
    All-enumerate :
        (k i : ℕ) (ids : List ℕ)
        → i + length ids ≤ n
        → ((j : ℕ) → j < length ids → seen (get_or ids j 0) ≡ w (i + j))
        → All (IsRight (get_or shards k empty_shard)) (filter (λ p. key p.1 == k) (enumerate i ids))
    All-enumerate k i [] l h = tt
    All-enumerate k i (r ∷ ids) l h =
        let rest : All (IsRight (get_or shards k empty_shard))
            (filter (λ p. key p.1 == k) (enumerate (i + 1) ids)) =
          All-enumerate k (i + 1) ids (omega arith) (λ j lt.
            let e : i + suc j ≡ i + 1 + j = omega arith in
            subst (λ m. seen (get_or ids j 0) ≡ w m) e (h (suc j) (omega arith))) in
        elim (Bool-cases (key r == k)) [
          | inl q ↦ rw q (
            IsRight-pair k i r (omega arith) (rw (← add-zero i) (h 0 (omega arith)))
                ((==_iff _ _).0 q),
            rest,
          )
          | inr q ↦ rw q rest
        ]

named_here :
    (key : ℕ → ℕ) (i : ℕ) (ids : List ℕ) (j : ℕ)
    → j < length ids
    → contains
        (i + j)
        (map (λ p. p.0) (filter (λ p. key p.1 == key (get_or ids j 0)) (enumerate i ids)))
      ≡ true
named_here key i [] j h = elim h [ ]
named_here key i (r ∷ ids) zero h = ground arith
named_here key i (r ∷ ids) (suc j) h =
    let e : i + 1 + j ≡ i + suc j = omega arith in
    let ih =
      subst
        (λ m.
          contains m
            (map (λ p. p.0) (filter (λ p. key p.1 == key (get_or ids j 0)) (enumerate (i + 1) ids)))
          ≡ true)
        e (named_here key (i + 1) ids j (omega arith)) in
    ground (arith, ih)

named_of_group :
    (j k : ℕ) (groups : List (List (ℕ × ℕ)))
    → contains j (map (λ p. p.0) (get_or groups k [])) ≡ true
    → named j groups ≡ true
named_of_group j k [] h = h
named_of_group j zero (g ∷ groups) h = ground arith
named_of_group j (suc k) (g ∷ groups) h = ground (arith, named_of_group j k groups h)

length-resize : (n : ℕ) (mask : List Bool) → length (resize n true mask) ≡ n
length-resize n mask = omega (
  arith,
  length-append (take n mask) (replicate (n - length mask) true),
  length-take n mask,
  length-replicate (n - length mask) true,
)

All-keys :
    (num : ℕ) (i : ℕ) (ids : List ℕ)
    → 0 < num
    → All (λ p. shard_idx num p.1 < num) (enumerate i ids)
All-keys num i [] h = tt
All-keys num i (r ∷ ids) h = (shard_idx-lt num r h, All-keys num (i + 1) ids h)

module _ (rv : RowVersion) (v : IsValid rv) (row_ids : List ℕ) (tx_id read_ts : ℕ)
    (mask : List Bool) where
  abbrev answer : ℕ → Bool
  answer j = is_visible rv (get_or row_ids j 0) tx_id read_ts

  abbrev groups_of : List (List (ℕ × ℕ))
  groups_of = group (λ p. get_shard_idx rv p.1) (replicate rv.num_shards []) (enumerate 0 row_ids)

  get_or-groups_of :
      (k : ℕ)
      → get_or groups_of k [] ≡ filter (λ p. get_shard_idx rv p.1 == k) (enumerate 0 row_ids)
  get_or-groups_of k =
      get_or-group (λ p. get_shard_idx rv p.1) rv.num_shards (replicate rv.num_shards [])
        (enumerate 0 row_ids) k (length-replicate rv.num_shards [])
        (All-keys rv.num_shards 0 row_ids v.some_shard)
      ∙ rw (get_or-replicate {A = List (ℕ × ℕ)} rv.num_shards k [])

  groups-IsRight :
      (k : ℕ)
      → All
          (IsRight answer (length row_ids) tx_id read_ts (get_or rv.shards (0 + k) empty_shard))
          (get_or groups_of k [])
  unfolding is_visible
  groups-IsRight k =
      rw (zero-add, get_or-groups_of k)
        (All-enumerate answer (length row_ids) tx_id read_ts rv.shards (get_shard_idx rv) k 0
          row_ids (omega arith) (λ j lt. rw zero-add))

  mask_place :
      (j : ℕ)
      → j < length row_ids
      → get_or (get_visibility_mask rv row_ids tx_id read_ts mask) j true ≡ answer j
  unfolding get_visibility_mask
  mask_place j h =
      fill_groups-right answer (length row_ids) tx_id read_ts rv.shards 0 groups_of
        (resize (length row_ids) true mask) j (length-resize (length row_ids) mask)
        (GroupsRight-of_each answer (length row_ids) tx_id read_ts rv.shards 0 groups_of
          groups-IsRight)
        (inr (
          named_of_group j (get_shard_idx rv (get_or row_ids j 0)) groups_of
            (rw get_or-groups_of (rw zero-add at (named_here (get_shard_idx rv) 0 row_ids j h)))))

  length-get_visibility_mask :
      length (get_visibility_mask rv row_ids tx_id read_ts mask) ≡ length row_ids
  unfolding get_visibility_mask
  length-get_visibility_mask =
      length-fill_groups answer (length row_ids) tx_id read_ts rv.shards 0 groups_of _
      ∙ length-resize (length row_ids) mask

  -- The mask has for each row, in order, what `is_visible` says of it, whatever the vector held before.
  pub get_visibility_mask-eq_map :
      get_visibility_mask rv row_ids tx_id read_ts mask
      ≡ map (λ row_id. is_visible rv row_id tx_id read_ts) row_ids
  get_visibility_mask-eq_map =
      let f : ℕ → Bool = λ row_id. is_visible rv row_id tx_id read_ts in
      ext_get_or true _ _ (length-get_visibility_mask ∙ sym (length-map row_ids f)) (λ j lt.
        let lt' : j < length row_ids = omega (arith, length-get_visibility_mask) in
        mask_place j lt' ∙ sym (get_or-map row_ids f j true 0 lt'))
