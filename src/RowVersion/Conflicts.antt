-- ===== src/RowVersion/Conflicts.antt =====
-- crates/lightning-core/src/storage/row_version.rs, `mark_row`: which writes are accepted.
use lightning_db.Prelude.{
  ℕ, ◌≤◌, ◌<◌, ◌≡◌, ◌≢◌, ◌↔◌, refl, Option, none, some, arith, ok, err, ◌>>◌,
}
use lightning_db.RowVersion.{
  RowVersion, CommittedVersion, active_tx, committed_at, mark_row, active_check, committed_check,
}
use lightning_db.RowVersion.Shards.{IsValid, active, history, marked}
use lightning_db.RowVersion.Vacuum.{FreeFor}

-- No commit of the row is later than the snapshot.
abbrev pub SettledBy : Option CommittedVersion → ℕ → Type 0
SettledBy none read_ts = Unit
SettledBy (some e) read_ts = e.last_ts ≤ read_ts

active_check_passes : (a : Option ℕ) (tx_id : ℕ) → FreeFor a tx_id → active_check a tx_id ≡ ok tt
unfolding active_check
active_check_passes none tx_id f = refl
active_check_passes (some t) tx_id f = ground arith

checks_pass :
    (a : Option ℕ) (h : Option CommittedVersion) (tx_id read_ts : ℕ) (rv' : RowVersion)
    → FreeFor a tx_id
    → SettledBy h read_ts
    → (active_check a tx_id >> (committed_check h read_ts >> ok rv')) ≡ ok rv'
unfolding active_check committed_check
checks_pass none none tx_id read_ts rv' f s = refl
checks_pass none (some e) tx_id read_ts rv' f s = ground arith
checks_pass (some t) none tx_id read_ts rv' f s = ground arith
checks_pass (some t) (some e) tx_id read_ts rv' f s = ground arith

checks_passed :
    (a : Option ℕ) (h : Option CommittedVersion) (tx_id read_ts : ℕ) (rv' rv'' : RowVersion)
    → (active_check a tx_id >> (committed_check h read_ts >> ok rv')) ≡ ok rv''
    → FreeFor a tx_id × SettledBy h read_ts × (rv'' ≡ rv')
unfolding active_check committed_check
checks_passed none none tx_id read_ts rv' rv'' e = (tt, tt, cc)
checks_passed none (some x) tx_id read_ts rv' rv'' e = ground arith
checks_passed (some t) none tx_id read_ts rv' rv'' e = ground arith
checks_passed (some t) (some x) tx_id read_ts rv' rv'' e = ground arith

module _ (rv : RowVersion) (v : IsValid rv) (row_id tx_id read_ts : ℕ) where
  -- A write is accepted exactly when no other transaction is changing the row and no commit of it is
  -- later than the writer's snapshot; it then marks that row for the writer, and no other.
  pub mark_row_accepts :
      (rv' : RowVersion)
      → (mark_row rv row_id tx_id read_ts ≡ ok rv') ↔ (
          FreeFor (active rv row_id) tx_id
          × SettledBy (history rv row_id) read_ts
          × (rv' ≡ marked rv v row_id tx_id))
  unfolding mark_row
  mark_row_accepts rv' = (
    (λ e. checks_passed (active rv row_id) (history rv row_id) tx_id read_ts _ rv' e),
    (λ (f, s, e). rw e (checks_pass (active rv row_id) (history rv row_id) tx_id read_ts _ f s)),
  )

  pub refused_active :
      (other : ℕ)
      → active rv row_id ≡ some other
      → other ≢ tx_id
      → mark_row rv row_id tx_id read_ts ≡ err (active_tx other)
  unfolding mark_row active_check
  refused_active other e ne = ground arith

  pub refused_committed :
      (e : CommittedVersion)
      → FreeFor (active rv row_id) tx_id
      → history rv row_id ≡ some e
      → read_ts < e.last_ts
      → mark_row rv row_id tx_id read_ts ≡ err (committed_at e.last_ts)
  unfolding mark_row committed_check
  refused_committed e free h late =
      let pass : active_check (active rv row_id) tx_id ≡ ok tt =
        active_check_passes (active rv row_id) tx_id free in
      ground (arith, pass)
