-- ===== src/RowVersion/Isolation.antt =====
-- crates/lightning-core/src/storage/row_version.rs: what snapshots may rely on, whatever other
-- transactions and the vacuum do in between.
use lightning_db.Prelude.{
  ℕ, ◌≤◌, ◌<◌, ◌≡◌, ◌≢◌, refl, min, Bool, true, false, Option, none, some, List, arith, leb, ◌==◌,
  if◌then◌else◌, ok, err, ◌>>◌, All, Bool-cases, inl, inr, ==_refl,
}
use lightning_db.Prelude.HashMap.{and_then}
use lightning_db.RowVersion.{
  RowVersion, CommittedVersion, Conflict, active_tx, committed_at, mark_row, commit_row,
  keep_recent, touch, is_visible, visible, active_check, committed_check,
}
use lightning_db.RowVersion.Shards.{
  IsValid, active, history, active-marked, history-marked, active-commit_row, history-commit_row,
  active-rollback_row, history-rollback_row, commit_row-IsValid,
}
use lightning_db.RowVersion.Vacuum.{history-vacuum}
use lightning_db.RowVersion.Run.{Op, run, Limits, Allowed, Kept, run_keeps}

-- Some commit of the row is later than the snapshot.
abbrev pub IsLate : Option CommittedVersion → ℕ → Type 0
IsLate none read_ts = ⊥
IsLate (some e) read_ts = read_ts < e.last_ts

touch-IsLate :
    (h : Option CommittedVersion) (ts read_ts : ℕ)
    → IsLate h read_ts
    → IsLate (some (touch h ts)) read_ts
unfolding touch
touch-IsLate none ts read_ts l = absurd l
touch-IsLate (some e) ts read_ts l = omega arith

keep_recent-IsLate :
    (h : Option CommittedVersion) (min read_ts : ℕ)
    → min ≤ read_ts
    → IsLate h read_ts
    → IsLate (and_then h (keep_recent min)) read_ts
unfolding keep_recent
keep_recent-IsLate none min read_ts le l = absurd l
keep_recent-IsLate (some e) min read_ts le l = ground arith

-- Anything but a vacuum past the snapshot.
abbrev pub behind : ℕ → Limits
behind read_ts = record {
  Marks = λ _. Unit {0};
  Commits = λ _. Unit {0};
  Vacuums = λ min. min ≤ read_ts;
}

if_IsLate :
    (b : Bool) (h : Option CommittedVersion) (ts read_ts : ℕ)
    → IsLate h read_ts
    → IsLate (if b then some (touch h ts) else h) read_ts
if_IsLate true h ts read_ts l = touch-IsLate h ts read_ts l
if_IsLate false h ts read_ts l = l

IsLate-Kept :
    (row_id read_ts : ℕ) → Kept (behind read_ts) (λ rv. IsLate (history rv row_id) read_ts)
IsLate-Kept row_id read_ts = record {
  mark = λ rv v r tx_id _ l. rw (history-marked rv v r tx_id row_id) l;
  commit = λ rv v r ts _ l.
      rw (history-commit_row rv v r ts row_id)
        (if_IsLate (r == row_id) (history rv row_id) ts read_ts l);
  rollback = λ rv v r l. rw (history-rollback_row rv v r row_id) l;
  purge = λ rv v min le l.
      rw (history-vacuum rv v min row_id) (keep_recent-IsLate (history rv row_id) min read_ts le l);
}

refused_checks :
    (a : Option ℕ) (h : Option CommittedVersion) (tx_id read_ts : ℕ) (rv : RowVersion)
    → IsLate h read_ts
    → (c : Conflict) × ((active_check a tx_id >> (committed_check h read_ts >> ok rv)) ≡ err c)
unfolding active_check committed_check
refused_checks a none tx_id read_ts rv l = absurd l
refused_checks none (some e) tx_id read_ts rv l = (committed_at e.last_ts, ground arith)
refused_checks (some t) (some e) tx_id read_ts rv l = elim (Bool-cases (t == tx_id)) [
  | inl q ↦ (committed_at e.last_ts, ground arith)
  | inr q ↦ (active_tx t, ground arith)
]

touch_later-IsLate :
    (h : Option CommittedVersion) (ts read_ts : ℕ)
    → read_ts < ts
    → IsLate (some (touch h ts)) read_ts
unfolding touch
touch_later-IsLate none ts read_ts l = omega arith
touch_later-IsLate (some e) ts read_ts l = omega arith

refused_late :
    (rv : RowVersion) (row_id tx_id read_ts : ℕ)
    → IsLate (history rv row_id) read_ts
    → (c : Conflict) × (mark_row rv row_id tx_id read_ts ≡ err c)
unfolding mark_row
refused_late rv row_id tx_id read_ts l =
    refused_checks (active rv row_id) (history rv row_id) tx_id read_ts _ l

-- Once a row was committed after a snapshot, every write of it by a transaction with that snapshot
-- is refused: after any further operations, as long as no vacuum goes past the snapshot.
pub no_lost_update :
    (rv : RowVersion) (ops : List Op) (row_id tx_id read_ts ts : ℕ)
    → IsValid rv
    → read_ts < ts
    → All (Allowed (behind read_ts)) ops
    → (c : Conflict) × (mark_row (run (commit_row rv row_id ts) ops) row_id tx_id read_ts ≡ err c)
no_lost_update rv ops row_id tx_id read_ts ts v late a =
    refused_late (run (commit_row rv row_id ts) ops) row_id tx_id read_ts
      (run_keeps (behind read_ts) _ (IsLate-Kept row_id read_ts) (commit_row rv row_id ts)
        (commit_row-IsValid rv v row_id ts) ops a
        (rw (history-commit_row rv v row_id ts row_id, ==_refl row_id)
          (touch_later-IsLate (history rv row_id) ts read_ts late))).1

-- The row has a commit history, which shows it to the snapshot as `seen` says.
abbrev pub ShownAs : Option CommittedVersion → ℕ → Bool → Type 0
ShownAs none read_ts seen = ⊥
ShownAs (some e) read_ts seen = leb e.first_ts read_ts ≡ seen

-- Nothing but the reader's own write lets it see a row that it should not.
abbrev pub NotHeldBy : Option ℕ → ℕ → Type 0
NotHeldBy none reader = Unit
NotHeldBy (some t) reader = t ≢ reader

-- Other transactions, commits later than the snapshot, and no vacuum.
abbrev pub others : ℕ → ℕ → Limits
others reader read_ts = record {
  Marks = λ tx_id. tx_id ≢ reader;
  Commits = λ ts. read_ts < ts;
  Vacuums = λ _. ⊥;
}

abbrev Stable : ℕ → ℕ → ℕ → Bool → RowVersion → Type 0
Stable row_id reader read_ts seen rv =
    ShownAs (history rv row_id) read_ts seen × NotHeldBy (active rv row_id) reader

touched :
    (b : Bool) (h : Option CommittedVersion) (ts read_ts : ℕ) (seen : Bool)
    → read_ts < ts
    → ShownAs h read_ts seen
    → ShownAs (if b then some (touch h ts) else h) read_ts seen
unfolding touch
touched b none ts read_ts seen late s = absurd s
touched true (some e) ts read_ts seen late s = ground arith
touched false (some e) ts read_ts seen late s = s

freed :
    (b : Bool) (a : Option ℕ) (reader : ℕ)
    → NotHeldBy a reader
    → NotHeldBy (if b then none else a) reader
freed true a reader n = tt
freed false a reader n = n

taken :
    (b : Bool) (a : Option ℕ) (tx_id reader : ℕ)
    → tx_id ≢ reader
    → NotHeldBy a reader
    → NotHeldBy (if b then some tx_id else a) reader
taken true a tx_id reader ne n = ne
taken false a tx_id reader ne n = n

Stable-Kept :
    (row_id reader read_ts : ℕ) (seen : Bool)
    → Kept (others reader read_ts) (Stable row_id reader read_ts seen)
Stable-Kept row_id reader read_ts seen = record {
  mark = λ rv v r tx_id ne (s, n). (
    rw (history-marked rv v r tx_id row_id) s,
    rw (active-marked rv v r tx_id row_id) (taken (r == row_id) _ tx_id reader ne n),
  );
  commit = λ rv v r ts late (s, n). (
    rw (history-commit_row rv v r ts row_id) (touched (r == row_id) _ ts read_ts seen late s),
    rw (active-commit_row rv v r ts row_id) (freed (r == row_id) _ reader n),
  );
  rollback = λ rv v r (s, n). (
    rw (history-rollback_row rv v r row_id) s,
    rw (active-rollback_row rv v r row_id) (freed (r == row_id) _ reader n),
  );
  purge = λ rv v min no p. absurd no;
}

shown :
    (a : Option ℕ) (h : Option CommittedVersion) (reader read_ts : ℕ) (seen : Bool)
    → ShownAs h read_ts seen
    → NotHeldBy a reader
    → visible a h reader read_ts ≡ seen
unfolding visible
shown a none reader read_ts seen s n = absurd s
shown none (some e) reader read_ts seen s n = s
shown (some t) (some e) reader read_ts seen s n = ground arith

-- A snapshot is stable: a row with a commit history stays visible, or invisible, to a reader that
-- does not write it, while other transactions write, commit later than the snapshot, and roll back.
pub snapshot_stable :
    (rv : RowVersion) (ops : List Op) (row_id reader read_ts : ℕ) (e : CommittedVersion)
    → IsValid rv
    → history rv row_id ≡ some e
    → NotHeldBy (active rv row_id) reader
    → All (Allowed (others reader read_ts)) ops
    → is_visible (run rv ops) row_id reader read_ts ≡ leb e.first_ts read_ts
unfolding is_visible
snapshot_stable rv ops row_id reader read_ts e v h n a =
    let (s, n') =
      (run_keeps (others reader read_ts) _
        (Stable-Kept row_id reader read_ts (leb e.first_ts read_ts)) rv v ops a (rw h refl, n)).1 in
    shown (active (run rv ops) row_id) (history (run rv ops) row_id) reader read_ts _ s n'

-- But the first commit that a row with no history gets (its history is lost in a restart, and in a
-- vacuum) takes it away from every older snapshot that could see it.
pub first_commit_hides :
    (rv : RowVersion) (row_id reader read_ts ts : ℕ)
    → IsValid rv
    → active rv row_id ≡ none
    → history rv row_id ≡ none
    → read_ts < ts
    → (is_visible rv row_id reader read_ts ≡ true)
      × (is_visible (commit_row rv row_id ts) row_id reader read_ts ≡ false)
unfolding is_visible visible touch
first_commit_hides rv row_id reader read_ts ts v a h late =
    ground
      (arith, active-commit_row rv v row_id ts row_id, history-commit_row rv v row_id ts row_id)
