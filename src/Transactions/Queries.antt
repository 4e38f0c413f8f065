-- ===== src/Transactions/Queries.antt =====
-- crates/lightning-core/src/transaction/transaction_manager.rs: what the checkpoint, the vacuum and
-- recovery ask of the manager.
use lightning_db.Prelude.{
  ℕ, zero, suc, ◌+◌, ◌-◌, min, max, Bool, true, false, not, ◌||◌, Option, none, some, List, [], ◌∷◌,
  ltb, leb, ◌==◌, if◌then◌else◌, contains,
}
use lightning_db.Prelude.HashMap.{HashMap}
use lightning_db.Transactions.{TransactionManager, or_else}

abbrev any_other : ℕ → List ℕ → Bool
any_other except [] = false
any_other except (id ∷ ids) = not (id == except) || any_other except ids

abbrev pub sum_values : HashMap ℕ → ℕ
sum_values [] = 0
sum_values ((ts, count) ∷ m) = count + sum_values m

unfoldable pub has_other_active : TransactionManager → ℕ → Bool
has_other_active m except_tx_id =
    if any_other except_tx_id m.active_tx_ids then true else ltb 1 (sum_values m.active_read_ts)

abbrev pub min_key : HashMap ℕ → Option ℕ
min_key [] = none
min_key ((ts, count) ∷ m) = some (elim (min_key m) [ none ↦ ts | some k ↦ min ts k ])

unfoldable pub get_min_active_read_ts : TransactionManager → ℕ
get_min_active_read_ts m = or_else (min_key m.active_read_ts) m.current_ts

unfoldable pub restore_counters : TransactionManager → ℕ → ℕ → TransactionManager
restore_counters m next_tx_id current_ts = record m {
  next_tx_id = max m.next_tx_id (max next_tx_id 1);
  current_ts = max m.current_ts (max current_ts 1);
}

-- The loop of `resolved_tx_watermark`, down from `w`.
unfoldable pub watermark_from : List ℕ → ℕ → ℕ
watermark_from active zero = if not (contains 0 active) then 0 else 0
watermark_from active (suc w) =
    let rest = watermark_from active w in if not (contains (suc w) active) then suc w else rest

unfoldable pub resolved_tx_watermark : TransactionManager → ℕ
unfolding watermark_from
resolved_tx_watermark m =
    if leb m.next_tx_id 1 then 0 else watermark_from m.active_tx_ids (m.next_tx_id - 1)
