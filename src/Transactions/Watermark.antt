-- ===== src/Transactions/Watermark.antt =====
-- crates/lightning-core/src/transaction/transaction_manager.rs, `resolved_tx_watermark`: the id that a
-- checkpoint stores in the header, below which recovery skips the log's records.
use lightning_db.Prelude.{ℕ, zero, suc, ◌-◌, ◌≤◌, ◌<◌, ◌≡◌, true, false, List, arith, contains}
use lightning_db.Transactions.{TransactionManager}
use lightning_db.Transactions.Queries.{resolved_tx_watermark, watermark_from}

watermark_from-le : (active : List ℕ) (w : ℕ) → watermark_from active w ≤ w
unfolding watermark_from
watermark_from-le active zero = ground arith
watermark_from-le active (suc w) = ground (arith, watermark_from-le active w)

watermark_from-resolved :
    (active : List ℕ) (w : ℕ)
    → contains 0 active ≡ false
    → contains (watermark_from active w) active ≡ false
unfolding watermark_from
watermark_from-resolved active zero z = ground (arith, z)
watermark_from-resolved active (suc w) z = ground (arith, watermark_from-resolved active w z)

watermark_from-above :
    (active : List ℕ) (w id : ℕ)
    → id ≤ w
    → contains id active ≡ false
    → id ≤ watermark_from active w
unfolding watermark_from
watermark_from-above active zero id le c = ground arith
watermark_from-above active (suc w) id le c = ground (arith, watermark_from-above active w id)

-- Where id 0 is not in use, the watermark is the largest id below the next one that is not active:
-- it was handed out, it is not active, and no other such id is above it.
pub watermark_largest :
    (m : TransactionManager)
    → 1 < m.next_tx_id
    → contains 0 m.active_tx_ids ≡ false
    → (resolved_tx_watermark m < m.next_tx_id)
      × (contains (resolved_tx_watermark m) m.active_tx_ids ≡ false)
      × ((id : ℕ)
          → id < m.next_tx_id
          → contains id m.active_tx_ids ≡ false
          → id ≤ resolved_tx_watermark m)
unfolding resolved_tx_watermark
watermark_largest m h z = ground (
  arith,
  watermark_from-le m.active_tx_ids (m.next_tx_id - 1),
  watermark_from-resolved m.active_tx_ids (m.next_tx_id - 1) z,
  λ (id : ℕ). watermark_from-above m.active_tx_ids (m.next_tx_id - 1) id,
)

-- So an active transaction is at or below the watermark as soon as a later id is not active, although
-- it can still commit after the checkpoint that stores the watermark.
pub watermark_covers_active :
    (m : TransactionManager) (active_id later_id : ℕ)
    → contains active_id m.active_tx_ids ≡ true
    → active_id < later_id
    → later_id < m.next_tx_id
    → contains later_id m.active_tx_ids ≡ false
    → active_id < resolved_tx_watermark m
unfolding resolved_tx_watermark
watermark_covers_active m a b act lt below res =
    ground (arith, watermark_from-above m.active_tx_ids (m.next_tx_id - 1) b)
