-- ===== src/Retention.antt =====
-- src/retention.rs: one pruning cycle, and the loop over the batches of one table.
pub mod Drained
use stellar_gate.Prelude.{
  ℕ, zero, suc, ◌+◌, Bool, true, false, ◌||◌, Option, none, some, leb, ltb, if◌then◌else◌,
}
use stellar_gate.Prelude.Partial.{◌>>=◌}
use stellar_gate.Db.{Db}
use stellar_gate.Db.Retention.{
  prune_batch, prune_webhook_deliveries, compact_stale_failed_deliveries, prune_idempotency_keys,
}

abbrev pub max_per_cycle : ℕ
max_per_cycle = 50000

-- The loop along fuel; `none` is fuel that has run out. `Drained` shows that 100 rounds are enough.
unfoldable pub drain {ℓ} : {S : Type ℓ} → ℕ → ℕ → (S → ℕ × S) → ℕ → S → Option (ℕ × S)
drain zero cap batch total s = none
drain (suc fuel) cap batch total s =
    let (n, s') = batch s in
    let rest = drain fuel cap batch (total + n) s' in
    if ltb n prune_batch || leb cap (total + n) then some (total + n, s') else rest

abbrev pub rounds : ℕ
rounds = 100

abbrev pub drain_cycle : (Db → ℕ × Db) → Db → Option (ℕ × Db)
drain_cycle batch db = drain rounds max_per_cycle batch 0 db

-- The deliveries removed, and the tables behind both passes over them.
abbrev pub prune_deliveries : ℕ → ℕ → Db → Option (ℕ × Db)
prune_deliveries now days db = do
  removed ← drain_cycle (prune_webhook_deliveries now days) db
  compacted ← drain_cycle (compact_stale_failed_deliveries now days) removed.1
  some (removed.0, compacted.1)

-- A retention of 0 days switches a pass off.
unfoldable pub prune_once : ℕ → ℕ → ℕ → Db → Option ((ℕ × ℕ) × Db)
unfolding drain
prune_once now delivery_days idempotency_days db = do
  deliveries ← (if ltb 0 delivery_days then prune_deliveries now delivery_days db else some (0, db))
  keys ←
      (if ltb 0 idempotency_days
        then drain_cycle (prune_idempotency_keys now idempotency_days) deliveries.1
        else some (0, deliveries.1))
  some ((deliveries.0, keys.0), keys.1)
