-- ===== src/Expiry.antt =====
-- src/expiry.rs: one sweep of the overdue intents.
use stellar_gate.Prelude.{ℕ, ◌+◌, none, List, [], ◌∷◌, length}
use stellar_gate.Db.{Payment, payment_expired}
use stellar_gate.Db.Payments.{expire_overdue}
use stellar_gate.Webhook.{Libs, Config, Env, Outbound, dispatch}

-- `env` gives the outside of each delivery by its position in the sweep.
unfoldable pub notify_expired : Libs → Config → (ℕ → Env) → ℕ → List Payment → Outbound → Outbound
notify_expired libs config env i [] o = o
notify_expired libs config env i (payment ∷ expired) o =
    notify_expired libs config env (i + 1) expired
      (dispatch libs config (env i) payment payment_expired none o)

-- The number of intents that expired, and the state behind their webhooks.
unfoldable pub sweep_once : Libs → Config → (ℕ → Env) → ℕ → ℕ → Outbound → ℕ × Outbound
unfolding notify_expired
sweep_once libs config env expiry_batch_size now o =
    let (expired, db) = expire_overdue o.db expiry_batch_size now in
    (length expired, notify_expired libs config env 0 expired (record o { db = db }))
