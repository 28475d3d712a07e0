-- ===== src/Startup/Actions.antt =====
-- src/expiry.rs, src/retention.rs and src/webhook.rs: the timer loops as runs of the gateway.
use stellar_gate.Prelude.{ℕ, ◌≡◌, refl, ap, ◌∙◌, Option, none, some, List, [], ◌∷◌, map}
use stellar_gate.Prelude.Int.{ℤ}
use stellar_gate.Db.{Db, WebhookDelivery}
use stellar_gate.Webhook.{Env}
use stellar_gate.Retention.{prune_once}
use stellar_gate.Gateway.Run.{
  Gateway, Action, sweep, redrive, prune, pruned, with_db, with_outbound, Parts, act, run,
}
use stellar_gate.Startup.{Turn, run_sweeper, redrive_turns, retention_turns, days_of, behind}

pruned-behind :
    (g : Gateway) (x : Option ((ℕ × ℕ) × Db)) → pruned g x ≡ with_db g (behind g.outbound.db x)
pruned-behind g none = refl
pruned-behind g (some r) = refl

module _ {N : Type 0} (parts : Parts N) where
  abbrev sweep_of : ℕ → Turn (ℕ → Env) → Action
  sweep_of expiry_batch_size t = sweep t.env expiry_batch_size t.now

  pub run-run_sweeper :
      (expiry_batch_size : ℕ) (turns : List (Turn (ℕ → Env))) (g : Gateway)
      → run parts (map (sweep_of expiry_batch_size) turns) g
        ≡ with_outbound g
            (run_sweeper parts.libs parts.webhook_config expiry_batch_size turns g.outbound).1
  unfolding run act run_sweeper
  run-run_sweeper expiry_batch_size [] g = refl
  run-run_sweeper expiry_batch_size (t ∷ turns) g =
      run-run_sweeper expiry_batch_size turns (act parts (sweep_of expiry_batch_size t) g)

  abbrev redrive_of : Turn ((WebhookDelivery → Env) × (WebhookDelivery → ℕ)) → Action
  redrive_of t = redrive t.env.0 t.env.1 t.now

  pub run-redrive_turns :
      (turns : List (Turn ((WebhookDelivery → Env) × (WebhookDelivery → ℕ)))) (g : Gateway)
      → run parts (map redrive_of turns) g
        ≡ with_outbound g (redrive_turns parts.libs parts.webhook_config turns g.outbound)
  unfolding run act redrive_turns
  run-redrive_turns [] g = refl
  run-redrive_turns (t ∷ turns) g = run-redrive_turns turns (act parts (redrive_of t) g)

  abbrev prune_of : ℤ → ℤ → ℕ → Action
  prune_of delivery_days idempotency_days now =
      prune now (days_of delivery_days) (days_of idempotency_days)

  pub run-retention_turns :
      (delivery_days idempotency_days : ℤ) (turns : List ℕ) (g : Gateway)
      → run parts (map (prune_of delivery_days idempotency_days) turns) g
        ≡ with_db g (retention_turns delivery_days idempotency_days turns g.outbound.db)
  unfolding run act retention_turns
  run-retention_turns delivery_days idempotency_days [] g = refl
  run-retention_turns delivery_days idempotency_days (now ∷ turns) g =
      let x = prune_once now (days_of delivery_days) (days_of idempotency_days) g.outbound.db in
      ap (run parts (map (prune_of delivery_days idempotency_days) turns)) (pruned-behind g x)
      ∙ run-retention_turns delivery_days idempotency_days turns
          (with_db g (behind g.outbound.db x))
