-- ===== src/Gateway/Restart.antt =====
-- src/main.rs and src/db.rs: a process that is stopped and started again.
use stellar_gate.Prelude.{◌≡◌, subst, sym, List, All}
use stellar_gate.Db.Backfill.{backfill_ledger}
use stellar_gate.Gateway.Lookup.{HasDistinctIds}
use stellar_gate.Gateway.Recorded.{
  backfill_ledger-is_recorded, backfill_ledger-payments, is_recorded-backfill_ledger,
}
use stellar_gate.Gateway.Run.{Gateway, Action, with_db, Parts, run}
use stellar_gate.Gateway.Lives.{IsOrderlyAction, run-Evolves}

-- The process behind its start.
abbrev pub started : Gateway → Gateway
started g = with_db g (backfill_ledger g.outbound.db)

module _ {N : Type 0} (parts : Parts N) where
  -- From tables whose intents have distinct ids, a process that starts with the backfill of the
  -- ledger and then does any list of actions leaves tables on which the backfill of the next start
  -- does nothing: no transaction is credited again. The other requests that a request to make an
  -- intent waits for have to be orderly, as above.
  pub run-backfill_ledger :
      (actions : List Action) (g : Gateway)
      → All IsOrderlyAction actions
      → HasDistinctIds g.outbound.db.payments
      → backfill_ledger (run parts actions (started g)).outbound.db
        ≡ (run parts actions (started g)).outbound.db
  run-backfill_ledger actions g orderly distinct =
      let distinct' =
        subst HasDistinctIds (sym (backfill_ledger-payments g.outbound.db)) distinct in
      backfill_ledger-is_recorded (run parts actions (started g)).outbound.db (
        (run-Evolves parts actions (started g) orderly distinct').recorded
          (is_recorded-backfill_ledger g.outbound.db))
