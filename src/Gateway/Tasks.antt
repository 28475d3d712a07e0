-- ===== src/Gateway/Tasks.antt =====
-- src/horizon.rs and src/expiry.rs: a poll cycle, a connection of the stream and a sweep follow the
-- life of every intent.
use stellar_gate.Prelude.{
  ℕ, zero, suc, ◌+◌, ◌≡◌, refl, subst, inl, inr, Option, none, some, List, [], ◌∷◌, ltb, list_eq,
  option_eq, nat_eq, length, Bool-cases, Option-cases,
}
use stellar_gate.Text.{Text}
use stellar_gate.Db.{Db, Payment, payment_expired}
use stellar_gate.Db.Payments.{expire_overdue}
use stellar_gate.Db.State.{get_state, set_state}
use stellar_gate.Health.{TaskHealth}
use stellar_gate.Webhook.{Libs, Config, Env, Outbound, dispatch}
use stellar_gate.Horizon.{HorizonPayment}
use stellar_gate.Horizon.Poll.{
  HorizonApi, Progress, Cycle, finished, failed, poll_record, poll_page, poll_pages, poll_once,
  checkpoint, starting_cursor, cycle_from, heartbeat, page_limit, payment_cursor_key,
  max_pages_per_cycle, first_token, baseline, baselined,
}
use stellar_gate.Expiry.{notify_expired, sweep_once}
use stellar_gate.Gateway.Lookup.{HasDistinctIds}
use stellar_gate.Gateway.Statements.{Evolves, Evolves-same, Evolves-trans}
use stellar_gate.Gateway.Expiries.{expire_overdue-Evolves}
use stellar_gate.Gateway.Settling.{dispatch-Evolves, reconcile_payment-Evolves}

abbrev pub cycle_outbound : Cycle → Outbound
cycle_outbound (finished n o) = o
cycle_outbound (failed o) = o

set_state-Evolves :
    (db : Db) (key value : Text) (now : ℕ)
    → HasDistinctIds db.payments
    → Evolves db (set_state db key value now)
unfolding set_state
set_state-Evolves db key value now distinct = Evolves-same db _ distinct refl refl

baseline-Evolves :
    (now : ℕ) (o : Outbound) (token : Option Text)
    → HasDistinctIds o.db.payments
    → Evolves o.db (baseline now o token).1.db
baseline-Evolves now o none distinct = Evolves-same o.db o.db distinct refl refl
baseline-Evolves now o (some token) distinct =
    set_state-Evolves o.db payment_cursor_key token now distinct

baselined-Evolves :
    (now : ℕ) (o : Outbound) (latest : Option (List HorizonPayment)) (s : Text × Outbound)
    → HasDistinctIds o.db.payments
    → baselined now o latest ≡ some s
    → Evolves o.db s.1.db
baselined-Evolves now o none s distinct h = cc
baselined-Evolves now o (some records) s distinct h =
    let same : baseline now o (first_token records) ≡ s = cc in
    subst (λ (r : Text × Outbound). Evolves o.db r.1.db) same
      (baseline-Evolves now o (first_token records) distinct)

starting_cursor-Evolves :
    (api : HorizonApi) (now : ℕ) (o : Outbound) (s : Text × Outbound)
    → HasDistinctIds o.db.payments
    → starting_cursor api now o ≡ some s
    → Evolves o.db s.1.db
unfolding starting_cursor
starting_cursor-Evolves api now o s distinct h =
    elim (Option-cases (get_state o.db payment_cursor_key)) [
      | inl e ↦ baselined-Evolves now o api.latest s distinct (rw (e, starting_cursor) at h)
      | inr (cursor, e) ↦
          let stored = rw (e, starting_cursor) at h in
          let same : o ≡ s.1 = cc in
          subst (λ (p : Outbound). Evolves o.db p.db) same
            (Evolves-same o.db o.db distinct refl refl)
    ]

heartbeat-outbound :
    (now : ℕ) (h : TaskHealth) (c : Cycle) → cycle_outbound (heartbeat now h c).0 ≡ cycle_outbound c
heartbeat-outbound now h (finished n o) = refl
heartbeat-outbound now h (failed o) = refl

module _ (libs : Libs) (config : Config) where
  poll_page-Evolves :
      (env : ℕ → Env) (page : List HorizonPayment) (p : Progress)
      → HasDistinctIds p.outbound.db.payments
      → Evolves p.outbound.db (poll_page libs config env page p).outbound.db
  unfolding poll_page poll_record
  poll_page-Evolves env [] p distinct = Evolves-same p.outbound.db p.outbound.db distinct refl refl
  poll_page-Evolves env (hp ∷ page) p distinct =
      let first = reconcile_payment-Evolves libs config (env p.seen) hp p.outbound distinct in
      let p' = poll_record libs config env hp p in
      Evolves-trans p.outbound.db p'.outbound.db _ first
        (poll_page-Evolves env page p' first.distinct)

  poll_pages-Evolves :
      (api : HorizonApi) (env : ℕ → Env) (now left : ℕ) (p : Progress)
      → HasDistinctIds p.outbound.db.payments
      → Evolves p.outbound.db (cycle_outbound (poll_pages api libs config env now left p)).db
  unfolding poll_pages
  poll_pages-Evolves api env now zero p distinct =
      Evolves-same p.outbound.db p.outbound.db distinct refl refl
  poll_pages-Evolves api env now (suc left) p distinct =
      elim (Option-cases (api.fetch_recent_payments p.cursor)) [
        | inl e ↦ rw (e, poll_pages) (Evolves-same p.outbound.db p.outbound.db distinct refl refl)
        | inr (page, e) ↦
            let read = poll_page libs config env page p in
            let first = poll_page-Evolves env page p distinct in
            let p' = checkpoint now read in
            let second =
              set_state-Evolves read.outbound.db payment_cursor_key read.cursor now
                first.distinct in
            let both = Evolves-trans p.outbound.db read.outbound.db p'.outbound.db first second in
            rw (e, poll_pages)
              (elim (Bool-cases (ltb (length page) page_limit)) [
                | inl short ↦ rw short both
                | inr full ↦ rw full (
                    Evolves-trans p.outbound.db p'.outbound.db _ both
                      (poll_pages-Evolves api env now left p' second.distinct))
              ])
      ]

  cycle_from-Evolves :
      (api : HorizonApi) (env : ℕ → Env) (now : ℕ) (o : Outbound) (start : Option (Text × Outbound))
      → HasDistinctIds o.db.payments
      → ((s : Text × Outbound) → start ≡ some s → Evolves o.db s.1.db)
      → Evolves o.db (cycle_outbound (cycle_from api libs config env now o start)).db
  cycle_from-Evolves api env now o none distinct starts = Evolves-same o.db o.db distinct refl refl
  cycle_from-Evolves api env now o (some (cursor, o')) distinct starts =
      let first = starts (cursor, o') refl in
      Evolves-trans o.db o'.db _ first (
        poll_pages-Evolves api env now max_pages_per_cycle
          (record { seen = 0; cursor = cursor; settled = 0; outbound = o' }) first.distinct)

  pub poll_once-Evolves :
      (api : HorizonApi) (env : ℕ → Env) (now : ℕ) (h : TaskHealth) (o : Outbound)
      → HasDistinctIds o.db.payments
      → Evolves o.db (cycle_outbound (poll_once api libs config env now h o).0).db
  unfolding poll_once
  poll_once-Evolves api env now h o distinct =
      rw
        (heartbeat-outbound now h
          (cycle_from api libs config env now o (starting_cursor api now o)))
        (cycle_from-Evolves api env now o (starting_cursor api now o) distinct
          (λ s. starting_cursor-Evolves api now o s distinct))

  notify_expired-Evolves :
      (env : ℕ → Env) (i : ℕ) (expired : List Payment) (o : Outbound)
      → HasDistinctIds o.db.payments
      → Evolves o.db (notify_expired libs config env i expired o).db
  unfolding notify_expired
  notify_expired-Evolves env i [] o distinct = Evolves-same o.db o.db distinct refl refl
  notify_expired-Evolves env i (p ∷ expired) o distinct =
      let first = dispatch-Evolves libs config (env i) p payment_expired none o distinct in
      let o' = dispatch libs config (env i) p payment_expired none o in
      Evolves-trans o.db o'.db _ first
        (notify_expired-Evolves env (i + 1) expired o' first.distinct)

  pub sweep_once-Evolves :
      (env : ℕ → Env) (expiry_batch_size now : ℕ) (o : Outbound)
      → HasDistinctIds o.db.payments
      → Evolves o.db (sweep_once libs config env expiry_batch_size now o).1.db
  unfolding sweep_once
  sweep_once-Evolves env expiry_batch_size now o distinct =
      let (expired, db) = expire_overdue o.db expiry_batch_size now in
      let first = expire_overdue-Evolves o.db distinct expiry_batch_size now in
      Evolves-trans o.db db _ first
        (notify_expired-Evolves env 0 expired (record o { db = db }) first.distinct)
