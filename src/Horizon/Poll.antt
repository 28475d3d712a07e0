-- ===== src/Horizon/Poll.antt =====
-- src/horizon.rs: the poll cycle, `starting_cursor` and `poll_once`, and the trustline check. The
-- requests to Horizon are parameters.
use stellar_gate.Prelude.{
  ℕ, zero, suc, ◌+◌, Bool, true, false, ◌&&◌, ◌||◌, not, Option, none, some, List, [], ◌∷◌, ltb,
  ◌==◌, list_eq, option_eq, nat_eq, length, filterb, if◌then◌else◌,
}
use stellar_gate.Text.{Text, codes}
use stellar_gate.Db.{Result, ok, err}
use stellar_gate.Db.State.{get_state, set_state}
use stellar_gate.Health.{TaskHealth, note_success}
use stellar_gate.Webhook.{Libs, Config, Env, Outbound}
use stellar_gate.Config.{AcceptedAsset}
use stellar_gate.Horizon.{HorizonPayment, reconcile_payment}

abbrev pub payment_cursor_key : Text
payment_cursor_key = codes "horizon_payment_cursor"

abbrev pub page_limit : ℕ
page_limit = 200

abbrev pub max_pages_per_cycle : ℕ
max_pages_per_cycle = 25

-- Horizon's answers: the records behind a cursor, and the last record of the account; `none` is a
-- request that fails.
pub record HorizonApi : Type 0 where
  pub fetch_recent_payments : Text → Option (List HorizonPayment)
  pub latest : Option (List HorizonPayment)

-- The cursor, how many records the cycle has seen and intents it has settled, and the state.
pub record Progress : Type 0 where
  pub seen : ℕ
  pub cursor : Text
  pub settled : ℕ
  pub outbound : Outbound

pub data Cycle : Type 0 where
  finished : ℕ → Outbound → Cycle
  failed : Outbound → Cycle

abbrev pub first_token : List HorizonPayment → Option Text
first_token [] = none
first_token (hp ∷ rest) = hp.paging_token

abbrev pub baseline : ℕ → Outbound → Option Text → Text × Outbound
baseline now o none = (codes "0", o)
baseline now o (some token) = (token, record o { db = set_state o.db payment_cursor_key token now })

abbrev pub baselined : ℕ → Outbound → Option (List HorizonPayment) → Option (Text × Outbound)
baselined now o none = none
baselined now o (some records) = some (baseline now o (first_token records))

unfoldable pub starting_cursor : HorizonApi → ℕ → Outbound → Option (Text × Outbound)
starting_cursor api now o = elim (get_state o.db payment_cursor_key) [
  | some cursor ↦ some (cursor, o)
  | none ↦ baselined now o api.latest
]

abbrev pub count_settled : Result Bool → ℕ → ℕ
count_settled (ok true) n = n + 1
count_settled (ok false) n = n
count_settled (err e) n = n

abbrev pub advance : Option Text → Text → Text
advance none cursor = cursor
advance (some token) cursor = token

-- One record: the cursor moves to it, and it is reconciled; an error is only logged. `env` gives the
-- outside of each record by its position in the cycle.
unfoldable pub poll_record : Libs → Config → (ℕ → Env) → HorizonPayment → Progress → Progress
poll_record libs config env hp p =
    let (outcome, o) = reconcile_payment libs config (env p.seen) hp p.outbound in
    record {
      seen = p.seen + 1;
      cursor = advance hp.paging_token p.cursor;
      settled = count_settled outcome p.settled;
      outbound = o;
    }

unfoldable pub poll_page : Libs → Config → (ℕ → Env) → List HorizonPayment → Progress → Progress
unfolding poll_record
poll_page libs config env [] p = p
poll_page libs config env (hp ∷ page) p =
    poll_page libs config env page (poll_record libs config env hp p)

-- The checkpoint behind a page.
abbrev pub checkpoint : ℕ → Progress → Progress
checkpoint now p = record p {
  outbound = record p.outbound { db = set_state p.outbound.db payment_cursor_key p.cursor now };
}

-- The loop over the pages, by the pages that are left of `MAX_PAGES_PER_CYCLE`.
unfoldable pub poll_pages : HorizonApi → Libs → Config → (ℕ → Env) → ℕ → ℕ → Progress → Cycle
unfolding poll_page
poll_pages api libs config env now zero p = finished p.settled p.outbound
poll_pages api libs config env now (suc left) p = elim (api.fetch_recent_payments p.cursor) [
  | none ↦ failed p.outbound
  | some page ↦
      let p' = checkpoint now (poll_page libs config env page p) in
      let rest = poll_pages api libs config env now left p' in
      if ltb (length page) page_limit then finished p'.settled p'.outbound else rest
]

abbrev pub cycle_from :
    HorizonApi → Libs → Config → (ℕ → Env) → ℕ → Outbound → Option (Text × Outbound) → Cycle
cycle_from api libs config env now o none = failed o
cycle_from api libs config env now o (some (cursor, o')) =
    poll_pages api libs config env now max_pages_per_cycle
      (record { seen = 0; cursor = cursor; settled = 0; outbound = o' })

abbrev pub heartbeat : ℕ → TaskHealth → Cycle → Cycle × TaskHealth
heartbeat now h (finished n o) = (finished n o, note_success h now)
heartbeat now h (failed o) = (failed o, h)

unfoldable pub poll_once :
    HorizonApi → Libs → Config → (ℕ → Env) → ℕ → TaskHealth → Outbound → Cycle × TaskHealth
unfolding poll_pages starting_cursor
poll_once api libs config env now h o =
    heartbeat now h (cycle_from api libs config env now o (starting_cursor api now o))

pub record AccountBalance : Type 0 where
  pub asset_code : Option Text
  pub asset_issuer : Option Text

abbrev pub holds : Text → Text → List AccountBalance → Bool
holds code issuer [] = false
holds code issuer (b ∷ balances) =
    b.asset_code == some code && b.asset_issuer == some issuer || holds code issuer balances

abbrev pub is_missing : List AccountBalance → AcceptedAsset → Bool
is_missing balances asset = elim asset.issuer [
  | none ↦ false
  | some issuer ↦ not (holds asset.code issuer balances)
]

unfoldable pub missing_trustlines : List AcceptedAsset → List AccountBalance → List AcceptedAsset
missing_trustlines accepted_assets balances = filterb (is_missing balances) accepted_assets
