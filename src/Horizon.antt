-- ===== src/Horizon.antt =====
-- src/horizon.rs: matching on-chain payments against intents, and settling them. `Horizon/Sse` has
-- the event stream and `Horizon/Poll` the poll cycle.
pub mod Matched
pub mod Verify
pub mod Reconcile
pub mod Poll
pub mod Pace
pub mod Final
pub mod Sse
use Prim.Native.Nat.{compare, Ordering}
use stellar_gate.Prelude.{
  ℕ, ◌+◌, ◌-◌, ◌^◌, Bool, true, false, ◌&&◌, not, Option, none, some, List, [], ◌∷◌, ltb, leb, ◌==◌,
  list_eq, option_eq, nat_eq, if◌then◌else◌,
}
use stellar_gate.Prelude.Int.{ℤ, pos, negsuc, i64_max}
use stellar_gate.Text.{Text, codes, eq_ignore_ascii_case}
use stellar_gate.Prelude.Partial.{◌>>=◌, ◌>>◌, ensure}
use stellar_gate.Money.{parse_stroops, stroops_to_string}
use stellar_gate.Db.{
  Db, Payment, Status, Event, payment_completed, payment_overpaid, payment_underpaid, Result, ok,
  err,
}
use stellar_gate.Db.Payments.{
  find_pending_by_memo, update_payment_status, record_processed_tx, sum_processed_stroops,
}
use stellar_gate.Webhook.{Libs, Config, Env, Outbound, dispatch}

pub record TransactionRef : Type 0 where
  pub memo : Option Text
  pub memo_type : Option Text
  pub successful : Option Bool

pub record HorizonPayment : Type 0 where
  pub kind : Text
  pub amount : Option Text
  pub asset_type : Option Text
  pub asset_code : Option Text
  pub asset_issuer : Option Text
  pub to : Option Text
  pub transaction_hash : Option Text
  pub transaction : Option TransactionRef
  pub paging_token : Option Text
  pub created_at : Option Text

pub data Verdict : Type 0 where
  completed overpaid underpaid : Text → Text → Verdict

abbrev pub or_empty : Option Text → Text
or_empty none = []
or_empty (some s) = s

-- The memo, if the transaction is there and its memo is a text one.
unfoldable pub memo : HorizonPayment → Option Text
memo hp = do t ← hp.transaction; ensure (t.memo_type == some (codes "text")); t.memo

abbrev pub is_true : Option Bool → Bool
is_true none = false
is_true (some b) = b

unfoldable pub is_successful : HorizonPayment → Bool
is_successful hp = elim hp.transaction [ none ↦ false | some t ↦ is_true t.successful ]

-- `as_deref().filter(|s| !s.is_empty())`
abbrev pub nonempty : Option Text → Option Text
nonempty none = none
nonempty (some []) = none
nonempty (some (c ∷ s)) = some (c ∷ s)

unfoldable pub asset_matches : Payment → HorizonPayment → Bool
asset_matches payment hp = elim (nonempty payment.asset_issuer) [
  | none ↦
      eq_ignore_ascii_case payment.asset (codes "XLM") && hp.asset_type == some (codes "native")
  | some issuer ↦ hp.asset_code == some payment.asset && hp.asset_issuer == some issuer
]

-- `i64` addition as a release build does it: a sum past `i64::MAX` wraps to a negative number.
unfoldable pub add_i64 : ℕ → ℕ → ℤ
add_i64 a b = if ltb i64_max (a + b) then negsuc (2 ^ 64 - (a + b) - 1) else pos (a + b)

abbrev pub verdict : Ordering → Text → Text → Verdict
verdict Ordering.eq tx_hash paid_amount = completed tx_hash paid_amount
verdict Ordering.gt tx_hash paid_amount = overpaid tx_hash paid_amount
verdict Ordering.lt tx_hash paid_amount = underpaid tx_hash paid_amount

abbrev pub compare_i64 : ℤ → ℕ → Ordering
compare_i64 (pos a) b = compare a b
compare_i64 (negsuc a) b = Ordering.lt

unfoldable pub verify : Payment → HorizonPayment → ℕ → Option Verdict
verify payment hp already_paid_stroops = do
  ensure (hp.kind == codes "payment")
  ensure (hp.to == some payment.destination_address)
  ensure (memo hp == some payment.memo)
  ensure (is_successful hp)
  ensure (asset_matches payment hp)
  raw_amount ← hp.amount
  new_paid ← parse_stroops raw_amount
  expected ← parse_stroops payment.amount
  let total_paid = add_i64 already_paid_stroops new_paid
  some (
      verdict (compare_i64 total_paid expected) (or_empty hp.transaction_hash)
        (stroops_to_string total_paid))

abbrev pub is_some {ℓ} : {A : Type ℓ} → Option A → Bool
is_some none = false
is_some (some a) = true

abbrev pub stroops_or_zero : Option Text → ℕ
stroops_or_zero none = 0
stroops_or_zero (some amount) = elim (parse_stroops amount) [ none ↦ 0 | some n ↦ n ]

-- The status, the event and the `delta` of a settlement.
pub record Outcome : Type 0 where
  pub status : Status
  pub event : Event
  pub delta : Option Text

unfoldable pub settlement : ℕ → ℕ → Outcome
settlement total expected = elim (compare total expected) [
  | Ordering.eq ↦ record { status = Status.completed; event = payment_completed; delta = none }
  | Ordering.gt ↦ record {
    status = Status.completed;
    event = payment_overpaid;
    delta = some (stroops_to_string (pos (total - expected)));
  }
  | Ordering.lt ↦ record {
    status = Status.underpaid;
    event = payment_underpaid;
    delta = some (stroops_to_string (pos (expected - total)));
  }
]

abbrev pub settled_copy : Payment → Status → Text → Text → Payment
settled_copy payment status tx_hash paid_amount = record payment {
  status = status;
  tx_hash = some tx_hash;
  paid_amount = some paid_amount;
}

-- The guarded update, and the webhook when it took effect.
unfoldable pub settle :
    Libs → Config → Env → Payment → Outcome → Text → Text → Outbound → Bool × Outbound
settle libs config env payment out tx_hash paid_amount o =
    let (updated, db) =
      update_payment_status o.db payment.id out.status tx_hash paid_amount env.now in
    let o' = record o { db = db } in
    if updated
    then (
      true,
      dispatch libs config env (settled_copy payment out.status tx_hash paid_amount) out.event
          out.delta o',
    )
    else (false, o')

abbrev pub settle_total :
    Libs → Config → Env → Payment → Text → Outbound → Result ℕ → Result Bool × Outbound
settle_total libs config env payment hp_hash o (err e) = (err e, o)
settle_total libs config env payment hp_hash o (ok total) =
    let expected = stroops_or_zero (some payment.amount) in
    let (did_settle, o') =
      settle libs config env payment (settlement total expected) hp_hash
        (stroops_to_string (pos total)) o in
    (ok did_settle, o')

-- The steps behind `record_processed_tx`: nothing more for a transaction that was there already.
abbrev pub credit :
    Libs → Config → Env → Payment → HorizonPayment → Outbound → Result Bool × Outbound
credit libs config env payment hp o =
    let (fresh, db) =
      record_processed_tx o.db payment.id (or_empty hp.transaction_hash)
        (stroops_or_zero hp.amount) in
    let o' = record o { db = db } in
    if fresh
    then settle_total libs config env payment (or_empty hp.transaction_hash) o'
        (sum_processed_stroops db payment.id)
    else (ok false, o')

abbrev pub reconcile_intent :
    Libs → Config → Env → HorizonPayment → Outbound → Payment → Result ℕ → Result Bool × Outbound
reconcile_intent libs config env hp o payment (err e) = (err e, o)
reconcile_intent libs config env hp o payment (ok already_paid_stroops) =
    if is_some (verify payment hp already_paid_stroops)
    then credit libs config env payment hp o
    else (ok false, o)

abbrev pub reconcile_found :
    Libs → Config → Env → HorizonPayment → Outbound → Option Payment → Result Bool × Outbound
reconcile_found libs config env hp o none = (ok false, o)
reconcile_found libs config env hp o (some payment) =
    reconcile_intent libs config env hp o payment (sum_processed_stroops o.db payment.id)

-- The intent with the payment's memo that can still be settled.
abbrev pub find_intent : HorizonPayment → ℕ → Db → Option Payment
find_intent hp now db = memo hp >>= λ m. find_pending_by_memo db m now

unfoldable pub reconcile_payment :
    Libs → Config → Env → HorizonPayment → Outbound → Result Bool × Outbound
reconcile_payment libs config env hp o =
    reconcile_found libs config env hp o (find_intent hp env.now o.db)
