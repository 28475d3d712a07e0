-- ===== src/Horizon/Verify.antt =====
-- src/horizon.rs, `verify`: exactly which payments count towards an intent, and their verdict.
use stellar_gate.Prelude.{
  ℕ, ◌+◌, ◌≡◌, inl, inr, Bool, true, Option, none, some, ◌==◌, ==_iff, ap, list_eq, option_eq,
  nat_eq, ltb, ltb→lt, Bool-cases, subst, ltb_false→le,
}
use stellar_gate.Prelude.Int.{i64_max}
use stellar_gate.Text.{Text, codes}
use stellar_gate.Prelude.Partial.{ensure-eq_some, >>=-eq_some}
use stellar_gate.Money.{parse_stroops, stroops_to_string}
use stellar_gate.Db.{Payment}
use stellar_gate.Horizon.Matched.{
  IsSameAsset, IsJudged, is_wrapped, equal, verdict-IsJudged, asset_matches-IsSameAsset,
  IsSameAsset-asset_matches,
}
use stellar_gate.Horizon.{
  HorizonPayment, TransactionRef, Verdict, memo, is_true, is_successful, asset_matches, add_i64,
  verify, verdict, or_empty, compare_i64,
}

-- The payment moved `paid` stroops of the intent's asset to its address under its text memo, in a
-- transaction that succeeded, and the intent asks for `expected` stroops.
pub record Pays (payment : Payment) (hp : HorizonPayment) (paid expected : ℕ) : Type 0 where
  pub transaction : TransactionRef
  pub joined : hp.transaction ≡ some transaction
  pub is_payment : hp.kind ≡ codes "payment"
  pub to_gateway : hp.to ≡ some payment.destination_address
  pub text_memo : transaction.memo_type ≡ some (codes "text")
  pub same_memo : transaction.memo ≡ some payment.memo
  pub succeeded : transaction.successful ≡ some true
  pub same_asset : IsSameAsset payment hp
  pub raw_amount : Text
  pub has_amount : hp.amount ≡ some raw_amount
  pub amount_paid : parse_stroops raw_amount ≡ some paid
  pub amount_expected : parse_stroops payment.amount ≡ some expected

abbrev pub judge : HorizonPayment → ℕ → ℕ → ℕ → Verdict
judge hp already paid expected =
    verdict (compare_i64 (add_i64 already paid) expected) (or_empty hp.transaction_hash)
      (stroops_to_string (add_i64 already paid))

judge-IsJudged :
    (hp : HorizonPayment) (already paid expected : ℕ)
    → IsJudged
        (or_empty hp.transaction_hash)
        (already + paid)
        expected
        (judge hp already paid expected)
unfolding add_i64
judge-IsJudged hp already paid expected = elim (Bool-cases (ltb i64_max (already + paid))) [
  | inl e ↦ rw e (is_wrapped (ltb→lt i64_max (already + paid) e))
  | inr e ↦ rw e (
      verdict-IsJudged (or_empty hp.transaction_hash) (already + paid) expected
        (ltb_false→le i64_max (already + paid) e))
]

memo-eq_some :
    (hp : HorizonPayment) (t : TransactionRef) (m : Text)
    → hp.transaction ≡ some t
    → t.memo_type ≡ some (codes "text")
    → t.memo ≡ some m
    → memo hp ≡ some m
unfolding memo
memo-eq_some hp t m e type same = rw e (rw (equal t.memo_type (some (codes "text")) type) same)

is_successful-true :
    (hp : HorizonPayment) (t : TransactionRef)
    → hp.transaction ≡ some t
    → t.successful ≡ some true
    → is_successful hp ≡ true
unfolding is_successful
is_successful-true hp t e h = rw e (rw h)

pub memo-inversion :
    (hp : HorizonPayment) (m : Text)
    → memo hp ≡ some m
    → (t : TransactionRef) × (hp.transaction ≡ some t)
      × (t.memo_type ≡ some (codes "text"))
      × (t.memo ≡ some m)
unfolding memo
memo-inversion hp m h =
    let a = >>=-eq_some hp.transaction _ h in
    let b = ensure-eq_some (a.0.memo_type == some (codes "text")) _ a.2 in
    (a.0, a.1, (==_iff _ _).0 b.0, b.1)

is_true-inversion : (b : Option Bool) → is_true b ≡ true → b ≡ some true
is_true-inversion none h = cc
is_true-inversion (some b) h = ap some h

successful-inversion :
    (hp : HorizonPayment) (t : TransactionRef)
    → hp.transaction ≡ some t
    → is_successful hp ≡ true
    → t.successful ≡ some true
unfolding is_successful
successful-inversion hp t e h = is_true-inversion t.successful (rw e at h)

-- A payment that meets every condition has a verdict, the one of the cumulative total.
pub verify-Pays :
    (payment : Payment) (hp : HorizonPayment) (already paid expected : ℕ)
    → Pays payment hp paid expected
    → verify payment hp already ≡ some (judge hp already paid expected)
unfolding verify
verify-Pays payment hp already paid expected p = rw (
  equal hp.kind (codes "payment") p.is_payment,
  equal hp.to (some payment.destination_address) p.to_gateway,
  equal (memo hp) (some payment.memo)
      (memo-eq_some hp p.transaction payment.memo p.joined p.text_memo p.same_memo),
  is_successful-true hp p.transaction p.joined p.succeeded,
  IsSameAsset-asset_matches payment hp p.same_asset,
  p.has_amount,
  p.amount_paid,
  p.amount_expected,
)

-- Only a payment that meets every condition has a verdict: it is of kind `payment`, goes to the
-- intent's address under its text memo in a transaction that succeeded, and moves the intent's
-- asset, which is lumens without an issuer and the intent's code and issuer otherwise. The verdict
-- is completed, overpaid or underpaid as the cumulative total is equal to, above or below the
-- expected amount, and underpaid for a total past `i64::MAX`.
pub verify-eq_some :
    (payment : Payment) (hp : HorizonPayment) (already : ℕ) (v : Verdict)
    → verify payment hp already ≡ some v
    → (paid : ℕ) × (expected : ℕ) × Pays payment hp paid expected
      × (v ≡ judge hp already paid expected)
      × IsJudged (or_empty hp.transaction_hash) (already + paid) expected v
unfolding verify
verify-eq_some payment hp already v h =
    let a = ensure-eq_some (hp.kind == codes "payment") _ h in
    let b = ensure-eq_some (hp.to == some payment.destination_address) _ a.1 in
    let c = ensure-eq_some (memo hp == some payment.memo) _ b.1 in
    let d = ensure-eq_some (is_successful hp) _ c.1 in
    let e = ensure-eq_some (asset_matches payment hp) _ d.1 in
    let f = >>=-eq_some hp.amount _ e.1 in
    let g = >>=-eq_some (parse_stroops f.0) _ f.2 in
    let k = >>=-eq_some (parse_stroops payment.amount) _ g.2 in
    let m = memo-inversion hp payment.memo ((==_iff _ _).0 c.0) in
    (
      g.0,
      k.0,
      record {
        transaction = m.0;
        joined = m.1;
        is_payment = (==_iff _ _).0 a.0;
        to_gateway = (==_iff _ _).0 b.0;
        text_memo = m.2;
        same_memo = m.3;
        succeeded = successful-inversion hp m.0 m.1 d.0;
        same_asset = asset_matches-IsSameAsset payment hp e.0;
        raw_amount = f.0;
        has_amount = f.1;
        amount_paid = g.1;
        amount_expected = k.1;
      },
      cc (k.2),
      subst (IsJudged (or_empty hp.transaction_hash) (already + g.0) k.0) (cc (k.2))
          (judge-IsJudged hp already g.0 k.0),
    )
