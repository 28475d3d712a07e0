-- ===== src/Gateway/Lifecycle.antt =====
-- The life of one payment id: nothing yet, then an intent that is pending, and in the end one that
-- is completed or expired, beside the sum of what has been credited to it.
use stellar_gate.Prelude.{
  ℕ, ◌+◌, ◌≤◌, ◌≡◌, refl, sym, subst, ◌∙◌, Bool, true, false, Option, none, some, arith,
}
use stellar_gate.Prelude.Int.{pos}
use stellar_gate.Text.{Text}
use stellar_gate.Money.{stroops_to_string}
use stellar_gate.Db.{Db, Payment, Status, is_watchable}
use stellar_gate.Db.Payments.{get_payment, ledger_sum, settled_row, expired_row}
use stellar_gate.Horizon.{settlement, stroops_or_zero}

-- The intent, and the sum of the ledger for its id.
abbrev pub Account : Type 0
Account = Option Payment × ℕ

abbrev pub account : Db → Text → Account
account db id = (get_payment db id, ledger_sum id db.processed_transactions)

-- The amount that an intent asks for.
abbrev pub expected : Payment → ℕ
expected p = stroops_or_zero (some p.amount)

-- The intent, settled at a total.
abbrev pub settled_at : ℕ → Text → ℕ → Payment → Payment
settled_at total tx_hash now p =
    settled_row (settlement total (expected p)).status tx_hash (stroops_to_string (pos total)) now p

pub data Step (a b : Account) : Type 0 where
  -- A request makes the intent.
  opens : (p : Payment) → p.status ≡ Status.pending → a.0 ≡ none → b ≡ (some p, a.1) → Step a b
  -- A transaction is recorded, for an intent that is open.
  credits :
      (p : Payment) (amount : ℕ)
      → a.0 ≡ some p
      → is_watchable p.status ≡ true
      → b ≡ (some p, a.1 + amount)
      → Step a b
  -- The intent is settled at what the ledger has for it.
  settles :
      (p : Payment) (tx_hash : Text) (now : ℕ)
      → a.0 ≡ some p
      → is_watchable p.status ≡ true
      → b ≡ (some (settled_at a.1 tx_hash now p), a.1)
      → Step a b
  -- The intent's time is up.
  expires :
      (p : Payment) (now : ℕ)
      → a.0 ≡ some p
      → is_watchable p.status ≡ true
      → p.expires_at ≤ now
      → b ≡ (some (expired_row now p), a.1)
      → Step a b

pub data Reach (a : Account) : Account → Type 0 where
  here : Reach a a
  next : {b c : Account} → Reach a b → Step b c → Reach a c

pub Reach-trans : {a b c : Account} → Reach a b → Reach b c → Reach a c
Reach-trans r here = r
Reach-trans r (next s step) = next (Reach-trans r s) step

pub Reach-eq : {a b : Account} → b ≡ a → Reach a b
Reach-eq {a} {b} e = rw e here

-- Whether an intent that is completed has been paid in full.
abbrev is_completed : Status → Bool
is_completed Status.completed = true
is_completed _ = false

abbrev Paid : ℕ → Payment → Type 0
Paid total p = is_completed p.status ≡ true → expected p ≤ total

abbrev pub IsPaid : Account → Type 0
IsPaid (none, total) = Unit
IsPaid (some p, total) = Paid total p

settlement-paid : (total e : ℕ) → is_completed (settlement total e).status ≡ true → e ≤ total
unfolding settlement
settlement-paid total e h = ground arith

Step-IsPaid : (a b : Account) → Step a b → IsPaid a → IsPaid b
Step-IsPaid (x, n) b (opens p pending absent e) h = rw e (λ c. cc)
Step-IsPaid (x, n) b (credits p amount there watched e) h =
    rw e (λ c. omega (arith, (rw there at h) c))
Step-IsPaid (x, n) b (settles p tx_hash now there watched e) h =
    rw e (λ c. settlement-paid n (expected p) c)
Step-IsPaid (x, n) b (expires p now there watched due e) h = rw e (λ c. cc)

pub Reach-IsPaid : {a b : Account} → Reach a b → IsPaid a → IsPaid b
Reach-IsPaid here h = h
Reach-IsPaid (next {b} {c} r step) h = Step-IsPaid b c step (Reach-IsPaid r h)

-- What the merchant and the payer agreed on.
abbrev pub HasSameTerms : Payment → Payment → Type 0
HasSameTerms p q =
    (q.id ≡ p.id)
    × (q.merchant_id ≡ p.merchant_id)
    × (q.destination_address ≡ p.destination_address)
    × (q.memo ≡ p.memo)
    × (q.amount ≡ p.amount)
    × (q.asset ≡ p.asset)
    × (q.asset_issuer ≡ p.asset_issuer)
    × (q.webhook_url ≡ p.webhook_url)
    × (q.created_at ≡ p.created_at)
    × (q.expires_at ≡ p.expires_at)

-- The intent `p`, once it is there with a total of `n`, in a later account.
pub record IsKept (p : Payment) (n : ℕ) (b : Account) : Type 0 where
  pub intent : Payment
  pub there : b.0 ≡ some intent
  pub terms : HasSameTerms p intent
  pub frozen : is_watchable p.status ≡ false → intent ≡ p
  pub grows : n ≤ b.1

some_injective : {p q : Payment} → some p ≡ some q → p ≡ q
some_injective e = cc

same_intent : {p q : Payment} {x : Option Payment} → x ≡ some p → x ≡ some q → q ≡ p
same_intent e f = some_injective (sym f ∙ e)

not_frozen :
    (p q r : Payment)
    → (is_watchable p.status ≡ false → q ≡ p)
    → is_watchable q.status ≡ true
    → is_watchable p.status ≡ false
    → r ≡ p
not_frozen p q r frozen watched final = let e : q ≡ p = frozen final in cc

Step-IsKept : (p : Payment) (n : ℕ) (a b : Account) → Step a b → IsKept p n a → IsKept p n b
Step-IsKept p n a b (opens q pending absent e) k = let there = k.there in cc
Step-IsKept p n a b (credits q amount there watched e) k = rw e (record {
  intent = k.intent;
  there = sym there ∙ k.there;
  terms = k.terms;
  frozen = k.frozen;
  grows = let h = k.grows in omega arith;
})
Step-IsKept p n a b (settles q tx_hash now there watched e) k =
    rw (e, same_intent k.there there)
      (record {
        intent = settled_at a.1 tx_hash now k.intent;
        there = refl;
        terms = k.terms;
        frozen =
            not_frozen p k.intent (settled_at a.1 tx_hash now k.intent) k.frozen
              (rw (same_intent k.there there) at watched);
        grows = k.grows;
      })
Step-IsKept p n a b (expires q now there watched due e) k =
    rw (e, same_intent k.there there)
      (record {
        intent = expired_row now k.intent;
        there = refl;
        terms = k.terms;
        frozen =
            not_frozen p k.intent (expired_row now k.intent) k.frozen
              (rw (same_intent k.there there) at watched);
        grows = k.grows;
      })

pub Reach-IsKept : {p : Payment} {n : ℕ} {a b : Account} → Reach a b → IsKept p n a → IsKept p n b
Reach-IsKept here k = k
Reach-IsKept {p} {n} (next {b} {c} r step) k = Step-IsKept p n b c step (Reach-IsKept r k)

-- An account of an intent that is completed, read off.
pub paid_in_full :
    (b : Account) (p : Payment)
    → IsPaid b
    → b.0 ≡ some p
    → p.status ≡ Status.completed
    → expected p ≤ b.1
paid_in_full (none, n) p h there done = cc
paid_in_full (some q, n) p h there done =
    let same : q ≡ p = some_injective there in
    subst (λ r. expected r ≤ n) same (h (rw (same, done) refl))

pub IsKept-start : (p : Payment) (a : Account) → a.0 ≡ some p → IsKept p a.1 a
IsKept-start p a there = record {
  intent = p;
  there = there;
  terms = (refl, refl, refl, refl, refl, refl, refl, refl, refl, refl);
  frozen = λ final. refl;
  grows = omega arith;
}
