-- ===== src/Gateway/Opening.antt =====
-- src/db.rs, `create_payment`, and src/api/payments.rs, `create`: an intent starts its life pending.
use stellar_gate.Prelude.{
  ℕ, ◌≡◌, refl, ap, subst, inl, inr, false, ◌||◌, Option, none, some, List, [], ◌∷◌, ◌++◌, ◌==◌,
  ==-refl, list_eq, nat_eq, leb, arith, Bool-cases, Option-cases,
}
use stellar_gate.Prelude.Int.{pos}
use stellar_gate.Money.{parse_stroops, stroops_to_string}
use stellar_gate.Db.{Db, Payment, pending, Result, ok, err, not_found}
use stellar_gate.Db.Table.{count_where}
use stellar_gate.Db.Payments.{NewPayment, new_row, get_payment, create_payment, ledger_sum}
use stellar_gate.Gateway.Lifecycle.{opens, here, next}
use stellar_gate.Gateway.Lookup.{
  lookup, HasDistinctIds, or_else, lookup-append, append-HasDistinctIds,
}
use stellar_gate.Gateway.Recorded.{append-covered}
use stellar_gate.Gateway.Statements.{Evolves, by_id}

untaken_id :
    (new : NewPayment) (rows : List Payment)
    → leb 1 (count_where (λ p. p.id == new.id || p.memo == new.memo) rows) ≡ false
    → lookup new.id rows ≡ none
unfolding count_where
untaken_id new [] h = refl
untaken_id new (r ∷ rows) h = ground (arith, untaken_id new rows)

read_back_db :
    (x : Option Payment) (db : Db) (r : Payment × Db)
    → ◌≡◌ {A = Result (Payment × Db)} (elim x [ none ↦ err not_found | some p ↦ ok (p, db) ]) (ok r)
    → db ≡ r.1
read_back_db none db r h = cc
read_back_db (some p) db r h = cc

or_else-none : (x : Option Payment) → or_else x none ≡ x
or_else-none none = refl
or_else-none (some p) = refl

module _ (db : Db) (distinct : HasDistinctIds db.payments) where
  inserted-Evolves :
      (r : Payment)
      → r.status ≡ pending
      → r.tx_hash ≡ none
      → lookup r.id db.payments ≡ none
      → Evolves db (record db { payments = db.payments ++ r ∷ [] })
  unfolding get_payment
  inserted-Evolves r status unpaid fresh =
      let db' = record db { payments = db.payments ++ r ∷ [] } in
      record {
        distinct = append-HasDistinctIds db.payments r fresh distinct;
        moves =
            by_id db db' r.id
              (next here (
                opens r status fresh
                  (rw (lookup-append r.id db.payments r, fresh, ==-refl r.id) refl)))
              (λ id e.
                rw (lookup-append id db.payments r, e)
                  (ap (λ (p : Option Payment). (p, ledger_sum id db.processed_transactions))
                    (or_else-none (lookup id db.payments))));
        recorded = λ h. append-covered db.processed_transactions db.payments r h (rw unpaid refl);
      }

  pub create_payment-Evolves :
      (new : NewPayment) (now : ℕ) (r : Payment × Db)
      → create_payment db new now ≡ ok r
      → Evolves db r.1
  unfolding create_payment
  create_payment-Evolves new now r h = elim (Option-cases (parse_stroops new.amount)) [
    | inl e ↦ let bad = rw (e, create_payment) at h in cc
    | inr (stroops, e) ↦
        elim (Bool-cases
          (leb 1 (count_where (λ p. p.id == new.id || p.memo == new.memo) db.payments))) [
            | inl taken ↦ let bad = rw taken at (rw (e, create_payment) at h) in cc
            | inr untaken ↦
                let row = new_row new (stroops_to_string (pos stroops)) now in
                let db' = record db { payments = db.payments ++ row ∷ [] } in
                let made : db' ≡ r.1 =
                  read_back_db (get_payment db' new.id) db' r
                    (rw untaken at (rw (e, create_payment) at h)) in
                subst (Evolves db) made
                  (inserted-Evolves row refl refl (untaken_id new db.payments untaken))
          ]
  ]
