-- ===== src/Gateway/Expiries.antt =====
-- src/db.rs, `expire_overdue`: the sweep expires overdue intents only.
use stellar_gate.Prelude.{
  ℕ, zero, suc, ◌≡◌, refl, sym, ap, subst, ◌∙◌, inl, inr, Bool, true, none, some, List, [], ◌∷◌,
  ◌==◌, ==_iff, ==-refl, list_eq, nat_eq, filterb, take, leb, leb→le, All, arith, Bool-cases,
  Option-cases,
}
use stellar_gate.Text.{Text}
use stellar_gate.Db.{Db, Payment}
use stellar_gate.Db.Table.{count_where, order_by, insert_by}
use stellar_gate.Db.Payments.{
  get_payment, is_overdue, overdue_ids, has_id, expired_row, expire_overdue,
}
use stellar_gate.Gateway.Lifecycle.{expires, here, next, Reach-eq}
use stellar_gate.Gateway.Lookup.{
  lookup, HasDistinctIds, lookup-id, lookup-update_where, update_where-HasDistinctIds,
}
use stellar_gate.Gateway.Recorded.{update_where-covered}
use stellar_gate.Gateway.Statements.{Evolves}

module _ {A : Type 0} (P : A → Type 0) where
  All-filterb-test :
      (test : A → Bool) (rows : List A)
      → All P rows
      → All (λ r. P r × (test r ≡ true)) (filterb test rows)
  All-filterb-test test [] h = tt
  All-filterb-test test (r ∷ rows) h = elim (Bool-cases (test r)) [
    | inl e ↦ rw e ((h.0, e), All-filterb-test test rows h.1)
    | inr e ↦ rw e (All-filterb-test test rows h.1)
  ]

  All-take : (n : ℕ) (rows : List A) → All P rows → All P (take n rows)
  All-take zero rows h = tt
  All-take (suc n) [] h = tt
  All-take (suc n) (r ∷ rows) h = (h.0, All-take n rows h.1)

  All-insert_by :
      (key : A → ℕ) (r : A) (rows : List A) → P r → All P rows → All P (insert_by key r rows)
  unfolding insert_by
  All-insert_by key r [] h hs = (h, tt)
  All-insert_by key r (s ∷ rows) h hs = elim (Bool-cases (leb (key r) (key s))) [
    | inl e ↦ rw e (h, hs)
    | inr e ↦ rw e (hs.0, All-insert_by key r rows h hs.1)
  ]

  All-order_by : (key : A → ℕ) (rows : List A) → All P rows → All P (order_by key rows)
  unfolding order_by
  All-order_by key [] h = tt
  All-order_by key (r ∷ rows) h =
      All-insert_by key r (order_by key rows) h.0 (All-order_by key rows h.1)

-- A row that is read by its own id.
abbrev IsRead : List Payment → Payment → Type 0
IsRead rows s = lookup s.id rows ≡ some s

IsRead-later :
    (r s : Payment) (rows : List Payment)
    → lookup r.id rows ≡ none
    → IsRead rows s
    → IsRead (r ∷ rows) s
IsRead-later r s rows fresh h = ground (arith, ==_iff r.id s.id)

All-IsRead-later :
    (r : Payment) (rows later : List Payment)
    → lookup r.id rows ≡ none
    → All (IsRead rows) later
    → All (IsRead (r ∷ rows)) later
All-IsRead-later r rows [] fresh h = tt
All-IsRead-later r rows (s ∷ later) fresh h =
    (IsRead-later r s rows fresh h.0, All-IsRead-later r rows later fresh h.1)

All-IsRead : (rows : List Payment) → HasDistinctIds rows → All (IsRead rows) rows
All-IsRead [] h = tt
All-IsRead (r ∷ rows) h =
    (ground (arith, ==-refl r.id), All-IsRead-later r rows rows h.0 (All-IsRead rows h.1))

-- One of the rows has the id of `q`.
has_id-All :
    (P : Payment → Type 0) (rows : List Payment) (q : Payment)
    → All P rows
    → has_id rows q ≡ true
    → (s : Payment) × (s.id ≡ q.id) × P s
unfolding count_where
has_id-All P [] q hs h = cc
has_id-All P (s ∷ rows) q hs h = elim (Bool-cases (s.id == q.id)) [
  | inl e ↦ (s, (==_iff s.id q.id).0 e, hs.0)
  | inr e ↦ has_id-All P rows q hs.1 (ground (arith, e, h))
]

module _ (db : Db) (distinct : HasDistinctIds db.payments) (batch now : ℕ) where
  abbrev IsSwept : Payment → Type 0
  IsSwept s = IsRead db.payments s × (is_overdue now s ≡ true)

  IsSwept-All : All IsSwept (overdue_ids db batch now)
  unfolding overdue_ids
  IsSwept-All =
      All-take IsSwept batch (order_by (λ p. p.created_at) (filterb (is_overdue now) db.payments)) (
        All-order_by IsSwept (λ p. p.created_at) (filterb (is_overdue now) db.payments)
          (All-filterb-test (IsRead db.payments) (is_overdue now) db.payments
            (All-IsRead db.payments distinct)))

  -- The row that an id reads as is overdue, if the sweep selects it.
  swept-overdue :
      (id : Text) (q : Payment)
      → lookup id db.payments ≡ some q
      → has_id (overdue_ids db batch now) q ≡ true
      → is_overdue now q ≡ true
  swept-overdue id q there h =
      let (s, same, (read, overdue)) =
        has_id-All IsSwept (overdue_ids db batch now) q IsSwept-All h in
      let e : some s ≡ some q =
        sym read
        ∙ ap (λ k. lookup k db.payments) (same ∙ lookup-id id db.payments q there)
        ∙ there in
      let f : s ≡ q = cc in subst (λ r. is_overdue now r ≡ true) f overdue

  pub expire_overdue-Evolves : Evolves db (expire_overdue db batch now).1
  unfolding expire_overdue get_payment
  expire_overdue-Evolves =
      let swept = overdue_ids db batch now in
      let read = lookup-update_where (has_id swept) (expired_row now) (λ q. refl) in
      record {
        distinct =
            update_where-HasDistinctIds (has_id swept) (expired_row now) (λ q. refl) db.payments
              distinct;
        moves = λ id. elim (Option-cases (lookup id db.payments)) [
          | inl none_there ↦ Reach-eq (rw (read id db.payments, none_there) refl)
          | inr (q, there) ↦ elim (Bool-cases (has_id swept q)) [
            | inr e ↦ Reach-eq (rw (read id db.payments, there, e) refl)
            | inl e ↦
                let overdue = swept-overdue id q there e in
                next here (
                  expires q now there (ground (arith, overdue))
                    (leb→le q.expires_at now (ground (arith, overdue)))
                    (rw (read id db.payments, there, e) refl))
          ]
        ];
        recorded =
            update_where-covered db.processed_transactions (has_id swept) (expired_row now)
              (λ q here covered. covered) db.payments;
      }
