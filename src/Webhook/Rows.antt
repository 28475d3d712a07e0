-- ===== src/Webhook/Rows.antt =====
-- src/db.rs: the row of a delivery, as it is left in `webhook_deliveries`.
use stellar_gate.Prelude.{
  ℕ, ◌+◌, ◌≡◌, refl, ap, ◌∙◌, ◌⊎◌, inl, inr, Bool, true, false, not, some, List, [], ◌∷◌, ◌++◌,
  ◌==◌, ==-refl, list_eq, nat_eq, leb, filterb, All, arith, Bool-cases,
}
use stellar_gate.Text.{Text}
use stellar_gate.Db.{Db, WebhookDelivery, DeliveryStatus, Event, Result, ok, err, unique_violation}
use stellar_gate.Db.Table.{update_where, count_where}
use stellar_gate.Db.Deliveries.{
  save_webhook_delivery, update_webhook_delivery, attempted, new_delivery,
}
use stellar_gate.Webhook.{Outbound, saved}

abbrev pub has_id : Text → WebhookDelivery → Bool
has_id id d = d.id == id

abbrev pub is_other : Text → WebhookDelivery → Bool
is_other id d = not (d.id == id)

-- The row says how the delivery ended, behind how many attempts and when, if it is of the id.
abbrev pub IsClosed : Text → DeliveryStatus → ℕ → ℕ → WebhookDelivery → Type 0
IsClosed id outcome count now d =
    ((d.id == id) ≡ false)
    ⊎ ((d.status ≡ outcome) × (d.attempts ≡ count) × (d.last_attempt ≡ some now))

-- There is a row of the id, it has the outcome, and the rows of other ids are as before.
pub record IsStored (id : Text) (outcome : DeliveryStatus) (count now : ℕ)
    (before after : List WebhookDelivery) : Type 0 where
  pub there : leb 1 (count_where (has_id id) after) ≡ true
  pub closed : All (IsClosed id outcome count now) after
  pub kept : filterb (is_other id) after ≡ filterb (is_other id) before

module _ (id : Text) (outcome : DeliveryStatus) (count now : ℕ) where
  abbrev written : List WebhookDelivery → List WebhookDelivery
  written rows = update_where (λ d. d.id == id) (attempted outcome count now) rows

  closed-written :
      (rows : List WebhookDelivery) → All (IsClosed id outcome count now) (written rows)
  unfolding update_where
  closed-written [] = tt
  closed-written (d ∷ rows) = elim (Bool-cases (d.id == id)) [
    | inl e ↦ rw e (inr (refl, refl, refl), closed-written rows)
    | inr e ↦ rw e (inl e, closed-written rows)
  ]

  kept-written :
      (rows : List WebhookDelivery)
      → filterb (is_other id) (written rows) ≡ filterb (is_other id) rows
  unfolding update_where
  kept-written [] = refl
  kept-written (d ∷ rows) = elim (Bool-cases (d.id == id)) [
    | inl e ↦ rw e (rw e (kept-written rows))
    | inr e ↦ rw e (rw e (ap (λ rest. d ∷ rest) (kept-written rows)))
  ]

  there-written :
      (rows : List WebhookDelivery)
      → count_where (has_id id) (written rows) ≡ count_where (has_id id) rows
  unfolding update_where count_where
  there-written [] = refl
  there-written (d ∷ rows) = elim (Bool-cases (d.id == id)) [
    | inl e ↦ rw e (rw e (ap (λ n. 1 + n) (there-written rows)))
    | inr e ↦ rw e (rw e (ap (λ n. 0 + n) (there-written rows)))
  ]

kept_end :
    (id : Text) (rows : List WebhookDelivery) (d : WebhookDelivery)
    → d.id ≡ id
    → filterb (is_other id) (rows ++ d ∷ []) ≡ filterb (is_other id) rows
kept_end id [] d e = rw (e, ==-refl id) refl
kept_end id (r ∷ rows) d e = elim (Bool-cases (r.id == id)) [
  | inl same ↦ rw same (kept_end id rows d e)
  | inr other ↦ rw other (ap (λ rest. r ∷ rest) (kept_end id rows d e))
]

there_end :
    (id : Text) (rows : List WebhookDelivery) (d : WebhookDelivery)
    → d.id ≡ id
    → leb 1 (count_where (has_id id) (rows ++ d ∷ [])) ≡ true
unfolding count_where
there_end id [] d e = rw (e, ==-refl id) refl
there_end id (r ∷ rows) d e = ground (arith, there_end id rows d e)

module _ (id payment_id url payload : Text) (event : Event) (now : ℕ) (o : Outbound) where
  abbrev after_save : List WebhookDelivery
  after_save =
      (saved (save_webhook_delivery o.db id payment_id url payload event now)
        o).db.webhook_deliveries

  abbrev saved_as : Result Db → List WebhookDelivery
  saved_as r = (saved r o).db.webhook_deliveries

  abbrev new_row : WebhookDelivery
  new_row = new_delivery id payment_id url payload event now

  save_taken :
      leb 1 (count_where (has_id id) o.db.webhook_deliveries) ≡ true
      → save_webhook_delivery o.db id payment_id url payload event now ≡ err unique_violation
  unfolding save_webhook_delivery
  save_taken e = rw e refl

  save_new :
      leb 1 (count_where (has_id id) o.db.webhook_deliveries) ≡ false
      → save_webhook_delivery o.db id payment_id url payload event now
        ≡ ok (record o.db { webhook_deliveries = o.db.webhook_deliveries ++ new_row ∷ [] })
  unfolding save_webhook_delivery
  save_new e = rw e refl

  kept-saved : filterb (is_other id) after_save ≡ filterb (is_other id) o.db.webhook_deliveries
  kept-saved = elim (Bool-cases (leb 1 (count_where (has_id id) o.db.webhook_deliveries))) [
    | inl e ↦ ap (λ r. filterb (is_other id) (saved_as r)) (save_taken e)
    | inr e ↦
        ap (λ r. filterb (is_other id) (saved_as r)) (save_new e)
        ∙ kept_end id o.db.webhook_deliveries new_row refl
  ]

  there-saved : leb 1 (count_where (has_id id) after_save) ≡ true
  there-saved = elim (Bool-cases (leb 1 (count_where (has_id id) o.db.webhook_deliveries))) [
    | inl e ↦ ap (λ r. leb 1 (count_where (has_id id) (saved_as r))) (save_taken e) ∙ e
    | inr e ↦
        ap (λ r. leb 1 (count_where (has_id id) (saved_as r))) (save_new e)
        ∙ there_end id o.db.webhook_deliveries new_row refl
  ]

  -- Saving the row and writing the outcome.
  pub update_webhook_delivery-IsStored :
      (outcome : DeliveryStatus) (count at : ℕ)
      → IsStored id outcome count at o.db.webhook_deliveries
          (update_webhook_delivery
            (saved (save_webhook_delivery o.db id payment_id url payload event now) o).db
            id
            outcome
            count
            at).webhook_deliveries
  unfolding update_webhook_delivery
  update_webhook_delivery-IsStored outcome count at = record {
    there = ap (leb 1) (there-written id outcome count at after_save) ∙ there-saved;
    closed = closed-written id outcome count at after_save;
    kept = kept-written id outcome count at after_save ∙ kept-saved;
  }
