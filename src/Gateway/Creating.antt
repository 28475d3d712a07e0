-- ===== src/Gateway/Creating.antt =====
-- src/api/payments.rs, `create`: a request to make an intent follows the life of every intent, if
-- whatever other requests do meanwhile follows it.
use stellar_gate.Prelude.{
  ℕ, zero, suc, ◌+◌, ◌≡◌, refl, inl, inr, Option, none, some, ◌==◌, list_eq, nat_eq, Bool-cases,
  Option-cases, find,
}
use stellar_gate.Text.{Text}
use stellar_gate.Config.{Config, AcceptedAsset}
use stellar_gate.Db.{Db, Payment, IdempotencyKey, Result, ok, err}
use stellar_gate.Db.Payments.{get_payment, create_payment}
use stellar_gate.Db.Idempotency.{
  find_payment_id_by_idempotency_key, save_idempotency_key, delete_idempotency_key, inserted,
  new_key, is_key,
}
use stellar_gate.Api.{Answer, answer, refuse}
use stellar_gate.Api.Create.{
  CreatePaymentRequest, Outside, unique_memo, new_payment, answer_created, mint, await_winner,
  reserve, mapped, create_keyed, keyed, behind_checks, key_of, check_body, create,
}
use stellar_gate.Gateway.Lookup.{HasDistinctIds}
use stellar_gate.Gateway.Statements.{Evolves, Evolves-same, Evolves-trans}
use stellar_gate.Gateway.Opening.{create_payment-Evolves}

pub unchanged : (db : Db) → HasDistinctIds db.payments → Evolves db db
unchanged db distinct = Evolves-same db db distinct refl refl

inserted-Evolves :
    (db : Db) (row : IdempotencyKey) (there : Option IdempotencyKey)
    → HasDistinctIds db.payments
    → Evolves db (inserted db row there)
inserted-Evolves db row none distinct = Evolves-same db _ distinct refl refl
inserted-Evolves db row (some k) distinct = unchanged db distinct

save_idempotency_key-Evolves :
    (db : Db) (merchant_id key payment_id : Text) (now : ℕ)
    → HasDistinctIds db.payments
    → Evolves db (save_idempotency_key db merchant_id key payment_id now).1
unfolding save_idempotency_key
save_idempotency_key-Evolves db merchant_id key payment_id now distinct =
    inserted-Evolves db (new_key merchant_id key payment_id now)
      (find (is_key merchant_id key) db.idempotency_keys) distinct

-- Whatever other requests do between two statements of this one follows the life of every intent.
abbrev pub IsOrderly : (Db → Db) → Type 0
IsOrderly change = (db : Db) → HasDistinctIds db.payments → Evolves db (change db)

module _ {N : Type 0} (config : Config N) (outside : Outside)
    (others : (i : ℕ) → IsOrderly (outside.meanwhile i)) where
  answer_created-Evolves :
      (db : Db) (r : Result (Payment × Db))
      → HasDistinctIds db.payments
      → ((p : Payment × Db) → r ≡ ok p → Evolves db p.1)
      → Evolves db (answer_created config outside db r).1
  answer_created-Evolves db (err e) distinct made = unchanged db distinct
  answer_created-Evolves db (ok p) distinct made = made p refl

  mint-Evolves :
      (merchant_id : Text) (body : CreatePaymentRequest) (asset : AcceptedAsset)
      → IsOrderly (λ db. (mint config outside merchant_id body asset db).1)
  unfolding mint
  mint-Evolves merchant_id body asset db distinct =
      elim (Option-cases (unique_memo config outside db 10 0)) [
        | inl e ↦ rw (e, mint) (unchanged db distinct)
        | inr (memo, e) ↦
            let new = new_payment config outside merchant_id body asset memo in
            rw (e, mint)
              (answer_created-Evolves db (create_payment db new outside.now) distinct
                (create_payment-Evolves db distinct new outside.now))
      ]

  await_winner-Evolves :
      (canonical_id : Text) (left i : ℕ)
      → IsOrderly (λ db. (await_winner config outside canonical_id left i db).1)
  unfolding await_winner
  await_winner-Evolves canonical_id zero i db distinct = unchanged db distinct
  await_winner-Evolves canonical_id (suc left) i db distinct =
      elim (Option-cases (get_payment db canonical_id)) [
        | inr (p, e) ↦ rw (e, await_winner) (unchanged db distinct)
        | inl e ↦
            let first = others i db distinct in
            rw (e, await_winner)
              (Evolves-trans db (outside.meanwhile i db) _ first (
                await_winner-Evolves canonical_id left (i + 1) (outside.meanwhile i db)
                  first.distinct))
      ]

  reserve-Evolves :
      (merchant_id : Text) (body : CreatePaymentRequest) (asset : AcceptedAsset) (key : Text)
      → IsOrderly (λ db. (reserve config outside merchant_id body asset key db).1)
  unfolding reserve
  reserve-Evolves merchant_id body asset key db distinct =
      let saved = save_idempotency_key db merchant_id key outside.payment_id outside.now in
      let first =
        save_idempotency_key-Evolves db merchant_id key outside.payment_id outside.now distinct in
      elim (Bool-cases (saved.0 == outside.payment_id)) [
        | inl e ↦ rw e (
            Evolves-trans db saved.1 _ first
              (mint-Evolves merchant_id body asset saved.1 first.distinct))
        | inr e ↦ rw e (
            Evolves-trans db saved.1 _ first
              (await_winner-Evolves saved.0 50 1 saved.1 first.distinct))
      ]

  mapped-Evolves :
      (merchant_id : Text) (body : CreatePaymentRequest) (asset : AcceptedAsset) (key : Text)
      (found : Option Payment)
      → IsOrderly (λ db. (mapped config outside merchant_id body asset key db found).1)
  unfolding delete_idempotency_key
  mapped-Evolves merchant_id body asset key (some p) db distinct = unchanged db distinct
  mapped-Evolves merchant_id body asset key none db distinct =
      let dropped = delete_idempotency_key db merchant_id key in
      let second = others 0 dropped distinct in
      let left = outside.meanwhile 0 dropped in
      Evolves-trans db dropped _ (Evolves-same db dropped distinct refl refl) (
        Evolves-trans dropped left _ second
          (reserve-Evolves merchant_id body asset key left second.distinct))

  create_keyed-Evolves :
      (merchant_id : Text) (body : CreatePaymentRequest) (asset : AcceptedAsset) (key : Text)
      → IsOrderly (λ db. (create_keyed config outside merchant_id body asset key db).1)
  unfolding create_keyed
  create_keyed-Evolves merchant_id body asset key db distinct =
      elim (Option-cases (find_payment_id_by_idempotency_key db merchant_id key)) [
        | inl e ↦
            let first = others 0 db distinct in
            let left = outside.meanwhile 0 db in
            rw (e, create_keyed)
              (Evolves-trans db left _ first
                (reserve-Evolves merchant_id body asset key left first.distinct))
        | inr (existing_id, e) ↦
            rw (e, create_keyed)
              (mapped-Evolves merchant_id body asset key (get_payment db existing_id) db distinct)
      ]

  keyed-Evolves :
      (merchant_id : Text) (body : CreatePaymentRequest) (asset : AcceptedAsset) (key : Option Text)
      → IsOrderly (λ db. (keyed config outside merchant_id body asset db key).1)
  keyed-Evolves merchant_id body asset none db distinct =
      mint-Evolves merchant_id body asset db distinct
  keyed-Evolves merchant_id body asset (some key) db distinct =
      create_keyed-Evolves merchant_id body asset key db distinct

  behind_checks-Evolves :
      (merchant_id : Text) (body : CreatePaymentRequest) (checked : Answer AcceptedAsset)
      → IsOrderly (λ db. (behind_checks config outside merchant_id body db checked).1)
  behind_checks-Evolves merchant_id body (refuse e) db distinct = unchanged db distinct
  behind_checks-Evolves merchant_id body (answer asset) db distinct =
      keyed-Evolves merchant_id body asset (key_of body.idempotency_key) db distinct

  pub create-Evolves :
      (merchant_id : Text) (body : CreatePaymentRequest)
      → IsOrderly (λ db. (create config outside merchant_id body db).1)
  unfolding create
  create-Evolves merchant_id body db distinct =
      behind_checks-Evolves merchant_id body (check_body config outside body) db distinct
