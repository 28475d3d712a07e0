-- ===== src/Api/Create/Replay.antt =====
-- src/api/payments.rs, `create`: a request that is sent again with its key.
use stellar_gate.Prelude.{
  ℕ, zero, suc, ◌+◌, ◌≡◌, refl, sym, ap, subst, ◌∙◌, ◌⊎◌, inl, inr, Option, none, some, arith, ◌==◌,
  ==_iff, list_eq, nat_eq, find, Bool-cases, Option-cases,
}
use stellar_gate.Text.{Text}
use stellar_gate.Config.{Config, AcceptedAsset}
use stellar_gate.Db.{Db, Payment, Result, DbError, ok, err}
use stellar_gate.Db.Payments.{NewPayment, get_payment, create_payment}
use stellar_gate.Db.Idempotency.{
  find_payment_id_by_idempotency_key, save_idempotency_key, delete_idempotency_key, payment_id_of,
  is_key,
}
use stellar_gate.Db.Idempotency.FirstWins.{save_idempotency_key-save_idempotency_key}
use stellar_gate.Api.{Answer, answer, refuse}
use stellar_gate.Api.Payments.{to_json}
use stellar_gate.Api.Create.Checks.{Answer-cases}
use stellar_gate.Api.Create.{
  CreatePaymentRequest, Outside, Created, check_body, unique_memo, mint, await_winner, reserve,
  create_keyed, create, key_of, answer_created, mapped, new_payment,
}

Result-cases {ℓ} :
    {A : Type ℓ} (r : Result A) → ((a : A) × (r ≡ ok a)) ⊎ ((e : DbError) × (r ≡ err e))
Result-cases (ok a) = inl (a, refl)
Result-cases (err e) = inr (e, refl)

-- A payment that was created is there, and the keys are as before.
create_payment-get_payment :
    (db db' : Db) (new : NewPayment) (now : ℕ) (p : Payment)
    → create_payment db new now ≡ ok (p, db')
    → (get_payment db' new.id ≡ some p) × (db'.idempotency_keys ≡ db.idempotency_keys)
unfolding create_payment
create_payment-get_payment db db' new now p h = ground (arith, h)

-- The answer 201 with the payment that the tables now have under the id.
abbrev IsStored : Text → Db → Answer Created × Db → Type 0
IsStored id before (refuse e, db) = Unit
IsStored id before (answer created, db) =
    (created.status ≡ 201)
    → (p : Payment) × (get_payment db id ≡ some p)
      × (created.payment ≡ to_json p)
      × (db.idempotency_keys ≡ before.idempotency_keys)

-- The answer 201 with the payment to which the key leads now.
abbrev IsRepeatable : Text → Text → Answer Created × Db → Type 0
IsRepeatable merchant_id key (refuse e, db) = Unit
IsRepeatable merchant_id key (answer created, db) =
    (created.status ≡ 201)
    → (id : Text) × (p : Payment) × (find_payment_id_by_idempotency_key db merchant_id key
        ≡ some id)
      × (get_payment db id ≡ some p)
      × (created.payment ≡ to_json p)

module _ {N : Type 0} (config : Config N) (outside : Outside) (merchant_id : Text)
    (body : CreatePaymentRequest) where
  answer_created-IsStored :
      (db : Db) (new : NewPayment) (now : ℕ)
      → IsStored new.id db (answer_created config outside db (create_payment db new now))
  answer_created-IsStored db new now = elim (Result-cases (create_payment db new now)) [
    | inl ((p, db'), e) ↦
        let there = create_payment-get_payment db db' new now p e in
        rw e (λ made. (p, there.0, refl, there.1))
    | inr (error, e) ↦ rw e tt
  ]

  mint-IsStored :
      (asset : AcceptedAsset) (db : Db)
      → IsStored outside.payment_id db (mint config outside merchant_id body asset db)
  unfolding mint
  mint-IsStored asset db = elim (Option-cases (unique_memo config outside db 10 0)) [
    | inl e ↦ rw (e, mint) tt
    | inr (memo, e) ↦
        rw (e, mint)
          (answer_created-IsStored db (new_payment config outside merchant_id body asset memo)
            outside.now)
  ]

  await_winner-IsRepeatable :
      (key id : Text) (left i : ℕ) (db : Db)
      → IsRepeatable merchant_id key (await_winner config outside id left i db)
  unfolding await_winner
  await_winner-IsRepeatable key id zero i db = tt
  await_winner-IsRepeatable key id (suc left) i db = elim (Option-cases (get_payment db id)) [
    | inl e ↦
        rw (e, await_winner)
          (await_winner-IsRepeatable key id left (i + 1) (outside.meanwhile i db))
    | inr (p, e) ↦ rw (e, await_winner) (λ made. absurd (omega (arith, made)))
  ]

  repeatable :
      (key : Text) (saved : Text × Db) (r : Answer Created × Db)
      → find_payment_id_by_idempotency_key saved.1 merchant_id key ≡ some saved.0
      → IsStored saved.0 saved.1 r
      → IsRepeatable merchant_id key r
  unfolding find_payment_id_by_idempotency_key
  repeatable key saved (refuse e, db) h there = tt
  repeatable key saved (answer created, db) h there = λ made.
      let (p, found, same, keys) = there made in
      (
        saved.0,
        p,
        ap (λ rows. payment_id_of (find (is_key merchant_id key) rows)) keys ∙ h,
        found,
        same,
      )

  reserve-IsRepeatable :
      (asset : AcceptedAsset) (key : Text) (db : Db)
      → IsRepeatable merchant_id key (reserve config outside merchant_id body asset key db)
  unfolding reserve
  reserve-IsRepeatable asset key db =
      let saved = save_idempotency_key db merchant_id key outside.payment_id outside.now in
      let found =
        (save_idempotency_key-save_idempotency_key db merchant_id key outside.payment_id
          outside.payment_id outside.now outside.now).1 in
      elim (Bool-cases (saved.0 == outside.payment_id)) [
        | inl e ↦
            let own : saved.0 ≡ outside.payment_id = (==_iff saved.0 outside.payment_id).0 e in
            let made : IsStored saved.0 saved.1
                (mint config outside merchant_id body asset saved.1) =
              subst (λ id. IsStored id saved.1 (mint config outside merchant_id body asset saved.1))
                (sym own) (mint-IsStored asset saved.1) in
            rw e
              (repeatable key saved (mint config outside merchant_id body asset saved.1) found made)
        | inr e ↦ rw e (await_winner-IsRepeatable key saved.0 50 1 saved.1)
      ]

  mapped-IsRepeatable :
      (asset : AcceptedAsset) (key : Text) (db : Db) (found : Option Payment)
      → IsRepeatable merchant_id key (mapped config outside merchant_id body asset key db found)
  mapped-IsRepeatable asset key db (some p) = λ made. absurd (omega (arith, made))
  mapped-IsRepeatable asset key db none =
      reserve-IsRepeatable asset key
        (outside.meanwhile 0 (delete_idempotency_key db merchant_id key))

  create_keyed-IsRepeatable :
      (asset : AcceptedAsset) (key : Text) (db : Db)
      → IsRepeatable merchant_id key (create_keyed config outside merchant_id body asset key db)
  unfolding create_keyed
  create_keyed-IsRepeatable asset key db =
      elim (Option-cases (find_payment_id_by_idempotency_key db merchant_id key)) [
        | inl e ↦ rw (e, create_keyed) (reserve-IsRepeatable asset key (outside.meanwhile 0 db))
        | inr (id, e) ↦ rw (e, create_keyed) (mapped-IsRepeatable asset key db (get_payment db id))
      ]

module _ {N : Type 0} (config : Config N) (merchant_id key : Text) where
  create-IsRepeatable :
      (outside : Outside) (body : CreatePaymentRequest) (db : Db)
      → key_of body.idempotency_key ≡ some key
      → IsRepeatable merchant_id key (create config outside merchant_id body db)
  unfolding create
  create-IsRepeatable outside body db keyed_by =
      elim (Answer-cases (check_body config outside body)) [
        | inl (asset, e) ↦
            rw (e, keyed_by)
              (create_keyed-IsRepeatable config outside merchant_id body asset key db)
        | inr (error, e) ↦ rw e tt
      ]

  -- A request with a key that was answered with a new payment, sent again by the merchant with
  -- that key and any body that passes the checks, to the tables that it left, is answered with the
  -- same payment and status 200, and changes nothing.
  pub create-create :
      (first second : Outside) (body again : CreatePaymentRequest) (db after : Db) (made : Created)
      (asset : AcceptedAsset)
      → key_of body.idempotency_key ≡ some key
      → create config first merchant_id body db ≡ (answer made, after)
      → made.status ≡ 201
      → key_of again.idempotency_key ≡ some key
      → check_body config second again ≡ answer asset
      → create config second merchant_id again after
        ≡ (answer (record { status = 200; payment = made.payment }), after)
  unfolding create create_keyed
  create-create first second body again db after made asset keyed_by h new same_key passes =
      let repeatable_first : IsRepeatable merchant_id key (answer made, after) =
        subst (IsRepeatable merchant_id key) h (create-IsRepeatable first body db keyed_by) in
      let (id, p, found, there, same) = repeatable_first new in
      rw (passes, same_key)
        (rw (found, create_keyed)
          (rw there (ap (λ j. (answer (record { status = 200; payment = j }), after)) (sym same))))
