-- ===== src/Api/Create/Checks.antt =====
-- src/api/payments.rs, `create`: which errors it answers with.
use stellar_gate.Prelude.{
  ℕ, zero, suc, ◌+◌, ◌≤◌, ◌≡◌, ◌≢◌, refl, ap, ◌∙◌, ◌⊎◌, inl, inr, Option, none, some, List, [], ◌∷◌,
  arith, ◌==◌, list_eq, nat_eq, filterb, length, Bool-cases, Option-cases,
}
use stellar_gate.Text.{Text}
use stellar_gate.Config
use stellar_gate.Config.{Config, AcceptedAsset}
use stellar_gate.Config.Boot.{Crates, Vars, from_env}
use stellar_gate.Config.Unambiguous.{has_code, from_env-unambiguous}
use stellar_gate.Db.{Db, Payment, Result, ok, err}
use stellar_gate.Db.Payments.{get_payment, create_payment}
use stellar_gate.Db.Idempotency.{
  find_payment_id_by_idempotency_key, save_idempotency_key, delete_idempotency_key,
}
use stellar_gate.Api.{Answer, answer, refuse, AppError, bad_request, ambiguous_asset}
use stellar_gate.Api.Create.{
  CreatePaymentRequest, Outside, Created, only, accepted_asset, check_body, check_webhook_url,
  with_asset, unique_memo, mint, await_winner, reserve, create_keyed, create, key_of,
  answer_created, new_payment, mapped, keyed,
}

pub Answer-cases {ℓ} :
    {A : Type ℓ} (a : Answer A) → ((x : A) × (a ≡ answer x)) ⊎ ((e : AppError) × (a ≡ refuse e))
Answer-cases (answer x) = inl (x, refl)
Answer-cases (refuse e) = inr (e, refl)

-- A refusal past the checks is a 500.
abbrev IsInternal : {A : Type 0} → Answer A → Type 0
IsInternal (answer a) = Unit
IsInternal (refuse e) = e.status ≡ 500

module _ {N : Type 0} (config : Config N) (outside : Outside) (merchant_id : Text)
    (body : CreatePaymentRequest) where
  answer_created-IsInternal :
      (db : Db) (r : Result (Payment × Db)) → IsInternal (answer_created config outside db r).0
  answer_created-IsInternal db (err e) = refl
  answer_created-IsInternal db (ok (p, db')) = tt

  mint-IsInternal :
      (asset : AcceptedAsset) (db : Db)
      → IsInternal (mint config outside merchant_id body asset db).0
  unfolding mint
  mint-IsInternal asset db = elim (Option-cases (unique_memo config outside db 10 0)) [
    | inl e ↦ rw (e, mint) refl
    | inr (memo, e) ↦
        rw (e, mint)
          (answer_created-IsInternal db (
            create_payment db (new_payment config outside merchant_id body asset memo) outside.now))
  ]

  await_winner-IsInternal :
      (id : Text) (left i : ℕ) (db : Db) → IsInternal (await_winner config outside id left i db).0
  unfolding await_winner
  await_winner-IsInternal id zero i db = refl
  await_winner-IsInternal id (suc left) i db = elim (Option-cases (get_payment db id)) [
    | inl e ↦
        rw (e, await_winner) (await_winner-IsInternal id left (i + 1) (outside.meanwhile i db))
    | inr (p, e) ↦ rw (e, await_winner) tt
  ]

  reserve-IsInternal :
      (asset : AcceptedAsset) (key : Text) (db : Db)
      → IsInternal (reserve config outside merchant_id body asset key db).0
  unfolding reserve
  reserve-IsInternal asset key db =
      let saved = save_idempotency_key db merchant_id key outside.payment_id outside.now in
      elim (Bool-cases (saved.0 == outside.payment_id)) [
        | inl e ↦ rw e (mint-IsInternal asset saved.1)
        | inr e ↦ rw e (await_winner-IsInternal saved.0 50 1 saved.1)
      ]

  mapped-IsInternal :
      (asset : AcceptedAsset) (key : Text) (db : Db) (found : Option Payment)
      → IsInternal (mapped config outside merchant_id body asset key db found).0
  mapped-IsInternal asset key db (some p) = tt
  mapped-IsInternal asset key db none =
      reserve-IsInternal asset key (outside.meanwhile 0 (delete_idempotency_key db merchant_id key))

  create_keyed-IsInternal :
      (asset : AcceptedAsset) (key : Text) (db : Db)
      → IsInternal (create_keyed config outside merchant_id body asset key db).0
  unfolding create_keyed
  create_keyed-IsInternal asset key db =
      elim (Option-cases (find_payment_id_by_idempotency_key db merchant_id key)) [
        | inl e ↦ rw (e, create_keyed) (reserve-IsInternal asset key (outside.meanwhile 0 db))
        | inr (id, e) ↦ rw (e, create_keyed) (mapped-IsInternal asset key db (get_payment db id))
      ]

  keyed-IsInternal :
      (asset : AcceptedAsset) (db : Db) (key : Option Text)
      → IsInternal (keyed config outside merchant_id body asset db key).0
  keyed-IsInternal asset db none = mint-IsInternal asset db
  keyed-IsInternal asset db (some key) = create_keyed-IsInternal asset key db

  -- How an answer of `create` comes about.
  abbrev pub IsExplained : Db → Answer Created × Db → Type 0
  IsExplained db (answer created, db') =
      (asset : AcceptedAsset) × (check_body config outside body ≡ answer asset)
  IsExplained db (refuse e, db') =
      ((check_body config outside body ≡ refuse e) × (db' ≡ db)) ⊎ (e.status ≡ 500)

  passed_checks :
      (db : Db) (asset : AcceptedAsset) (r : Answer Created × Db)
      → check_body config outside body ≡ answer asset
      → IsInternal r.0
      → IsExplained db r
  passed_checks db asset (answer created, db') h internal = (asset, h)
  passed_checks db asset (refuse e, db') h internal = inr internal

  -- A payment is answered only behind all checks of the body; a refusal is that of the first check
  -- that fails, and then nothing was written, or it is a 500.
  pub create-IsExplained : (db : Db) → IsExplained db (create config outside merchant_id body db)
  unfolding create
  create-IsExplained db = elim (Answer-cases (check_body config outside body)) [
    | inl (asset, e) ↦ rw e (
        passed_checks db asset
          (keyed config outside merchant_id body asset db (key_of body.idempotency_key)) e
          (keyed-IsInternal asset db (key_of body.idempotency_key)))
    | inr (error, e) ↦ rw e (inl (e, refl))
  ]

  only-ne-ambiguous :
      (found : List AcceptedAsset)
      → length found ≤ 1
      → only found ≢ refuse (bad_request ambiguous_asset)
  only-ne-ambiguous [] h e = cc
  only-ne-ambiguous (a ∷ []) h e = cc
  only-ne-ambiguous (a ∷ b ∷ found) h e = omega arith

  check_webhook_url-ne-ambiguous :
      (url : Option Text)
      → check_webhook_url config outside url ≢ refuse (bad_request ambiguous_asset)
  unfolding check_webhook_url
  check_webhook_url-ne-ambiguous none e = cc
  check_webhook_url-ne-ambiguous (some url) e = ground (arith, e)

  with_asset-ne-ambiguous :
      (found : Answer AcceptedAsset)
      → found ≢ refuse (bad_request ambiguous_asset)
      → with_asset config outside body found ≢ refuse (bad_request ambiguous_asset)
  with_asset-ne-ambiguous (refuse r) h e = h e
  with_asset-ne-ambiguous (answer asset) h e =
      ground (arith, e, check_webhook_url-ne-ambiguous body.webhook_url)

  refused_by :
      (db : Db) (r : Answer Created × Db) (e : AppError)
      → IsExplained db r
      → r.0 ≡ refuse e
      → (check_body config outside body ≡ refuse e) ⊎ (e.status ≡ 500)
  refused_by db (answer created, db') e h same = cc
  refused_by db (refuse e', db') e (inl h) same =
      let there : e' ≡ e = cc in inl (h.0 ∙ ap (λ x. refuse x) there)
  refused_by db (refuse e', db') e (inr h) same = inr (let there : e' ≡ e = cc in cc)

  -- With a configuration that boots, no request is told that its asset is ambiguous.
  pub from_env-create :
      (crates : Crates N) (vars : Vars) (db : Db)
      → from_env crates vars ≡ Config.ok config
      → (create config outside merchant_id body db).0 ≢ refuse (bad_request ambiguous_asset)
  unfolding check_body accepted_asset
  from_env-create crates vars db boots e =
      let code = outside.to_uppercase body.asset in
      let unique = from_env-unambiguous crates vars config code boots in
      let found = accepted_asset config.accepted_assets code in
      elim (refused_by db (create config outside merchant_id body db) _ (create-IsExplained db) e) [
        | inl h ↦
            with_asset-ne-ambiguous found
              (only-ne-ambiguous (filterb (has_code code) config.accepted_assets) unique) h
        | inr h ↦ omega (arith, h)
      ]
