-- ===== src/Api/Keys/Frame.antt =====
-- src/api/mod.rs: what the statements on the merchants and their keys keep, the requests keep.
use stellar_gate.Prelude.{
  ℕ, ◌≡◌, refl, inl, inr, Bool, true, false, not, Option, none, some, List, [], ◌∷◌, leb,
  Option-cases, if◌then◌else◌,
}
use stellar_gate.Text.{Text}
use stellar_gate.Db.{Db, Result, ok, err}
use stellar_gate.Db.ApiKeys.{
  generate_api_key, create_merchant, create_api_key, find_merchant_by_key, revoke_api_key,
  merchant_exists, count_active_api_keys,
}
use stellar_gate.Api.{AppState}
use stellar_gate.Api.Auth.{bearer_token, auth_middleware, authenticated}
use stellar_gate.Api.Keys.{
  Issued, stored, removed, label_too_long, provision_merchant, issue_api_key, revoke_key,
}
use stellar_gate.Api.Keys.Requests.{
  KeyRequest, provision, issue, revoke, authenticate, serve, serve_all,
}

-- Each of the four statements keeps `P`.
pub record IsFramed (hash_api_key : Text → Text) (P : Db → Type 0) : Type 0 where
  pub provisions :
      (db : Db) (id raw_key prefix key_id : Text) (now : ℕ) (db' : Db)
      → create_merchant hash_api_key db id raw_key prefix key_id now ≡ ok db'
      → P db
      → P db'
  pub issues :
      (db : Db) (id merchant_id raw_key prefix : Text) (label : Option Text) (now : ℕ) (db' : Db)
      → create_api_key hash_api_key db id merchant_id raw_key prefix label now ≡ ok db'
      → P db
      → P db'
  pub authenticates :
      (db : Db) (raw_key : Text) (now : ℕ)
      → P db
      → P (find_merchant_by_key hash_api_key db raw_key now).1
  pub revokes :
      (db : Db) (merchant_id key_id : Text) (now : ℕ)
      → P db
      → P (revoke_api_key db merchant_id key_id now).1

module _ (hash_api_key : Text → Text) (P : Db → Type 0) (framed : IsFramed hash_api_key P) where
  if-framed :
      {A : Type 0} (test : Bool) (x y : A × AppState)
      → P x.1.db
      → P y.1.db
      → P (if test then x else y).1.db
  if-framed true x y hx hy = hx
  if-framed false x y hx hy = hy

  stored-framed :
      (r : Result Db) (issued : Issued) (s : AppState)
      → ((db : Db) → r ≡ ok db → P db)
      → P s.db
      → P (stored r issued s).1.db
  stored-framed (ok db) issued s h p = h db refl
  stored-framed (err e) issued s h p = p

  removed-framed : (r : Bool × Db) (s : AppState) → P r.1 → P (removed r s).1.db
  removed-framed (true, db) s h = h
  removed-framed (false, db) s h = h

  authenticated-framed : (r : Option Text × Db) (s : AppState) → P r.1 → P (authenticated r s).1.db
  authenticated-framed (none, db) s h = h
  authenticated-framed (some m, db) s h = h

  auth_middleware-framed :
      (db_fails : Bool) (authorization : Option Text) (now : ℕ) (s : AppState)
      → P s.db
      → P (auth_middleware hash_api_key db_fails authorization now s).1.db
  unfolding auth_middleware
  auth_middleware-framed db_fails authorization now s p =
      elim (Option-cases (bearer_token authorization)) [
        | inl e ↦ rw (e, auth_middleware) p
        | inr (key, e) ↦
            rw (e, auth_middleware)
              (if-framed db_fails _ _ p (
                authenticated-framed (find_merchant_by_key hash_api_key s.db key now) s
                  (framed.authenticates s.db key now p)))
      ]

  pub serve-framed :
      (request : KeyRequest) (s : AppState) → P s.db → P (serve hash_api_key request s).db
  unfolding serve provision_merchant issue_api_key revoke_key
  serve-framed (provision drawn now) s p =
      let (raw_key, prefix) = generate_api_key drawn.random_hex in
      stored-framed _ _ s
        (λ db' h. framed.provisions s.db drawn.merchant_id raw_key prefix drawn.key_id now db' h p)
        p
  serve-framed (issue drawn merchant_id label now) s p =
      let (raw_key, prefix) = generate_api_key drawn.random_hex in
      if-framed (not (merchant_exists s.db merchant_id)) _ _ p (
        if-framed (label_too_long label) _ _ p (
          stored-framed _ _ s
            (λ db' h. framed.issues s.db drawn.key_id merchant_id raw_key prefix label now db' h p)
            p))
  serve-framed (revoke merchant_id key_id now) s p =
      if-framed (not (merchant_exists s.db merchant_id)) _ _ p (
        if-framed (leb (count_active_api_keys s.db merchant_id) 1) _ _ p (
          removed-framed (revoke_api_key s.db merchant_id key_id now) s
            (framed.revokes s.db merchant_id key_id now p)))
  serve-framed (authenticate db_fails authorization now) s p =
      auth_middleware-framed db_fails authorization now s p

  pub serve_all-framed :
      (requests : List KeyRequest) (s : AppState)
      → P s.db
      → P (serve_all hash_api_key requests s).db
  unfolding serve_all
  serve_all-framed [] s p = p
  serve_all-framed (request ∷ requests) s p =
      serve_all-framed requests (serve hash_api_key request s) (serve-framed request s p)
