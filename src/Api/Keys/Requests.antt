-- ===== src/Api/Keys/Requests.antt =====
-- src/api/mod.rs: any sequence of the requests that touch API keys, one behind the other.
use stellar_gate.Prelude.{
  ℕ, ◌≡◌, refl, Bool, true, false, not, Option, none, some, List, [], ◌∷◌, arith, leb, ◌&&◌, ◌==◌,
  list_eq, nat_eq, find, Bool-cases, Option-cases, inl, inr, if◌then◌else◌,
}
use stellar_gate.Text.{Text}
use stellar_gate.Db.{Db, Result, ok, err}
use stellar_gate.Db.ApiKeys.{
  find_merchant_by_key, count_active_api_keys, merchant_exists, is_usable, is_idle, touched,
  generate_api_key,
}
use stellar_gate.Api.{AppState, Answer}
use stellar_gate.Api.Auth.{auth_middleware, authenticated, bearer_token}
use stellar_gate.Api.Keys.{
  Drawn, Issued, stored, removed, label_too_long, provision_merchant, issue_api_key, revoke_key,
}
use stellar_gate.Api.Keys.Served.{
  IsServed, revoke_api_key-IsServed, create_api_key-IsServed, create_merchant-IsServed,
  id-update_where, active-touched,
}

pub data KeyRequest : Type 0 where
  provision : Drawn → ℕ → KeyRequest
  issue : Drawn → Text → Option Text → ℕ → KeyRequest
  revoke : Text → Text → ℕ → KeyRequest
  authenticate : Bool → Option Text → ℕ → KeyRequest

module _ {A : Type 0} where
  if-IsServed :
      (test : Bool) (x y : Answer A × AppState)
      → IsServed x.1.db
      → IsServed y.1.db
      → IsServed (if test then x else y).1.db
  if-IsServed true x y hx hy = hx
  if-IsServed false x y hx hy = hy

stored-IsServed :
    (r : Result Db) (issued : Issued) (s : AppState)
    → ((db : Db) → r ≡ ok db → IsServed db)
    → IsServed s.db
    → IsServed (stored r issued s).1.db
stored-IsServed (ok db) issued s h v = h db refl
stored-IsServed (err e) issued s h v = v

removed-IsServed : (r : Bool × Db) (s : AppState) → IsServed r.1 → IsServed (removed r s).1.db
removed-IsServed (true, db) s v = v
removed-IsServed (false, db) s v = v

authenticated-IsServed :
    (r : Option Text × Db) (s : AppState) → IsServed r.1 → IsServed (authenticated r s).1.db
authenticated-IsServed (none, db) s v = v
authenticated-IsServed (some m, db) s v = v

module _ (hash_api_key : Text → Text) where
  unfoldable pub serve : KeyRequest → AppState → AppState
  serve (provision drawn now) s = (provision_merchant hash_api_key drawn now s).1
  serve (issue drawn merchant_id label now) s =
      (issue_api_key hash_api_key drawn merchant_id label now s).1
  serve (revoke merchant_id key_id now) s = (revoke_key merchant_id key_id now s).1
  serve (authenticate db_fails authorization now) s =
      (auth_middleware hash_api_key db_fails authorization now s).1

  unfoldable pub serve_all : List KeyRequest → AppState → AppState
  serve_all [] s = s
  serve_all (request ∷ requests) s = serve_all requests (serve request s)

  find_merchant_by_key-IsServed :
      (db : Db) (raw_key : Text) (now : ℕ)
      → IsServed db
      → IsServed (find_merchant_by_key hash_api_key db raw_key now).1
  unfolding find_merchant_by_key count_active_api_keys merchant_exists
  find_merchant_by_key-IsServed db raw_key now v =
      elim (Option-cases (find (is_usable (hash_api_key raw_key)) db.api_keys)) [
        | inl e ↦ rw e v
        | inr (key, e) ↦ rw e (record {
          unique = λ id.
              rw
                (id-update_where (λ k. k.id == key.id && is_idle now k) (touched now) (λ k. refl) id
                  db.api_keys)
                (v.unique id);
          usable = λ m there.
              rw (active-touched (λ k. k.id == key.id && is_idle now k) now m db.api_keys)
                (v.usable m there);
        })
      ]

  auth_middleware-IsServed :
      (db_fails : Bool) (authorization : Option Text) (now : ℕ) (s : AppState)
      → IsServed s.db
      → IsServed (auth_middleware hash_api_key db_fails authorization now s).1.db
  unfolding auth_middleware
  auth_middleware-IsServed db_fails authorization now s v =
      elim (Option-cases (bearer_token authorization)) [
        | inl e ↦ rw (e, auth_middleware) v
        | inr (key, e) ↦
            rw (e, auth_middleware)
              (if-IsServed db_fails _ _ v (
                authenticated-IsServed (find_merchant_by_key hash_api_key s.db key now) s
                  (find_merchant_by_key-IsServed s.db key now v)))
      ]

  serve-IsServed :
      (request : KeyRequest) (s : AppState) → IsServed s.db → IsServed (serve request s).db
  unfolding serve provision_merchant issue_api_key revoke_key
  serve-IsServed (provision drawn now) s v =
      let (raw_key, prefix) = generate_api_key drawn.random_hex in
      stored-IsServed _ _ s
        (λ db' h.
          create_merchant-IsServed hash_api_key s.db db' drawn.merchant_id raw_key prefix
            drawn.key_id now h v)
        v
  serve-IsServed (issue drawn merchant_id label now) s v =
      let (raw_key, prefix) = generate_api_key drawn.random_hex in
      if-IsServed (not (merchant_exists s.db merchant_id)) _ _ v (
        if-IsServed (label_too_long label) _ _ v (
          stored-IsServed _ _ s
            (λ db' h.
              create_api_key-IsServed hash_api_key s.db db' drawn.key_id merchant_id raw_key prefix
                label now h v)
            v))
  serve-IsServed (revoke merchant_id key_id now) s v =
      if-IsServed (not (merchant_exists s.db merchant_id)) _ _ v
        (elim (Bool-cases (leb (count_active_api_keys s.db merchant_id) 1)) [
          | inl e ↦ rw e v
          | inr e ↦ rw e (
              removed-IsServed _ s
                (revoke_api_key-IsServed merchant_id key_id now s.db (ground (arith, e)) v))
        ])
  serve-IsServed (authenticate db_fails authorization now) s v =
      auth_middleware-IsServed db_fails authorization now s v

  -- From tables where the key ids are unique and each merchant has a key that is not revoked, any
  -- sequence of requests to provision, issue, revoke and authenticate, one behind the other and
  -- whatever they answer, leads to such tables: no merchant is locked out.
  pub serve_all-IsServed :
      (requests : List KeyRequest) (s : AppState)
      → IsServed s.db
      → IsServed (serve_all requests s).db
  unfolding serve_all
  serve_all-IsServed [] s v = v
  serve_all-IsServed (request ∷ requests) s v =
      serve_all-IsServed requests (serve request s) (serve-IsServed request s v)
