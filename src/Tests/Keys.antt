-- ===== src/Tests/Keys.antt =====
-- src/db.rs and src/api/mod.rs: merchants and API keys on concrete requests.
use stellar_gate.Prelude.{
  ◌≡◌, refl, false, none, some, List, [], ◌∷◌, ◌+◌, map, arith, list_eq, nat_eq, list_beq, ==_iff,
}
use stellar_gate.Text.{Text, codes}
use stellar_gate.Db.{Db, ApiKey, empty_db}
use stellar_gate.Db.Table.{count_where, update_where}
use stellar_gate.Db.ApiKeys.{
  insert_api_key, find_merchant_by_key, revoke_api_key, count_active_api_keys, merchant_exists,
  new_api_key,
}
use stellar_gate.Db.ApiKeys.Revoked.{
  HasUniqueHashes, merchant_of, spared, usable_key, find_merchant_by_key-revoke_api_key,
}
use stellar_gate.Db.Listing.{newest_first, insert_newest, newer, text_ltb}
use stellar_gate.Api.{
  AppState, refuse, bad_request, not_found_error, last_active_key, merchant_not_found,
}
use stellar_gate.Api.Keys.{Drawn, revoke_key}
use stellar_gate.Api.Keys.Listed.{list_api_keys, list_keys}
use stellar_gate.Api.Keys.Served.{IsServed}
use stellar_gate.Api.Keys.Carried.{serve_all-carry_keys}
use stellar_gate.Db.Backfill.Keys.{carry_keys, carry_rows}
use stellar_gate.Api.Keys.Requests.{
  KeyRequest, provision, revoke, authenticate, serve, serve_all, serve_all-IsServed,
}

-- A stand-in for the hash.
abbrev pub hash : Text → Text
hash raw = b'#' ∷ raw

abbrev pub key : Text → Text → Text → ApiKey
key id merchant_id raw = new_api_key id merchant_id (hash raw) (codes "sg_") none 5

abbrev pub two_keys : Db
two_keys = record empty_db {
  merchants = record { id = codes "m1"; api_key_hash = hash (codes "sg_a") } ∷ [];
  api_keys =
      key (codes "k1") (codes "m1") (codes "sg_a")
      ∷ key (codes "k2") (codes "m1") (codes "sg_b")
      ∷ [];
}

two_keys-HasUniqueHashes : HasUniqueHashes two_keys
unfolding count_where
two_keys-HasUniqueHashes key_hash =
    ground (arith, ==_iff (hash (codes "sg_a")) key_hash, ==_iff (hash (codes "sg_b")) key_hash)

find_merchant_by_key-revoke_api_key_example :
    (find_merchant_by_key hash
      (revoke_api_key two_keys (codes "m1") (codes "k1") 9).1
      (codes "sg_a")
      10).0
    ≡ merchant_of (spared (codes "m1") (codes "k1") (usable_key two_keys (hash (codes "sg_a"))))
find_merchant_by_key-revoke_api_key_example =
    find_merchant_by_key-revoke_api_key hash two_keys (codes "m1") (codes "k1") (codes "sg_a") 9 10
      two_keys-HasUniqueHashes

-- The first key finds nobody behind its revocation.
revoked_key_finds_nobody :
    merchant_of (spared (codes "m1") (codes "k1") (usable_key two_keys (hash (codes "sg_a"))))
    ≡ none
unfolding list_beq
revoked_key_finds_nobody = refl

two_keys-IsServed : IsServed two_keys
unfolding merchant_exists count_active_api_keys count_where
two_keys-IsServed = record {
  unique = λ id. ground (arith, ==_iff (codes "k1") id, ==_iff (codes "k2") id);
  usable = λ m there. ground (arith, there);
}

abbrev state : AppState
state = record {
  db = two_keys;
  auth_metrics = record {
    success = 0;
    failure_missing_key = 0;
    failure_invalid_key = 0;
    failure_internal_error = 0;
  };
}

abbrev drawn : Drawn
drawn = record { merchant_id = codes "m2"; key_id = codes "k3"; random_hex = codes "c" }

abbrev requests : List KeyRequest
requests =
    provision drawn 20
    ∷ revoke (codes "m1") (codes "k1") 21
    ∷ revoke (codes "m1") (codes "k2") 22
    ∷ authenticate false (some (codes "Bearer sg_b")) 23
    ∷ []

serve_all-IsServed_example : IsServed (serve_all hash requests state).db
serve_all-IsServed_example = serve_all-IsServed hash requests state two_keys-IsServed

-- The second of two revocations is refused.
last_key_stays :
    (revoke_key
      (codes "m1")
      (codes "k2")
      22
      (serve_all hash (revoke (codes "m1") (codes "k1") 21 ∷ []) state)).0
    ≡ refuse (bad_request last_active_key)
unfolding revoke_key serve serve_all revoke_api_key merchant_exists count_active_api_keys
    count_where update_where list_beq
last_key_stays = refl

-- Where both have counted before either one writes, no key is left.
revocations_race :
    let once = (revoke_api_key two_keys (codes "m1") (codes "k1") 21).1 in
    (count_active_api_keys two_keys (codes "m1") ≡ 2)
    × (count_active_api_keys (revoke_api_key once (codes "m1") (codes "k2") 21).1 (codes "m1") ≡ 0)
unfolding count_active_api_keys revoke_api_key count_where update_where list_beq
revocations_race = (refl, refl)

-- Nobody else's keys are listed, and of one time the greater id comes first.
both_listed :
    map (λ info. info.id) (list_api_keys (λ t. (t + 48) ∷ []) two_keys (codes "m1"))
    ≡ codes "k2" ∷ codes "k1" ∷ []
unfolding list_api_keys newest_first insert_newest newer text_ltb list_beq
both_listed = refl

nobody_listed :
    list_keys (λ t. (t + 48) ∷ []) two_keys (codes "m2")
    ≡ refuse (not_found_error merchant_not_found)
unfolding list_keys merchant_exists count_where list_beq
nobody_listed = refl

serve_all-carry_keys_example :
    carry_keys (λ m. codes "r1") (λ m. 3) (serve_all hash requests state).db
    ≡ (serve_all hash requests state).db
unfolding count_where list_beq
serve_all-carry_keys_example =
    serve_all-carry_keys hash (λ m. codes "r1") (λ m. 3) requests state refl

-- A merchant of the time before the table of keys authenticates behind a start.
abbrev old_merchant : Db
old_merchant = record two_keys { api_keys = [] }

carried_key :
    (find_merchant_by_key hash
      (carry_keys (λ m. codes "r1") (λ m. 3) old_merchant)
      (codes "sg_a")
      9).0
    ≡ some (codes "m1")
unfolding carry_rows insert_api_key find_merchant_by_key count_where update_where list_beq
carried_key = refl
