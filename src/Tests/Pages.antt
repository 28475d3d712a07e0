-- ===== src/Tests/Pages.antt =====
-- src/db.rs and src/api/payments.rs: listings, pages and cursors on concrete rows.
use stellar_gate.Prelude.{
  ℕ, ◌+◌, ◌<◌, ◌≡◌, refl, none, some, [], ◌∷◌, ◌++◌, arith, list_eq, nat_eq, list_beq, length, map,
}
use stellar_gate.Text.{Text, codes, as_bytes}
use stellar_gate.Db.{Db, Payment, WebhookDelivery, DeliveryStatus, empty_db}
use stellar_gate.Db.Table.{count_where}
use stellar_gate.Db.Listing.{
  text_ltb, newer, newest_first, insert_newest, payment_key, list_payments, list_payments_keyset,
  has_failed, requeue_failed_deliveries,
}
use stellar_gate.Db.Listing.Order.{HasDistinctIds}
use stellar_gate.Db.Listing.Pages.{follow}
use stellar_gate.Db.Listing.Complete.{payment_listing, list_payments_keyset-follow}
use stellar_gate.Api.Cursor.{
  Codec, IsFaithful, encode_cursor, decode_cursor, decode_cursor-encode_cursor,
}
use stellar_gate.Api.Webhooks.Tenants.{foreign, requeue_failed_deliveries-foreign}
use stellar_gate.Tests.Fixtures.{intent}

-- A stand-in for the stored texts of times.
abbrev stamp : ℕ → Text
stamp t = (t + 48) ∷ []

abbrev at : Text → ℕ → Payment
at id t = record intent { id = id; created_at = t }

abbrev three : Db
three = record empty_db { payments = at (codes "a") 2 ∷ at (codes "b") 7 ∷ at (codes "c") 2 ∷ [] }

three-HasDistinctIds : HasDistinctIds (payment_key stamp) three.payments
unfolding list_beq
three-HasDistinctIds = ((refl, (refl, tt)), ((refl, tt), (tt, tt)))

newest_is_first :
    map (λ p. p.id) (payment_listing stamp three (codes "m1") none)
    ≡ codes "b" ∷ codes "c" ∷ codes "a" ∷ []
unfolding newest_first insert_newest newer text_ltb list_beq
newest_is_first = refl

three_rows : length (payment_listing stamp three (codes "m1") none) < 4
unfolding newest_first insert_newest newer text_ltb list_beq
three_rows = omega arith

full_page : length (list_payments stamp three (codes "m1") none 2 0) ≡ 2
unfolding list_payments newest_first insert_newest newer text_ltb list_beq
full_page = refl

list_payments_keyset-follow_example :
    follow (payment_key stamp) (list_payments_keyset stamp three (codes "m1") none 2) 2 4 none
    ≡ payment_listing stamp three (codes "m1") none
list_payments_keyset-follow_example =
    list_payments_keyset-follow stamp three (codes "m1") none 2 4 (omega arith) three-HasDistinctIds
      three_rows

abbrev codec : Codec
codec = record {
  hex_encode = λ bytes. bytes;
  hex_decode = λ s. some s;
  from_utf8 = λ bytes. some bytes;
}

cursor-IsFaithful : IsFaithful codec (codes "2026-01-01T00:00:00Z" ++ 9 ∷ codes "p1")
unfolding as_bytes
cursor-IsFaithful = record { decodes = refl; reads = refl }

decode_cursor-encode_cursor_example :
    decode_cursor codec (encode_cursor codec (codes "2026-01-01T00:00:00Z", codes "p1"))
    ≡ some (codes "2026-01-01T00:00:00Z", codes "p1")
decode_cursor-encode_cursor_example =
    decode_cursor-encode_cursor codec (codes "2026-01-01T00:00:00Z") (codes "p1") cursor-IsFaithful
      (ground arith)

abbrev failed_delivery : Text → Text → WebhookDelivery
failed_delivery id payment_id = record {
  id = id;
  payment_id = payment_id;
  url = codes "https://shop.example/hook";
  payload = [];
  event_type = none;
  status = DeliveryStatus.failed;
  attempts = 8;
  last_attempt = some 7;
  acknowledged_at = none;
  created_at = 5;
}

abbrev dead_letters : Db
dead_letters = record three {
  webhook_deliveries =
      failed_delivery (codes "d1") (codes "a") ∷ failed_delivery (codes "d2") (codes "z") ∷ [];
}

requeue_failed_deliveries-foreign_example :
    let (requeued, after) = requeue_failed_deliveries dead_letters (codes "m1") [] 30 in
    (count_where (has_failed after (codes "m1") []) after.webhook_deliveries ≡ 0)
    × (requeued
        ≡ count_where (has_failed dead_letters (codes "m1") []) dead_letters.webhook_deliveries)
    × (foreign after (codes "m1") ≡ foreign dead_letters (codes "m1"))
requeue_failed_deliveries-foreign_example =
    requeue_failed_deliveries-foreign dead_letters (codes "m1") [] 30

one_is_requeued : (requeue_failed_deliveries dead_letters (codes "m1") [] 30).0 ≡ 1
unfolding requeue_failed_deliveries count_where list_beq
one_is_requeued = refl
