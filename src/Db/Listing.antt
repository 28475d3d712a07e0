-- ===== src/Db/Listing.antt =====
-- src/db.rs: the pages of payments and of deliveries. `ORDER BY created_at DESC, id DESC` and the
-- cursors compare texts, byte by byte; `stamp` is the text that SQLite writes for a time.
pub mod Order
pub mod Pages
pub mod Complete
use stellar_gate.Prelude.{
  ℕ, Bool, true, false, ◌&&◌, ◌||◌, Option, none, some, List, [], ◌∷◌, ltb, leb, ◌==◌, list_eq,
  nat_eq, filterb, find, take, drop, if◌then◌else◌,
}
use stellar_gate.Text.{Text}
use stellar_gate.Db.{Db, Payment, Status, WebhookDelivery, DeliveryStatus}
use stellar_gate.Db.Table.{count_where, update_where}

-- The order of texts as SQLite's BINARY collation has it.
unfoldable pub text_ltb : Text → Text → Bool
text_ltb s [] = false
text_ltb [] (d ∷ t) = true
text_ltb (c ∷ s) (d ∷ t) = ltb c d || c == d && text_ltb s t

-- The columns `created_at` and `id` of a row.
abbrev pub Key : Type 0
Key = Text × Text

-- Whether the first key stands in front: the later time, and of one time the greater id.
unfoldable pub newer : Key → Key → Bool
newer (ts, id) (ts', id') = text_ltb ts' ts || ts' == ts && text_ltb id' id

module _ {A : Type 0} (key : A → Key) where
  unfoldable pub insert_newest : A → List A → List A
  insert_newest r [] = r ∷ []
  insert_newest r (s ∷ rows) =
      let rest = s ∷ insert_newest r rows in if newer (key r) (key s) then r ∷ s ∷ rows else rest

  -- ORDER BY created_at DESC, id DESC
  unfoldable pub newest_first : List A → List A
  newest_first [] = []
  newest_first (r ∷ rows) = insert_newest r (newest_first rows)

  -- created_at < ? OR (created_at = ? AND id < ?)
  abbrev pub is_after : Option Key → A → Bool
  is_after none r = true
  is_after (some cursor) r = newer cursor (key r)

  abbrev pub keyset_page : (A → Bool) → ℕ → Option Key → List A → List A
  keyset_page selected limit cursor rows =
      take limit (newest_first (filterb (is_after cursor) (filterb selected rows)))

abbrev pub status_beq : Status → Status → Bool
status_beq Status.pending Status.pending = true
status_beq Status.underpaid Status.underpaid = true
status_beq Status.completed Status.completed = true
status_beq Status.expired Status.expired = true
status_beq _ _ = false

abbrev pub delivery_status_beq : DeliveryStatus → DeliveryStatus → Bool
delivery_status_beq DeliveryStatus.pending DeliveryStatus.pending = true
delivery_status_beq DeliveryStatus.delivered DeliveryStatus.delivered = true
delivery_status_beq DeliveryStatus.failed DeliveryStatus.failed = true
delivery_status_beq _ _ = false

abbrev pub is_listed : Text → Option Status → Payment → Bool
is_listed merchant_id none p = p.merchant_id == merchant_id
is_listed merchant_id (some status) p = p.merchant_id == merchant_id && status_beq p.status status

abbrev pub is_delivery_of : Text → Option DeliveryStatus → WebhookDelivery → Bool
is_delivery_of payment_id none d = d.payment_id == payment_id
is_delivery_of payment_id (some status) d =
    d.payment_id == payment_id && delivery_status_beq d.status status

-- JOIN payments p ON p.id = d.payment_id WHERE p.merchant_id = ?
abbrev pub is_merchants : Db → Text → WebhookDelivery → Bool
is_merchants db merchant_id d =
    leb 1 (count_where (λ p. p.id == d.payment_id && p.merchant_id == merchant_id) db.payments)

abbrev pub has_failed : Db → Text → List Text → WebhookDelivery → Bool
has_failed db merchant_id ids d =
    delivery_status_beq d.status DeliveryStatus.failed
    && is_merchants db merchant_id d
    && (ids == [] || leb 1 (count_where (λ id. id == d.id) ids))

abbrev pub requeued : ℕ → WebhookDelivery → WebhookDelivery
requeued now d = record d {
  status = DeliveryStatus.pending;
  attempts = 0;
  acknowledged_at = some now;
}

-- The rows that were changed, and the tables; no ids stand for all of them.
unfoldable pub requeue_failed_deliveries : Db → Text → List Text → ℕ → ℕ × Db
requeue_failed_deliveries db merchant_id ids now = (
  count_where (has_failed db merchant_id ids) db.webhook_deliveries,
  record db {
    webhook_deliveries =
        update_where (has_failed db merchant_id ids) (requeued now) db.webhook_deliveries;
  },
)

unfoldable pub get_webhook_delivery : Db → Text → Option WebhookDelivery
get_webhook_delivery db id = find (λ d. d.id == id) db.webhook_deliveries

unfoldable pub count_payments : Db → Text → Option Status → ℕ
count_payments db merchant_id status = count_where (is_listed merchant_id status) db.payments

module _ (stamp : ℕ → Text) where
  abbrev pub payment_key : Payment → Key
  payment_key p = (stamp p.created_at, p.id)

  abbrev pub delivery_key : WebhookDelivery → Key
  delivery_key d = (stamp d.created_at, d.id)

  unfoldable pub list_payments : Db → Text → Option Status → ℕ → ℕ → List Payment
  list_payments db merchant_id status limit offset =
      take limit (
        drop offset (newest_first payment_key (filterb (is_listed merchant_id status) db.payments)))

  unfoldable pub list_payments_keyset : Db → Text → Option Status → ℕ → Option Key → List Payment
  list_payments_keyset db merchant_id status limit cursor =
      keyset_page payment_key (is_listed merchant_id status) limit cursor db.payments

  unfoldable pub list_webhook_deliveries_keyset :
      Db → Text → Option DeliveryStatus → ℕ → Option Key → List WebhookDelivery
  list_webhook_deliveries_keyset db payment_id status limit cursor =
      keyset_page delivery_key (is_delivery_of payment_id status) limit cursor db.webhook_deliveries

  unfoldable pub list_deliveries_for_merchant :
      Db → Text → DeliveryStatus → ℕ → Option Key → List WebhookDelivery
  list_deliveries_for_merchant db merchant_id status limit cursor =
      keyset_page delivery_key
        (λ d. is_merchants db merchant_id d && delivery_status_beq d.status status) limit cursor
        db.webhook_deliveries
