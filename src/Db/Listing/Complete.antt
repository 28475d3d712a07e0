-- ===== src/Db/Listing/Complete.antt =====
-- src/db.rs and src/api/payments.rs: the pages of `GET /payments` make up the whole listing.
use stellar_gate.Prelude.{
  ℕ, ◌+◌, ◌≤◌, ◌<◌, ◌≡◌, refl, sym, ap, ◌∙◌, true, Option, none, some, List, [], arith, ◌==◌,
  ==_iff, nat_eq, filterb, take, drop, length,
}
use stellar_gate.Text.{Text}
use stellar_gate.Db.{Db, Payment, Status}
use stellar_gate.Db.Listing.{
  newest_first, is_listed, payment_key, list_payments, list_payments_keyset,
}
use stellar_gate.Db.Listing.Order.{
  IsNewestFirst, HasDistinctIds, HasDistinctIds-filterb, newest_first-IsNewestFirst,
}
use stellar_gate.Db.Listing.Pages.{
  next_cursor, follow, follow-rest, cut, keyset_page-listing, filterb-none, drop-drop, take-drop,
}

module _ (stamp : ℕ → Text) (db : Db) (merchant_id : Text) (status : Option Status) where
  abbrev pub payment_listing : List Payment
  payment_listing =
      newest_first (payment_key stamp) (filterb (is_listed merchant_id status) db.payments)

  payment_listing-IsNewestFirst :
      HasDistinctIds (payment_key stamp) db.payments
      → IsNewestFirst (payment_key stamp) payment_listing
  payment_listing-IsNewestFirst distinct = newest_first-IsNewestFirst (payment_key stamp) _ (
      HasDistinctIds-filterb (payment_key stamp) (is_listed merchant_id status) db.payments
        distinct)

  -- Whatever the size of a page, a client that follows the cursors over a table with distinct ids,
  -- with enough requests, reads each payment of the merchant that has the status once, the newest
  -- first, and nothing else.
  pub list_payments_keyset-follow :
      (limit fuel : ℕ)
      → 1 ≤ limit
      → HasDistinctIds (payment_key stamp) db.payments
      → length payment_listing < fuel
      → follow
          (payment_key stamp)
          (list_payments_keyset stamp db merchant_id status limit)
          limit
          fuel
          none
        ≡ payment_listing
  unfolding list_payments_keyset
  list_payments_keyset-follow limit fuel some_rows distinct enough =
      follow-rest (payment_key stamp) (list_payments_keyset stamp db merchant_id status limit) limit
        some_rows payment_listing (payment_listing-IsNewestFirst distinct)
        (keyset_page-listing (payment_key stamp) (is_listed merchant_id status) limit db.payments)
        fuel none [] payment_listing refl (filterb-none (payment_key stamp) payment_listing) enough

  -- Over a table with distinct ids, the cursor of a full page by offset resumes at the row behind
  -- the page: the page by that cursor is the next page by offset.
  pub list_payments_keyset-list_payments :
      (limit offset : ℕ)
      → 1 ≤ limit
      → HasDistinctIds (payment_key stamp) db.payments
      → length (list_payments stamp db merchant_id status limit offset) ≡ limit
      → list_payments_keyset stamp db merchant_id status limit (
          next_cursor
            (payment_key stamp)
            limit
            (list_payments stamp db merchant_id status limit offset))
        ≡ list_payments stamp db merchant_id status limit (offset + limit)
  unfolding list_payments_keyset list_payments next_cursor
  list_payments_keyset-list_payments limit offset some_rows distinct full =
      let rest = drop offset payment_listing in
      let (_, c, l, _, passes) =
        cut (payment_key stamp) limit payment_listing (take offset payment_listing) rest
          (payment_listing-IsNewestFirst distinct)
          (sym (take-drop (payment_key stamp) offset payment_listing)) (omega (arith, full)) in
      let same : (length (take limit rest) == limit) ≡ true =
        (==_iff (length (take limit rest)) limit).1 full in
      rw (same, l)
        (keyset_page-listing (payment_key stamp) (is_listed merchant_id status) limit db.payments
            (some c)
          ∙ ap (λ (t : List Payment). take limit t)
              (passes ∙ drop-drop limit offset payment_listing))
