-- ===== src/Db/Idempotency/FirstWins.antt =====
-- src/db.rs, `save_idempotency_key`: two requests with one key.
use stellar_gate.Prelude.{
  ℕ, ◌≡◌, ap, sym, ◌∙◌, inl, inr, Bool, true, Option, none, some, List, [], ◌∷◌, ◌++◌, ==-refl,
  list_eq, nat_eq, find, Bool-cases, Option-cases,
}
use stellar_gate.Text.{Text}
use stellar_gate.Db.{Db, IdempotencyKey}
use stellar_gate.Db.Idempotency.{
  is_key, payment_id_of, new_key, find_payment_id_by_idempotency_key, save_idempotency_key,
}

find-append :
    (test : IdempotencyKey → Bool) (rows : List IdempotencyKey) (row : IdempotencyKey)
    → find test rows ≡ none
    → test row ≡ true
    → find test (rows ++ row ∷ []) ≡ some row
find-append test [] row h passes = rw passes
find-append test (r ∷ rows) row h passes = elim (Bool-cases (test r)) [
  | inl e ↦ let there : some r ≡ none = rw e at h in cc
  | inr e ↦ rw e (find-append test rows row (rw e at h) passes)
]

module _ (db : Db) (merchant_id key : Text) where
  abbrev looked_up : Db → Option IdempotencyKey
  looked_up d = find (is_key merchant_id key) d.idempotency_keys

  -- Behind a save the key is there, and the id that was returned is the one stored.
  stored :
      (id : Text) (now : ℕ)
      → (row : IdempotencyKey) × (looked_up (save_idempotency_key db merchant_id key id now).1
          ≡ some row)
        × ((save_idempotency_key db merchant_id key id now).0 ≡ row.payment_id)
  unfolding save_idempotency_key find_payment_id_by_idempotency_key
  stored id now = elim (Option-cases (looked_up db)) [
    | inl e ↦
        let new = new_key merchant_id key id now in
        let there =
          find-append (is_key merchant_id key) db.idempotency_keys new e
            (rw (==-refl merchant_id, ==-refl key)) in
        (new, rw e there, rw e (rw there))
    | inr (row, e) ↦ (row, rw e e, rw e (rw e))
  ]

again :
    (d : Db) (merchant_id key other : Text) (later : ℕ) (row : IdempotencyKey)
    → find (is_key merchant_id key) d.idempotency_keys ≡ some row
    → save_idempotency_key d merchant_id key other later ≡ (row.payment_id, d)
unfolding save_idempotency_key find_payment_id_by_idempotency_key
again d merchant_id key other later row e = rw e (rw e)

-- Of two requests of one merchant with one key, the first decides: the second one gets the same payment
-- id, which a lookup finds too, and changes nothing.
pub save_idempotency_key-save_idempotency_key :
    (db : Db) (merchant_id key id other : Text) (now later : ℕ)
    → let saved = save_idempotency_key db merchant_id key id now in
      (save_idempotency_key saved.1 merchant_id key other later ≡ saved)
      × (find_payment_id_by_idempotency_key saved.1 merchant_id key ≡ some saved.0)
unfolding find_payment_id_by_idempotency_key
save_idempotency_key-save_idempotency_key db merchant_id key id other now later =
    let saved = save_idempotency_key db merchant_id key id now in
    let s = stored db merchant_id key id now in
    (
      again saved.1 merchant_id key other later s.0 s.1 ∙ ap (λ i. (i, saved.1)) (sym (s.2)),
      ap payment_id_of s.1 ∙ ap some (sym (s.2)),
    )
