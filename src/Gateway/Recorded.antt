-- ===== src/Gateway/Recorded.antt =====
-- src/db.rs, `migrate`: every transaction that an intent names is in the ledger, so that the ledger
-- needs nothing from the intents at a later start.
use stellar_gate.Prelude.{
  and_true, ℕ, ◌≡◌, refl, sym, ap, subst, ◌∙◌, inl, inr, Bool, true, Option, none, some, List, [],
  ◌∷◌, ◌++◌, ◌==◌, ==-refl, list_eq, nat_eq, leb, all, arith, Bool-cases,
}
use stellar_gate.Text.{Text}
use stellar_gate.Money.{parse_stroops}
use stellar_gate.Db.{Db, Payment, ProcessedTransaction}
use stellar_gate.Db.Table.{update_where, count_where}
use stellar_gate.Db.Payments.{is_entry, record_processed_tx}
use stellar_gate.Db.Backfill.{
  legacy_entry, read_stroops, insert_entry, backfill_rows, backfill_ledger,
}

abbrev pub has_entry : List ProcessedTransaction → Text → Text → Bool
has_entry ledger id tx_hash = leb 1 (count_where (is_entry id tx_hash) ledger)

abbrev pub covers : List ProcessedTransaction → Text → Option (Text × ℕ) → Bool
covers ledger id none = true
covers ledger id (some (tx_hash, stroops)) = has_entry ledger id tx_hash

abbrev pub is_covered : List ProcessedTransaction → Payment → Bool
is_covered ledger p = covers ledger p.id (legacy_entry p.tx_hash p.paid_amount)

abbrev pub is_recorded : Db → Bool
is_recorded db = all (is_covered db.processed_transactions) db.payments

has_entry-later :
    (t : ProcessedTransaction) (ledger : List ProcessedTransaction) (id tx_hash : Text)
    → has_entry ledger id tx_hash ≡ true
    → has_entry (t ∷ ledger) id tx_hash ≡ true
unfolding count_where
has_entry-later t ledger id tx_hash h = ground arith

covers-later :
    (t : ProcessedTransaction) (ledger : List ProcessedTransaction) (id : Text)
    (entry : Option (Text × ℕ))
    → covers ledger id entry ≡ true
    → covers (t ∷ ledger) id entry ≡ true
covers-later t ledger id none h = refl
covers-later t ledger id (some (tx_hash, stroops)) h = has_entry-later t ledger id tx_hash h

pub all_covered-later :
    (t : ProcessedTransaction) (ledger : List ProcessedTransaction) (rows : List Payment)
    → all (is_covered ledger) rows ≡ true
    → all (is_covered (t ∷ ledger)) rows ≡ true
all_covered-later t ledger [] h = refl
all_covered-later t ledger (p ∷ rows) h = ground (
  arith,
  covers-later t ledger p.id (legacy_entry p.tx_hash p.paid_amount),
  all_covered-later t ledger rows,
)

read_stroops-covered :
    (ledger : List ProcessedTransaction) (id tx_hash : Text) (stroops : Option ℕ)
    → has_entry ledger id tx_hash ≡ true
    → covers ledger id (read_stroops tx_hash stroops) ≡ true
read_stroops-covered ledger id tx_hash none h = refl
read_stroops-covered ledger id tx_hash (some stroops) h = h

-- A row that has just been settled by a transaction of the ledger.
pub settled-covered :
    (ledger : List ProcessedTransaction) (id tx_hash paid_amount : Text)
    → has_entry ledger id tx_hash ≡ true
    → covers ledger id (legacy_entry (some tx_hash) (some paid_amount)) ≡ true
settled-covered ledger id [] paid_amount h = refl
settled-covered ledger id (c ∷ tx_hash) paid_amount h =
    read_stroops-covered ledger id (c ∷ tx_hash) (parse_stroops paid_amount) h

pub update_where-covered :
    (ledger : List ProcessedTransaction) (test : Payment → Bool) (change : Payment → Payment)
    → ((q : Payment)
        → test q ≡ true
        → is_covered ledger q ≡ true
        → is_covered ledger (change q) ≡ true)
    → (rows : List Payment) → all (is_covered ledger) rows ≡ true
    → all (is_covered ledger) (update_where test change rows) ≡ true
unfolding update_where
update_where-covered ledger test change keeps [] h = refl
update_where-covered ledger test change keeps (q ∷ rows) h = elim (Bool-cases (test q)) [
  | inl e ↦ rw e (ground (arith, keeps q e, update_where-covered ledger test change keeps rows, h))
  | inr e ↦ rw e (ground (arith, update_where-covered ledger test change keeps rows, h))
]

pub append-covered :
    (ledger : List ProcessedTransaction) (rows : List Payment) (p : Payment)
    → all (is_covered ledger) rows ≡ true
    → is_covered ledger p ≡ true
    → all (is_covered ledger) (rows ++ p ∷ []) ≡ true
append-covered ledger [] p h hp = rw hp refl
append-covered ledger (q ∷ rows) p h hp = ground (arith, append-covered ledger rows p)

-- Behind the insert the entry is there, whether it is new or not.
pub record_processed_tx-entry :
    (db : Db) (id tx_hash : Text) (stroops : ℕ)
    → has_entry (record_processed_tx db id tx_hash stroops).1.processed_transactions id tx_hash
      ≡ true
unfolding record_processed_tx count_where
record_processed_tx-entry db id tx_hash stroops = ground (arith, ==-refl id, ==-refl tx_hash)

-- Where the entry is there, the insert does nothing.
record_processed_tx_again :
    (db : Db) (id tx_hash : Text) (stroops : ℕ)
    → has_entry db.processed_transactions id tx_hash ≡ true
    → (record_processed_tx db id tx_hash stroops).1 ≡ db
unfolding record_processed_tx
record_processed_tx_again db id tx_hash stroops h = ground arith

insert_entry-covered :
    (db : Db) (id : Text) (entry : Option (Text × ℕ))
    → covers db.processed_transactions id entry ≡ true
    → insert_entry db id entry ≡ db
insert_entry-covered db id none h = refl
insert_entry-covered db id (some (tx_hash, stroops)) h =
    record_processed_tx_again db id tx_hash stroops h

-- Rows that the ledger covers add nothing to it.
backfill_rows-covered :
    (rows : List Payment) (db : Db)
    → all (is_covered db.processed_transactions) rows ≡ true
    → backfill_rows rows db ≡ db
unfolding backfill_rows
backfill_rows-covered [] db h = refl
backfill_rows-covered (p ∷ rows) db h =
    let same =
      insert_entry-covered db p.id (legacy_entry p.tx_hash p.paid_amount) (ground (arith, h)) in
    ap (backfill_rows rows) same ∙ backfill_rows-covered rows db (ground (arith, h))

pub backfill_ledger-is_recorded : (db : Db) → is_recorded db ≡ true → backfill_ledger db ≡ db
backfill_ledger-is_recorded db h = backfill_rows-covered db.payments db h

covers-record_processed_tx :
    (db : Db) (id tx_hash : Text) (stroops : ℕ) (other : Text) (entry : Option (Text × ℕ))
    → covers db.processed_transactions other entry ≡ true
    → covers (record_processed_tx db id tx_hash stroops).1.processed_transactions other entry ≡ true
unfolding record_processed_tx
covers-record_processed_tx db id tx_hash stroops other entry h =
    elim (Bool-cases (count_where (is_entry id tx_hash) db.processed_transactions == 0)) [
      | inl e ↦ rw e (covers-later _ db.processed_transactions other entry h)
      | inr e ↦ rw e h
    ]

covers-insert_entry :
    (db : Db) (id : Text) (new : Option (Text × ℕ)) (other : Text) (entry : Option (Text × ℕ))
    → covers db.processed_transactions other entry ≡ true
    → covers (insert_entry db id new).processed_transactions other entry ≡ true
covers-insert_entry db id none other entry h = h
covers-insert_entry db id (some (tx_hash, stroops)) other entry h =
    covers-record_processed_tx db id tx_hash stroops other entry h

covers-insert_entry_self :
    (db : Db) (id : Text) (entry : Option (Text × ℕ))
    → covers (insert_entry db id entry).processed_transactions id entry ≡ true
covers-insert_entry_self db id none = refl
covers-insert_entry_self db id (some (tx_hash, stroops)) =
    record_processed_tx-entry db id tx_hash stroops

covers-backfill_rows :
    (rows : List Payment) (db : Db) (id : Text) (entry : Option (Text × ℕ))
    → covers db.processed_transactions id entry ≡ true
    → covers (backfill_rows rows db).processed_transactions id entry ≡ true
unfolding backfill_rows
covers-backfill_rows [] db id entry h = h
covers-backfill_rows (p ∷ rows) db id entry h =
    let new = legacy_entry p.tx_hash p.paid_amount in
    covers-backfill_rows rows (insert_entry db p.id new) id entry
      (covers-insert_entry db p.id new id entry h)

backfill_rows-all :
    (rows : List Payment) (db : Db)
    → all (is_covered (backfill_rows rows db).processed_transactions) rows ≡ true
unfolding backfill_rows
backfill_rows-all [] db = refl
backfill_rows-all (p ∷ rows) db =
    let entry = legacy_entry p.tx_hash p.paid_amount in
    let db' = insert_entry db p.id entry in
    and_true _ _ (covers-backfill_rows rows db' p.id entry (covers-insert_entry_self db p.id entry))
      (backfill_rows-all rows db')

pub record_processed_tx-payments :
    (db : Db) (id tx_hash : Text) (stroops : ℕ)
    → (record_processed_tx db id tx_hash stroops).1.payments ≡ db.payments
unfolding record_processed_tx
record_processed_tx-payments db id tx_hash stroops = ground arith

insert_entry-payments :
    (db : Db) (id : Text) (entry : Option (Text × ℕ))
    → (insert_entry db id entry).payments ≡ db.payments
insert_entry-payments db id none = refl
insert_entry-payments db id (some (tx_hash, stroops)) =
    record_processed_tx-payments db id tx_hash stroops

backfill_rows-payments :
    (rows : List Payment) (db : Db) → (backfill_rows rows db).payments ≡ db.payments
unfolding backfill_rows
backfill_rows-payments [] db = refl
backfill_rows-payments (p ∷ rows) db =
    backfill_rows-payments rows (insert_entry db p.id (legacy_entry p.tx_hash p.paid_amount))
    ∙ insert_entry-payments db p.id (legacy_entry p.tx_hash p.paid_amount)

pub backfill_ledger-payments : (db : Db) → (backfill_ledger db).payments ≡ db.payments
backfill_ledger-payments db = backfill_rows-payments db.payments db

-- Behind a start every transaction that an intent names is in the ledger.
pub is_recorded-backfill_ledger : (db : Db) → is_recorded (backfill_ledger db) ≡ true
is_recorded-backfill_ledger db =
    subst (λ rows. all (is_covered (backfill_ledger db).processed_transactions) rows ≡ true)
      (sym (backfill_ledger-payments db)) (backfill_rows-all db.payments db)
