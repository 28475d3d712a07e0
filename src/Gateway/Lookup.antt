-- ===== src/Gateway/Lookup.antt =====
-- src/db.rs: reading the intents by id, behind an update and behind an insert.
use stellar_gate.Prelude.{
  ◌≡◌, refl, ap, ◌∙◌, inl, inr, Bool, true, false, Option, none, some, List, [], ◌∷◌, ◌++◌, ◌==◌,
  ==_iff, ==-refl, list_eq, nat_eq, find, arith, Bool-cases, if◌then◌else◌,
}
use stellar_gate.Text.{Text}
use stellar_gate.Db.{Payment}
use stellar_gate.Db.Table.{update_where}

abbrev pub lookup : Text → List Payment → Option Payment
lookup id rows = find (λ q. q.id == id) rows

-- The primary key: no row stands behind one of its id.
abbrev pub HasDistinctIds : List Payment → Type 0
HasDistinctIds [] = Unit
HasDistinctIds (r ∷ rows) = (lookup r.id rows ≡ none) × HasDistinctIds rows

pub lookup-id :
    (id : Text) (rows : List Payment) (p : Payment) → lookup id rows ≡ some p → p.id ≡ id
lookup-id id [] p h = cc
lookup-id id (r ∷ rows) p h = ground (arith, lookup-id id rows p, ==_iff r.id id)

-- A row that some test finds is found by its id.
pub lookup-find :
    (test : Payment → Bool) (rows : List Payment) (p : Payment)
    → HasDistinctIds rows
    → find test rows ≡ some p
    → lookup p.id rows ≡ some p
lookup-find test [] p distinct h = cc
lookup-find test (r ∷ rows) p distinct h =
    ground (arith, lookup-find test rows p distinct.1, distinct.0, ==_iff r.id p.id, ==-refl p.id)

pub find-test :
    (test : Payment → Bool) (rows : List Payment) (p : Payment)
    → find test rows ≡ some p
    → test p ≡ true
find-test test [] p h = cc
find-test test (r ∷ rows) p h = ground (arith, find-test test rows p)

abbrev pub changed : (Payment → Bool) → (Payment → Payment) → Option Payment → Option Payment
changed test change none = none
changed test change (some q) = some (if test q then change q else q)

module _ (test : Payment → Bool) (change : Payment → Payment)
    (same : (q : Payment) → (change q).id ≡ q.id) where
  kept_id : (q : Payment) (b : Bool) → (if b then change q else q).id ≡ q.id
  kept_id q true = same q
  kept_id q false = refl

  pub lookup-update_where :
      (id : Text) (rows : List Payment)
      → lookup id (update_where test change rows) ≡ changed test change (lookup id rows)
  unfolding update_where
  lookup-update_where id [] = refl
  lookup-update_where id (q ∷ rows) = rw (kept_id q (test q)) (elim (Bool-cases (q.id == id)) [
    | inl e ↦ rw e refl
    | inr e ↦ rw e (lookup-update_where id rows)
  ])

  pub update_where-HasDistinctIds :
      (rows : List Payment) → HasDistinctIds rows → HasDistinctIds (update_where test change rows)
  unfolding update_where
  update_where-HasDistinctIds [] h = tt
  update_where-HasDistinctIds (q ∷ rows) h = (
    rw (kept_id q (test q)) (lookup-update_where q.id rows ∙ ap (changed test change) h.0),
    update_where-HasDistinctIds rows h.1,
  )

abbrev pub or_else : Option Payment → Option Payment → Option Payment
or_else none later = later
or_else (some p) later = some p

pub lookup-append :
    (id : Text) (rows : List Payment) (r : Payment)
    → lookup id (rows ++ r ∷ []) ≡ or_else (lookup id rows) (if r.id == id then some r else none)
lookup-append id [] r = ground arith
lookup-append id (q ∷ rows) r = ground (arith, lookup-append id rows r)

pub append-HasDistinctIds :
    (rows : List Payment) (r : Payment)
    → lookup r.id rows ≡ none
    → HasDistinctIds rows
    → HasDistinctIds (rows ++ r ∷ [])
append-HasDistinctIds [] r fresh h = (refl, tt)
append-HasDistinctIds (q ∷ rows) r fresh h = ground (
  arith,
  append-HasDistinctIds rows r,
  lookup-append q.id rows r,
  ==_iff q.id r.id,
  ==_iff r.id q.id,
  h.0,
  h.1,
)
