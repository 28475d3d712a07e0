-- ===== src/Db/Listing/Order.antt =====
-- src/db.rs: the order of the listings is strict and total on rows with distinct ids, and sorting by
-- it goes with the test of a cursor.
use stellar_gate.Prelude.{
  ◌≡◌, refl, Bool, true, false, List, [], ◌∷◌, arith, ◌==◌, ==_iff, list_eq, nat_eq, filterb, All,
  Bool-cases, inl, inr, if◌then◌else◌,
}
use stellar_gate.Text.{Text}
use stellar_gate.Db.Listing.{text_ltb, Key, newer, insert_newest, newest_first}

text_ltb_irrefl : (s : Text) → text_ltb s s ≡ false
unfolding text_ltb
text_ltb_irrefl [] = refl
text_ltb_irrefl (c ∷ s) = ground (arith, text_ltb_irrefl s)

text_ltb_trans : (s t u : Text) → text_ltb s t ≡ true → text_ltb t u ≡ true → text_ltb s u ≡ true
unfolding text_ltb
text_ltb_trans s t [] h k = cc
text_ltb_trans s [] (e ∷ u) h k = ground arith
text_ltb_trans [] (d ∷ t) (e ∷ u) h k = refl
text_ltb_trans (c ∷ s) (d ∷ t) (e ∷ u) h k = ground (arith, text_ltb_trans s t u)

text_ltb_total : (s t : Text) → text_ltb s t ≡ false → text_ltb t s ≡ false → s ≡ t
unfolding text_ltb
text_ltb_total [] [] h k = refl
text_ltb_total [] (d ∷ t) h k = cc
text_ltb_total (c ∷ s) [] h k = cc
text_ltb_total (c ∷ s) (d ∷ t) h k = ground (arith, text_ltb_total s t)

pub newer_irrefl : (a : Key) → newer a a ≡ false
unfolding newer
newer_irrefl (ts, id) = ground (arith, text_ltb_irrefl ts, text_ltb_irrefl id)

pub newer_trans : (a b c : Key) → newer a b ≡ true → newer b c ≡ true → newer a c ≡ true
unfolding newer
newer_trans (ts, i) (ts', i') (ts'', i'') h k = ground (
  arith,
  text_ltb_trans ts'' ts' ts,
  text_ltb_trans i'' i' i,
  ==_iff ts' ts,
  ==_iff ts'' ts',
  ==_iff ts'' ts,
)

pub newer_total : (a b : Key) → (a.1 == b.1) ≡ false → newer a b ≡ false → newer b a ≡ true
unfolding newer
newer_total (ts, i) (ts', i') distinct h =
    ground
      (arith, text_ltb_total ts ts', text_ltb_total i i', ==_iff ts ts', ==_iff ts' ts, ==_iff i i')

-- Each row stands in front of all that follow.
abbrev pub IsNewestFirst : {A : Type 0} → (A → Key) → List A → Type 0
IsNewestFirst key [] = Unit
IsNewestFirst key (r ∷ rows) = All (λ s. newer (key r) (key s) ≡ true) rows × IsNewestFirst key rows

-- No two rows have one id.
abbrev pub HasDistinctIds : {A : Type 0} → (A → Key) → List A → Type 0
HasDistinctIds key [] = Unit
HasDistinctIds key (r ∷ rows) =
    All (λ s. ((key r).1 == (key s).1) ≡ false) rows × HasDistinctIds key rows

All-filterb :
    {A : Type 0} (P : A → Type 0) (p : A → Bool) (rows : List A)
    → All P rows
    → All P (filterb p rows)
All-filterb P p [] h = tt
All-filterb P p (r ∷ rows) h = ground (arith, All-filterb P p rows h.1, h.0)

module _ {A : Type 0} (key : A → Key) where
  pub HasDistinctIds-filterb :
      (p : A → Bool) (rows : List A) → HasDistinctIds key rows → HasDistinctIds key (filterb p rows)
  HasDistinctIds-filterb p [] h = tt
  HasDistinctIds-filterb p (r ∷ rows) h = elim (Bool-cases (p r)) [
    | inl e ↦ rw e (
      All-filterb (λ s. ((key r).1 == (key s).1) ≡ false) p rows h.0,
      HasDistinctIds-filterb p rows h.1,
    )
    | inr e ↦ rw e (HasDistinctIds-filterb p rows h.1)
  ]

  All-insert_newest :
      (P : A → Type 0) (r : A) (rows : List A) → P r → All P rows → All P (insert_newest key r rows)
  unfolding insert_newest
  All-insert_newest P r [] h hs = (h, tt)
  All-insert_newest P r (s ∷ rows) h hs = elim (Bool-cases (newer (key r) (key s))) [
    | inl e ↦ rw e (h, hs)
    | inr e ↦ rw e (hs.0, All-insert_newest P r rows h hs.1)
  ]

  All-newest_first : (P : A → Type 0) (rows : List A) → All P rows → All P (newest_first key rows)
  unfolding newest_first
  All-newest_first P [] h = tt
  All-newest_first P (r ∷ rows) h =
      All-insert_newest P r (newest_first key rows) h.0 (All-newest_first P rows h.1)

  All-newer :
      (r s : A) (rows : List A)
      → newer (key r) (key s) ≡ true
      → All (λ t. newer (key s) (key t) ≡ true) rows
      → All (λ t. newer (key r) (key t) ≡ true) rows
  All-newer r s [] e h = tt
  All-newer r s (t ∷ rows) e h =
      (newer_trans (key r) (key s) (key t) e h.0, All-newer r s rows e h.1)

  insert_newest-IsNewestFirst :
      (r : A) (rows : List A)
      → All (λ s. ((key r).1 == (key s).1) ≡ false) rows
      → IsNewestFirst key rows
      → IsNewestFirst key (insert_newest key r rows)
  unfolding insert_newest
  insert_newest-IsNewestFirst r [] distinct h = (tt, tt)
  insert_newest-IsNewestFirst r (s ∷ rows) distinct h = elim (Bool-cases (newer (key r) (key s))) [
    | inl e ↦ rw e ((e, All-newer r s rows e h.0), h)
    | inr e ↦ rw e (
      All-insert_newest (λ t. newer (key s) (key t) ≡ true) r rows
          (newer_total (key r) (key s) distinct.0 e) h.0,
      insert_newest-IsNewestFirst r rows distinct.1 h.1,
    )
  ]

  pub newest_first-IsNewestFirst :
      (rows : List A) → HasDistinctIds key rows → IsNewestFirst key (newest_first key rows)
  unfolding newest_first
  newest_first-IsNewestFirst [] h = tt
  newest_first-IsNewestFirst (r ∷ rows) h =
      insert_newest-IsNewestFirst r (newest_first key rows)
        (All-newest_first (λ s. ((key r).1 == (key s).1) ≡ false) rows h.0)
        (newest_first-IsNewestFirst rows h.1)

  -- A test that each older row passes with a row goes through the sort.
  filterb-insert_newest :
      (p : A → Bool) (older : (a b : A) → newer (key a) (key b) ≡ true → p a ≡ true → p b ≡ true)
      (r : A) (rows : List A)
      → filterb p (insert_newest key r rows)
        ≡ (if p r then insert_newest key r (filterb p rows) else filterb p rows)
  unfolding insert_newest
  filterb-insert_newest p older r [] = ground arith
  filterb-insert_newest p older r (s ∷ rows) =
      ground (arith, filterb-insert_newest p older r rows, older r s)

  pub newest_first-filterb :
      (p : A → Bool) (older : (a b : A) → newer (key a) (key b) ≡ true → p a ≡ true → p b ≡ true)
      (rows : List A)
      → newest_first key (filterb p rows) ≡ filterb p (newest_first key rows)
  unfolding newest_first
  newest_first-filterb p older [] = refl
  newest_first-filterb p older (r ∷ rows) = ground (
    arith,
    filterb-insert_newest p older r (newest_first key rows),
    newest_first-filterb p older rows,
  )
