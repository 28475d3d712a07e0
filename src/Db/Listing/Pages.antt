-- ===== src/Db/Listing/Pages.antt =====
-- src/db.rs and src/api/payments.rs: following the cursor of each page reads the whole listing.
use mathlib.Core.List.{append-nil, append_assoc}
use stellar_gate.Prelude.{
  ℕ, zero, suc, ◌+◌, ◌≤◌, ◌<◌, ◌≡◌, refl, sym, ap, subst, ◌∙◌, Bool, true, false, Option, none,
  some, List, [], ◌∷◌, ◌++◌, arith, ◌==◌, nat_eq, filterb, take, drop, length, length-append, All,
  Bool-cases, inl, inr, if◌then◌else◌,
}
use stellar_gate.Db.Listing.{Key, newer, newest_first, is_after, keyset_page}
use stellar_gate.Db.Listing.Order.{IsNewestFirst, newer_irrefl, newer_trans, newest_first-filterb}

module _ {A : Type 0} (key : A → Key) where
  abbrev pub last_key : List A → Option Key
  last_key [] = none
  last_key (r ∷ []) = some (key r)
  last_key (r ∷ s ∷ rows) = last_key (s ∷ rows)

  -- The cursor behind a page: a page that is not full is the last one.
  unfoldable pub next_cursor : ℕ → List A → Option Key
  next_cursor limit page = if length page == limit then last_key page else none

  -- A client that asks for page after page, `fuel` times at most.
  unfoldable pub follow : (Option Key → List A) → ℕ → ℕ → Option Key → List A
  unfolding next_cursor
  follow page limit zero cursor = []
  follow page limit (suc fuel) cursor = page cursor ++ elim (next_cursor limit (page cursor)) [
    | none ↦ []
    | some c ↦ follow page limit fuel (some c)
  ]

  pub take-drop : (n : ℕ) (rows : List A) → take n rows ++ drop n rows ≡ rows
  take-drop zero rows = refl
  take-drop (suc n) [] = refl
  take-drop (suc n) (r ∷ rows) = ap (λ (t : List A). r ∷ t) (take-drop n rows)

  take-short : (n : ℕ) (rows : List A) → (length (take n rows) == n) ≡ false → take n rows ≡ rows
  take-short zero rows h = ground arith
  take-short (suc n) [] h = refl
  take-short (suc n) (r ∷ rows) h =
      ap (λ (t : List A). r ∷ t) (take-short n rows (ground (arith, h)))

  -- A page that is not empty ends in its last row.
  last_key-eq :
      (rows : List A)
      → 1 ≤ length rows
      → (front : List A) × (z : A) × (rows ≡ front ++ z ∷ []) × (last_key rows ≡ some (key z))
  last_key-eq [] h = absurd (omega arith)
  last_key-eq (r ∷ []) h = ([], r, refl, refl)
  last_key-eq (r ∷ s ∷ rows) h =
      let (front, z, e, l) = last_key-eq (s ∷ rows) (omega arith) in
      (r ∷ front, z, ap (λ (t : List A). r ∷ t) e, l)

  filterb-newer :
      (y : A) (rows : List A)
      → All (λ s. newer (key y) (key s) ≡ true) rows
      → filterb (is_after key (some (key y))) rows ≡ rows
  filterb-newer y [] h = refl
  filterb-newer y (r ∷ rows) h = rw (h.0) (ap (λ (t : List A). r ∷ t) (filterb-newer y rows h.1))

  All-middle : (P : A → Type 0) (front back : List A) (y : A) → All P (front ++ y ∷ back) → P y
  All-middle P [] back y h = h.0
  All-middle P (r ∷ front) back y h = All-middle P front back y h.1

  -- In a listing, the rows behind a row are those that a cursor at the row lets through.
  filterb-after :
      (front back : List A) (y : A)
      → IsNewestFirst key (front ++ y ∷ back)
      → filterb (is_after key (some (key y))) (front ++ y ∷ back) ≡ back
  filterb-after [] back y h = rw (newer_irrefl (key y)) (filterb-newer y back h.0)
  filterb-after (r ∷ front) back y h = elim (Bool-cases (newer (key y) (key r))) [
    | inl e ↦
        let before = All-middle (λ s. newer (key r) (key s) ≡ true) front back y h.0 in
        let round = newer_trans (key y) (key r) (key y) e before in
        let never = newer_irrefl (key y) in cc
    | inr e ↦ rw e (filterb-after front back y h.1)
  ]

  -- A cursor at the last row of a full page lets through what stands behind the page.
  pub cut :
      (limit : ℕ) (listing front rest : List A)
      → IsNewestFirst key listing
      → listing ≡ front ++ rest
      → 1 ≤ length (take limit rest)
      → (before : List A) × (c : Key) × (last_key (take limit rest) ≡ some c)
        × (listing ≡ before ++ drop limit rest)
        × (filterb (is_after key (some c)) listing ≡ drop limit rest)
  cut limit listing front rest sorted e full =
      let (init, z, q, l) = last_key-eq (take limit rest) full in
      let behind = drop limit rest in
      let whole : listing ≡ (front ++ init) ++ z ∷ behind =
        e
        ∙ ap (λ (t : List A). front ++ t)
            (sym (take-drop limit rest)
              ∙ ap (λ (t : List A). t ++ behind) q
              ∙ append_assoc init (z ∷ []) behind)
        ∙ sym (append_assoc front init (z ∷ behind)) in
      (
        (front ++ init) ++ z ∷ [],
        key z,
        l,
        whole ∙ sym (append_assoc (front ++ init) (z ∷ []) behind),
        ap (λ (t : List A). filterb (is_after key (some (key z))) t) whole
            ∙ filterb-after (front ++ init) behind z (subst (IsNewestFirst key) whole sorted),
      )

  module _ (page : Option Key → List A) (limit : ℕ) (some_rows : 1 ≤ limit) (listing : List A)
      (sorted : IsNewestFirst key listing)
      (pages : (cursor : Option Key)
        → page cursor ≡ take limit (filterb (is_after key cursor) listing)) where
    -- From a cursor that lets through what stands behind `front`.
    pub follow-rest :
        (fuel : ℕ) (cursor : Option Key) (front rest : List A)
        → listing ≡ front ++ rest
        → filterb (is_after key cursor) listing ≡ rest
        → length rest < fuel
        → follow page limit fuel cursor ≡ rest
    unfolding follow
    follow-rest zero cursor front rest e passes h = absurd (omega arith)
    follow-rest (suc fuel) cursor front rest e passes h =
        let here : page cursor ≡ take limit rest =
          pages cursor ∙ ap (λ (t : List A). take limit t) passes in
        rw here (elim (Bool-cases (length (take limit rest) == limit)) [
          | inl full ↦
              let (before, c, l, e', passes') =
                cut limit listing front rest sorted e (ground (arith, full)) in
              let ih = follow-rest fuel (some c) before (drop limit rest) e' passes' (
                ground (
                  arith,
                  full,
                  ap (length {A = A}) (take-drop limit rest),
                  length-append (take limit rest) (drop limit rest),
                  h,
                )) in
              rw (full, l, ih) (take-drop limit rest)
          | inr short ↦ rw short (append-nil (take limit rest) ∙ take-short limit rest short)
        ])

  is_after-older :
      (cursor : Option Key) (a b : A)
      → newer (key a) (key b) ≡ true
      → is_after key cursor a ≡ true
      → is_after key cursor b ≡ true
  is_after-older none a b h k = refl
  is_after-older (some c) a b h k = newer_trans c (key a) (key b) k h

  pub keyset_page-listing :
      (selected : A → Bool) (limit : ℕ) (rows : List A) (cursor : Option Key)
      → keyset_page key selected limit cursor rows
        ≡ take limit (filterb (is_after key cursor) (newest_first key (filterb selected rows)))
  keyset_page-listing selected limit rows cursor =
      ap (λ (t : List A). take limit t)
        (newest_first-filterb key (is_after key cursor) (is_after-older cursor)
          (filterb selected rows))

  -- No cursor lets every row through.
  pub filterb-none : (rows : List A) → filterb (is_after key none) rows ≡ rows
  filterb-none [] = refl
  filterb-none (r ∷ rows) = ap (λ (t : List A). r ∷ t) (filterb-none rows)

drop-nil : {A : Type 0} (n : ℕ) → drop {A = A} n [] ≡ []
drop-nil zero = refl
drop-nil (suc n) = refl

pub drop-drop : {A : Type 0} (m n : ℕ) (rows : List A) → drop m (drop n rows) ≡ drop (n + m) rows
drop-drop m zero rows = ap (λ k. drop k rows) (omega arith)
drop-drop m (suc n) [] = drop-nil m ∙ sym (drop-nil (suc n + m))
drop-drop m (suc n) (r ∷ rows) =
    let e : suc n + m ≡ suc (n + m) = omega arith in rw e (drop-drop m n rows)
