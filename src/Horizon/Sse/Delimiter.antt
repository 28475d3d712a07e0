-- ===== src/Horizon/Sse/Delimiter.antt =====
-- src/horizon.rs, `find_event_end`: more bytes never change where a complete event ends.
use stellar_gate.Prelude.{
  ℕ, ◌+◌, ◌≤◌, ◌<◌, ◌≡◌, refl, ap, sym, ◌∙◌, inl, inr, true, false, Option, none, some, List, [],
  ◌∷◌, ◌++◌, arith, ltb, ltb→lt, ◌==◌, nat_eq, Bool-cases, length,
}
use stellar_gate.Horizon.Sse.{starts_with, position_of, later, behind, earlier, find_event_end}

contradiction : false ≡ true → ⊥
contradiction e = cc

abbrev lf : List ℕ
lf = 10 ∷ 10 ∷ []

abbrev crlf : List ℕ
crlf = 13 ∷ 10 ∷ 13 ∷ 10 ∷ []

starts_with-append :
    (p s more : List ℕ) → length p ≤ length s → starts_with p (s ++ more) ≡ starts_with p s
unfolding starts_with
starts_with-append [] s more h = refl
starts_with-append (c ∷ p) [] more h = absurd (omega arith)
starts_with-append (c ∷ p) (d ∷ s) more h = elim (Bool-cases (c == d)) [
  | inl e ↦ rw e (starts_with-append p s more (omega arith))
  | inr e ↦ rw e
]

starts_with-length : (p s : List ℕ) → starts_with p s ≡ true → length p ≤ length s
unfolding starts_with
starts_with-length [] s h = omega arith
starts_with-length (c ∷ p) [] h = cc
starts_with-length (c ∷ p) (d ∷ s) h = elim (Bool-cases (c == d)) [
  | inl e ↦ omega (arith, starts_with-length p s (rw e at h))
  | inr e ↦ absurd (contradiction (rw e at h))
]

-- The index of a delimiter in `s` and in `s ++ more`: the same, where it lies inside `s`; else it is
-- not there, or it reaches past `s`.
abbrev IsStable : ℕ → List ℕ → Option ℕ → Option ℕ → Type 0
IsStable width s (some i) found = (found ≡ some i) × (i + width ≤ length s)
IsStable width s none none = Unit
IsStable width s none (some j) = length s < j + width

later-IsStable :
    (width c : ℕ) (s : List ℕ) (i j : Option ℕ)
    → IsStable width s i j
    → IsStable width (c ∷ s) (later i) (later j)
later-IsStable width c s none none h = tt
later-IsStable width c s none (some j) h = omega arith
later-IsStable width c s (some i) none h = let impossible : none ≡ some i = h.0 in cc
later-IsStable width c s (some i) (some j) h = (ap later h.0, omega (arith, h.1))

start-IsStable : (width : ℕ) (found : Option ℕ) → 0 < width → IsStable width [] none found
start-IsStable width none h = tt
start-IsStable width (some j) h = omega arith

past-IsStable :
    (width c : ℕ) (s : List ℕ) (i j : Option ℕ)
    → IsStable width s i j
    → length s + 1 < width
    → IsStable width (c ∷ s) (later i) (some 0)
past-IsStable width c s none j h past = omega arith
past-IsStable width c s (some i) j h past = absurd (omega (arith, h.1))

short :
    (p s more : List ℕ)
    → starts_with p s ≡ false
    → starts_with p (s ++ more) ≡ true
    → length s < length p
short p s more e e' = elim (Bool-cases (ltb (length s) (length p))) [
  | inl lt ↦ ltb→lt _ _ lt
  | inr ge ↦ absurd (contradiction (sym e ∙ sym (starts_with-append p s more (ground arith)) ∙ e'))
]

position_of-IsStable :
    (p s more : List ℕ)
    → 0 < length p
    → IsStable (length p) s (position_of p s) (position_of p (s ++ more))
unfolding position_of
position_of-IsStable p [] more h = start-IsStable (length p) (position_of p more) h
position_of-IsStable p (c ∷ s) more h = elim (Bool-cases (starts_with p (c ∷ s))) [
  | inl e ↦
      let inside = starts_with-length p (c ∷ s) e in
      rw (e, starts_with-append p (c ∷ s) more inside, e) (refl, omega (arith, inside))
  | inr e ↦ elim (Bool-cases (starts_with p (c ∷ (s ++ more)))) [
    | inl e' ↦
        rw (e, e')
          (past-IsStable (length p) c s (position_of p s) (position_of p (s ++ more))
            (position_of-IsStable p s more h) (omega (arith, short p (c ∷ s) more e e')))
    | inr e' ↦
        rw (e, e')
          (later-IsStable (length p) c s (position_of p s) (position_of p (s ++ more))
            (position_of-IsStable p s more h))
  ]
]

-- The end of an event: the earlier one of two delimiters of two and four bytes.
abbrev IsEnd : List ℕ → Option ℕ → Option ℕ → Type 0
IsEnd s (some end) found = (found ≡ some end) × (0 < end) × (end ≤ length s)
IsEnd s none found = Unit

earlier-IsEnd :
    (s : List ℕ) (a b a' b' : Option ℕ)
    → IsStable 2 s a a'
    → IsStable 4 s b b'
    → IsEnd s (earlier (behind 2 a) (behind 4 b)) (earlier (behind 2 a') (behind 4 b'))
earlier-IsEnd s none none a' b' p q = tt
earlier-IsEnd s (some a) none a' none p q = rw (p.0) (refl, omega arith, omega (arith, p.1))
earlier-IsEnd s (some a) none a' (some b') p q =
    rw (p.0) (ap some (omega (arith, p.1, q)), omega arith, omega (arith, p.1))
earlier-IsEnd s none (some b) none b' p q = rw (q.0) (refl, omega arith, omega (arith, q.1))
earlier-IsEnd s none (some b) (some a') b' p q =
    rw (q.0) (ap some (omega (arith, q.1, p)), omega arith, omega (arith, q.1))
earlier-IsEnd s (some a) (some b) a' b' p q =
    rw (p.0, q.0) (refl, omega arith, omega (arith, p.1, q.1))

-- An event that is complete in `s` ends at the same byte when more bytes follow.
pub find_event_end-append :
    (s more : List ℕ) (end : ℕ)
    → find_event_end s ≡ some end
    → (find_event_end (s ++ more) ≡ some end) × (0 < end) × (end ≤ length s)
unfolding find_event_end
find_event_end-append s more end h = rw h at (
    earlier-IsEnd s (position_of lf s) (position_of crlf s) (position_of lf (s ++ more))
      (position_of crlf (s ++ more)) (position_of-IsStable lf s more (omega arith))
      (position_of-IsStable crlf s more (omega arith)))
