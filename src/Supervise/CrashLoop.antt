-- ===== src/Supervise/CrashLoop.antt =====
-- src/supervise.rs: a task that panics again and again.
use native.Mathlib.Nat.{mod-eq_of_lt}
use stellar_gate.Prelude.{
  ℕ, zero, suc, ◌+◌, ◌*◌, ◌^◌, ◌%◌, ◌≤◌, ◌<◌, ◌≡◌, refl, ap, sym, subst, ◌∙◌, true, false, Option,
  some, List, [], ◌∷◌, arith, replicate, min, ==-refl, list_eq, nat_eq, if◌then◌else◌,
}
use stellar_gate.Text.{Text}
use stellar_gate.Health.{TaskHealth, task_started, task_failed, task_restarted, or_zero, insert}
use stellar_gate.Supervise.{Backoff, Round, Supervisor, panicked, begin, round, supervise_with}

-- A round in which the child panics before it counts as stable.
abbrev pub panic : Round
panic = record {
  shut_before = false;
  marked_stable = false;
  ending = some panicked;
  shut_after = false;
  shut_waiting = false;
}

-- The delay behind `k` restarts.
abbrev pub capped : Backoff → ℕ → ℕ
capped backoff k = min (backoff.initial * 2 ^ k) backoff.maximum

-- The delays of the first `k` restarts, the last first.
abbrev pub delays : Backoff → ℕ → List ℕ
delays backoff zero = []
delays backoff (suc k) = capped backoff k ∷ delays backoff k

-- The loop goes on behind `k` panics in a row, with `failures` failures counted before them.
pub record HasPanicked (backoff : Backoff) (name : Text) (failures k : ℕ) (s : Supervisor)
    : Type 0 where
  pub looping : s.looping ≡ true
  pub counted : or_zero (s.health.consecutive_failures name) ≡ failures + k
  pub delay : s.delay ≡ capped backoff k
  pub waits : s.waits ≡ delays backoff k

doubled :
    (initial maximum k : ℕ)
    → min (min (initial * 2 ^ k) maximum * 2) maximum ≡ min (initial * 2 ^ suc k) maximum
doubled initial maximum k =
    let e : initial * 2 ^ suc k ≡ initial * 2 ^ k * 2 = grind arith in omega (arith, e)

count-insert : (name : Text) (n : ℕ) (m : Text → Option ℕ) → or_zero (insert name n m name) ≡ n
count-insert name n m = rw (==-refl name)

module _ (backoff : Backoff) (name : Text) (failures : ℕ) where
  round-HasPanicked :
      (k : ℕ) (s : Supervisor)
      → failures + suc k < 2 ^ 32
      → HasPanicked backoff name failures k s
      → HasPanicked backoff name failures (suc k) (round backoff name panic s)
  unfolding round task_started task_failed task_restarted
  round-HasPanicked k s fits p = record {
    looping = p.looping;
    counted =
        count-insert name _ s.health.consecutive_failures
        ∙ ap (λ c. (c + 1) % 2 ^ 32) p.counted
        ∙ mod-eq_of_lt (omega arith)
        ∙ omega arith;
    delay =
        ap (λ d. min (d * 2) backoff.maximum) p.delay ∙ doubled backoff.initial backoff.maximum k;
    waits = rw (p.delay, p.waits);
  }

  supervise_with-looping :
      (script : List Round) (s : Supervisor)
      → s.looping ≡ true
      → supervise_with backoff name (panic ∷ script) s
        ≡ supervise_with backoff name script (round backoff name panic s)
  unfolding supervise_with
  supervise_with-looping script s e =
      ap (λ b. if b then supervise_with backoff name script (round backoff name panic s) else s) e

  from-HasPanicked :
      (n k : ℕ) (s : Supervisor)
      → failures + (k + n) < 2 ^ 32
      → HasPanicked backoff name failures k s
      → HasPanicked backoff name failures
          (k + n)
          (supervise_with backoff name (replicate n panic) s)
  unfolding supervise_with
  from-HasPanicked zero k s fits p =
      subst (λ i. HasPanicked backoff name failures i s) (omega arith) p
  from-HasPanicked (suc n) k s fits p =
      subst (λ s'. HasPanicked backoff name failures (k + suc n) s')
        (sym (supervise_with-looping (replicate n panic) s p.looping))
        (subst
          (λ i.
            HasPanicked backoff name failures i
              (supervise_with backoff name (replicate n panic) (round backoff name panic s)))
          (omega arith)
          (from-HasPanicked n (suc k) (round backoff name panic s) (omega arith)
            (round-HasPanicked k s (omega arith) p)))

-- After `n` panics in a row, with an initial delay at most the cap and room in the counter, the
-- loop still goes on, each panic is counted, and the waits doubled from the initial delay up to
-- the cap.
pub supervise_with-panics :
    (backoff : Backoff) (name : Text) (h : TaskHealth) (n : ℕ)
    → backoff.initial ≤ backoff.maximum
    → or_zero (h.consecutive_failures name) + n < 2 ^ 32
    → HasPanicked backoff name
        (or_zero (h.consecutive_failures name))
        n
        (supervise_with backoff name (replicate n panic) (begin backoff h))
supervise_with-panics backoff name h n sane fits =
    let failures = or_zero (h.consecutive_failures name) in
    let start : HasPanicked backoff name failures 0 (begin backoff h) = record {
      looping = refl;
      counted = omega arith;
      delay = omega arith;
      waits = refl;
    } in
    subst
      (λ k.
        HasPanicked backoff name failures k
          (supervise_with backoff name (replicate n panic) (begin backoff h)))
      (omega arith)
      (from-HasPanicked backoff name failures n 0 (begin backoff h) (omega arith) start)
