-- ===== src/Webhook/Attempts.antt =====
-- src/webhook.rs, `dispatch`: how many requests one delivery sends, and what it leaves behind.
use stellar_gate.Prelude.{
  ℕ, zero, suc, ◌+◌, ◌-◌, ◌≤◌, ◌<◌, ◌≡◌, refl, ap, ◌∙◌, Bool, true, false, List, ◌∷◌, ◌++◌, arith,
  replicate, ltb, lt→ltb, ◌^◌, if◌then◌else◌,
}
use stellar_gate.Db.{DeliveryStatus}
use stellar_gate.Metrics.{record_retry, record_delivered, record_failed}
use stellar_gate.Webhook.{Env, Request, Outbound, is_success, attempt_loop, finish, post, retried}

replicate-append {ℓ} :
    {A : Type ℓ} (k : ℕ) (a : A) (xs : List A) → replicate k a ++ a ∷ xs ≡ a ∷ (replicate k a ++ xs)
replicate-append zero a xs = refl
replicate-append (suc k) a xs = ap (λ ys. a ∷ ys) (replicate-append k a xs)

-- No attempt from `first` on, `count` of them, was answered with success.
abbrev pub AllFail : Env → ℕ → ℕ → Type 0
AllFail env first count =
    (j : ℕ) → first ≤ j → j < first + count → is_success (env.respond j) ≡ false

-- What `k` requests of one delivery leave: the counters of the retries and the requests.
abbrev pub IsTried : Request → ℕ → Outbound → Outbound → Type 0
IsTried request k o o' =
    (o'.sent ≡ replicate k request ++ o.sent)
    × (o'.metrics.delivered ≡ o.metrics.delivered)
    × (o'.metrics.failed ≡ o.metrics.failed)
    × (o'.db ≡ o.db)

module _ (env : Env) (request : Request) where
  -- The state after the requests of `left` failed attempts.
  abbrev pub tried : ℕ → ℕ → Outbound → Outbound
  tried zero attempt o = o
  tried (suc left) attempt o =
      tried left (attempt + 1) (post request (if ltb 1 attempt then retried o else o))

  pub attempt_loop-failed :
      (left attempt : ℕ) (o : Outbound)
      → AllFail env attempt left
      → attempt_loop env request left attempt o
        ≡ finish env DeliveryStatus.failed record_failed (attempt + left - 1) (tried left attempt o)
  unfolding attempt_loop
  attempt_loop-failed zero attempt o h =
      ap (λ n. finish env DeliveryStatus.failed record_failed n o) (omega arith)
  attempt_loop-failed (suc left) attempt o h =
      let o' = post request (if ltb 1 attempt then retried o else o) in
      rw (h attempt (omega arith) (omega arith)) (
        attempt_loop-failed left (attempt + 1) o' (λ j lo hi. h j (omega arith) (omega arith))
        ∙ ap (λ n. finish env DeliveryStatus.failed record_failed n (tried left (attempt + 1) o'))
            (omega arith))

  pub attempt_loop-delivered :
      (left attempt failures : ℕ) (o : Outbound)
      → AllFail env attempt failures
      → is_success (env.respond (attempt + failures)) ≡ true
      → failures < left
      → attempt_loop env request left attempt o
        ≡ finish env DeliveryStatus.delivered record_delivered
            (attempt + failures)
            (tried (suc failures) attempt o)
  unfolding attempt_loop
  attempt_loop-delivered zero attempt failures o h good room = absurd (omega arith)
  attempt_loop-delivered (suc left) attempt zero o h good room =
      let e : attempt + 0 ≡ attempt = omega arith in rw (rw e at good, e)
  attempt_loop-delivered (suc left) attempt (suc failures) o h good room =
      let o' = post request (if ltb 1 attempt then retried o else o) in
      let e : attempt + suc failures ≡ attempt + 1 + failures = omega arith in
      rw (h attempt (omega arith) (omega arith), e)
        (attempt_loop-delivered left (attempt + 1) failures o'
          (λ j lo hi. h j (omega arith) (omega arith)) (rw e at good) (omega arith))

  step-IsTried :
      (again : Bool) (o : Outbound)
      → let o' = post request (if again then retried o else o) in
        (o'.metrics.delivered ≡ o.metrics.delivered)
        × (o'.metrics.failed ≡ o.metrics.failed)
        × (o'.db ≡ o.db)
        × (o'.sent ≡ request ∷ o.sent)
  unfolding record_retry
  step-IsTried true o = (refl, refl, refl, refl)
  step-IsTried false o = (refl, refl, refl, refl)

  -- The requests of one delivery go out one after the other and change no row and no outcome.
  pub tried-IsTried : (k attempt : ℕ) (o : Outbound) → IsTried request k o (tried k attempt o)
  tried-IsTried zero attempt o = (refl, refl, refl, refl)
  tried-IsTried (suc k) attempt o =
      let ih =
        tried-IsTried k (attempt + 1) (post request (if ltb 1 attempt then retried o else o)) in
      let s = step-IsTried (ltb 1 attempt) o in
      (
        ih.0 ∙ ap (λ xs. replicate k request ++ xs) s.3 ∙ replicate-append k request o.sent,
        ih.1 ∙ s.0,
        ih.2 ∙ s.1,
        ih.3 ∙ s.2,
      )

  retried-later :
      (k attempt : ℕ) (o : Outbound)
      → 1 < attempt
      → o.metrics.retried + k < 2 ^ 64
      → (tried k attempt o).metrics.retried ≡ o.metrics.retried + k
  unfolding record_retry
  retried-later zero attempt o h fits = omega arith
  retried-later (suc k) attempt o h fits =
      let o' = post request (retried o) in
      let e : o'.metrics.retried ≡ o.metrics.retried + 1 = omega arith in
      rw (lt→ltb 1 attempt h, tried)
        (omega (arith, e, retried-later k (attempt + 1) o' (omega arith) (omega (arith, e))))

  -- Every request after the first one is counted as a retry.
  pub retried-tried :
      (k : ℕ) (o : Outbound)
      → o.metrics.retried + k < 2 ^ 64
      → (tried (suc k) 1 o).metrics.retried ≡ o.metrics.retried + k
  retried-tried k o fits = retried-later k 2 (post request o) (omega arith) fits
