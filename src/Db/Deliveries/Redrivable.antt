-- ===== src/Db/Deliveries/Redrivable.antt =====
-- src/db.rs, `list_redrivable_deliveries`: which deliveries the redrive worker gets.
use stellar_gate.Prelude.{
  and_first, and_second, ℕ, zero, suc, ◌+◌, ◌*◌, ◌^◌, ◌≤◌, ◌<◌, ◌≡◌, refl, ap, sym, subst, ◌∙◌, ◌⊎◌,
  ◌↔◌, inl, inr, Bool, true, false, ◌&&◌, Option, none, some, List, [], ◌∷◌, arith, min, max, ltb,
  leb, ltb→lt, leb→le, and_true, lt→ltb, Bool-cases, filterb, if◌then◌else◌,
}
use stellar_gate.Db.{Db, WebhookDelivery, DeliveryStatus}
use stellar_gate.Db.Table.{insert_by, order_by}
use stellar_gate.Db.Deliveries.{
  RedriveLimits, is_undelivered, redrive_window, idle_since, is_redrivable,
  list_redrivable_deliveries,
}

abbrev pub Occurs : WebhookDelivery → List WebhookDelivery → Type 0
Occurs d [] = ⊥
Occurs d (r ∷ rows) = (r ≡ d) ⊎ Occurs d rows

-- The pause behind a failure, doubled for each failure before it up to the cap.
unfoldable pub doubled : ℕ → ℕ → ℕ → ℕ
doubled initial cap zero = min initial cap
doubled initial cap (suc before) = min (2 * doubled initial cap before) cap

-- A row that was never tried waits for the grace time; 32 doublings are the most.
abbrev pub pause_of : RedriveLimits → ℕ → ℕ
pause_of l zero = l.grace_secs
pause_of l (suc before) =
    max l.grace_secs (doubled l.backoff_initial_secs l.backoff_max_secs (min before 32))

abbrev pub draw_of : RedriveLimits → ℕ → ℕ
draw_of l draw = if ltb 0 l.jitter_secs then draw else 0

-- The delivery is pending or failed, has attempts left, and its pause has passed since the last
-- attempt, or since it was made.
pub record IsDue (l : RedriveLimits) (draw now : ℕ) (d : WebhookDelivery) : Type 0 where
  pub undelivered : (d.status ≡ DeliveryStatus.pending) ⊎ (d.status ≡ DeliveryStatus.failed)
  pub attempts_left : d.attempts < l.max_attempts
  pub since : ℕ
  pub idle : (d.last_attempt ≡ some since) ⊎ ((d.last_attempt ≡ none) × (since ≡ d.created_at))
  pub waited : since + (pause_of l d.attempts + draw_of l draw) ≤ now

pow_suc : (n : ℕ) → 2 ^ suc n ≡ 2 * 2 ^ n
pow_suc n = omega arith

min_double : (a cap : ℕ) → min (2 * min a cap) cap ≡ min (2 * a) cap
min_double a cap = omega arith

mul_double : (a b : ℕ) → 2 * (a * b) ≡ a * (2 * b)
mul_double a b = omega arith

doubled_lem : (initial cap n : ℕ) → doubled initial cap n ≡ min (initial * 2 ^ n) cap
unfolding doubled
doubled_lem initial cap zero = omega arith
doubled_lem initial cap (suc n) =
    ap (λ a. min (2 * a) cap) (doubled_lem initial cap n)
    ∙ min_double (initial * 2 ^ n) cap
    ∙ ap (λ a. min a cap) (mul_double initial (2 ^ n) ∙ ap (λ k. initial * k) (sym (pow_suc n)))

redrive_window_lem :
    (l : RedriveLimits) (attempts : ℕ) → redrive_window l attempts ≡ pause_of l attempts
unfolding redrive_window
redrive_window_lem l zero = refl
redrive_window_lem l (suc before) =
    ap (max l.grace_secs)
      (sym (doubled_lem l.backoff_initial_secs l.backoff_max_secs (min before 32)))

undelivered_cases :
    (s : DeliveryStatus)
    → is_undelivered s ≡ true
    → (s ≡ DeliveryStatus.pending) ⊎ (s ≡ DeliveryStatus.failed)
undelivered_cases DeliveryStatus.pending h = inl refl
undelivered_cases DeliveryStatus.delivered h = cc
undelivered_cases DeliveryStatus.failed h = inr refl

cases_undelivered :
    (s : DeliveryStatus)
    → (s ≡ DeliveryStatus.pending) ⊎ (s ≡ DeliveryStatus.failed)
    → is_undelivered s ≡ true
cases_undelivered s (inl e) = rw e refl
cases_undelivered s (inr e) = rw e refl

le→leb : (a b : ℕ) → a ≤ b → leb a b ≡ true
le→leb a b h = ground arith

not_both : (b : Bool) → b ≡ true → b ≡ false → ⊥
not_both true h k = cc
not_both false h k = cc

-- What the row says of its last attempt.
idle_cases :
    (d : WebhookDelivery) (x : Option ℕ)
    → d.last_attempt ≡ x
    → (d.last_attempt ≡ some (idle_since d))
      ⊎ ((d.last_attempt ≡ none) × (idle_since d ≡ d.created_at))
idle_cases d none e = inr (e, rw e refl)
idle_cases d (some t) e = inl (rw e refl)

cases_idle :
    (d : WebhookDelivery) (since : ℕ)
    → (d.last_attempt ≡ some since) ⊎ ((d.last_attempt ≡ none) × (since ≡ d.created_at))
    → idle_since d ≡ since
cases_idle d since (inl e) = rw e refl
cases_idle d since (inr (e, same)) = rw e (sym same)

module _ (l : RedriveLimits) (random : WebhookDelivery → ℕ) (now : ℕ) (d : WebhookDelivery) where
  is_redrivable-IsDue : is_redrivable l random now d ≡ true → IsDue l (random d) now d
  unfolding is_redrivable
  is_redrivable-IsDue h =
      let pause = redrive_window l d.attempts + draw_of l (random d) in
      let a = and_first (is_undelivered d.status && ltb d.attempts l.max_attempts) _ h in
      record {
        undelivered = undelivered_cases d.status (and_first (is_undelivered d.status) _ a);
        attempts_left = ltb→lt d.attempts l.max_attempts (and_second (is_undelivered d.status) _ a);
        since = idle_since d;
        idle = idle_cases d d.last_attempt refl;
        waited =
            subst (λ w. idle_since d + (w + draw_of l (random d)) ≤ now)
              (redrive_window_lem l d.attempts)
              (leb→le (idle_since d + pause) now
                (and_second (is_undelivered d.status && ltb d.attempts l.max_attempts) _ h));
      }

  IsDue-is_redrivable : IsDue l (random d) now d → is_redrivable l random now d ≡ true
  unfolding is_redrivable
  IsDue-is_redrivable due =
      let same = cases_idle d due.since due.idle in
      let window = redrive_window_lem l d.attempts in
      let waited = due.waited in
      and_true _ _
        (and_true _ _ (cases_undelivered d.status due.undelivered) (lt→ltb _ _ due.attempts_left))
        (rw (same, window) (le→leb _ _ waited))

module _ (d : WebhookDelivery) (key : WebhookDelivery → ℕ) where
  Occurs-insert_by :
      (r : WebhookDelivery) (rows : List WebhookDelivery)
      → Occurs d (insert_by key r rows) ↔ Occurs d (r ∷ rows)
  unfolding insert_by
  Occurs-insert_by r [] = ((λ h. h), (λ h. h))
  Occurs-insert_by r (s ∷ rows) = elim (Bool-cases (leb (key r) (key s))) [
    | inl e ↦ rw e ((λ h. h), (λ h. h))
    | inr e ↦ rw e (
        let ih = Occurs-insert_by r rows in
        (
          (λ h. elim h [
            | inl x ↦ inr (inl x)
            | inr x ↦ elim (ih.0 x) [ inl y ↦ inl y | inr y ↦ inr (inr y) ]
          ]),
          (λ h. elim h [
            | inl x ↦ inr (ih.1 (inl x))
            | inr x ↦ elim x [ inl y ↦ inl y | inr y ↦ inr (ih.1 (inr y)) ]
          ]),
        ))
  ]

  Occurs-order_by : (rows : List WebhookDelivery) → Occurs d (order_by key rows) ↔ Occurs d rows
  unfolding order_by
  Occurs-order_by [] = ((λ h. h), (λ h. h))
  Occurs-order_by (r ∷ rows) =
      let i = Occurs-insert_by r (order_by key rows) in
      let ih = Occurs-order_by rows in
      (
        (λ h. elim (i.0 h) [ inl x ↦ inl x | inr x ↦ inr (ih.0 x) ]),
        (λ h. i.1 (elim h [ inl x ↦ inl x | inr x ↦ inr (ih.1 x) ])),
      )

Occurs-filterb :
    (d : WebhookDelivery) (test : WebhookDelivery → Bool) (rows : List WebhookDelivery)
    → Occurs d (filterb test rows) ↔ (Occurs d rows × (test d ≡ true))
Occurs-filterb d test [] = ((λ h. absurd h), (λ h. h.0))
Occurs-filterb d test (r ∷ rows) =
    let ih = Occurs-filterb d test rows in
    elim (Bool-cases (test r)) [
      | inl e ↦ rw e (
        (λ h. elim h [
          | inl x ↦ (inl x, subst (λ k. test k ≡ true) x e)
          | inr x ↦ (inr (ih.0 x).0, (ih.0 x).1)
        ]),
        (λ h. elim h.0 [ inl x ↦ inl x | inr x ↦ inr (ih.1 (x, h.1)) ]),
      )
      | inr e ↦ rw e (
        (λ h. (inr (ih.0 h).0, (ih.0 h).1)),
        (λ h. elim h.0 [
          | inl x ↦ absurd (not_both (test r) (subst (λ k. test k ≡ true) (sym x) h.1) e)
          | inr x ↦ ih.1 (x, h.1)
        ]),
      )
    ]

-- Whatever is drawn, the redrive worker gets a delivery exactly if it is in the table, is pending
-- or failed, has attempts left, and has been idle, since its last attempt or else since it was
-- made, for its pause and its draw: the grace time for a delivery that was never tried, else at
-- least that and the first backoff doubled for each failure but the first, up to the cap and 32
-- times at most.
pub list_redrivable_deliveries-IsDue :
    (db : Db) (l : RedriveLimits) (random : WebhookDelivery → ℕ) (now : ℕ) (d : WebhookDelivery)
    → Occurs d (list_redrivable_deliveries db l random now)
      ↔ (Occurs d db.webhook_deliveries × IsDue l (random d) now d)
unfolding list_redrivable_deliveries
list_redrivable_deliveries-IsDue db l random now d =
    let selected = filterb (is_redrivable l random now) db.webhook_deliveries in
    let o = Occurs-order_by d (λ r. r.created_at) selected in
    let f = Occurs-filterb d (is_redrivable l random now) db.webhook_deliveries in
    (
      (λ h. let x = f.0 (o.0 h) in (x.0, is_redrivable-IsDue l random now d x.1)),
      (λ h. o.1 (f.1 (h.0, IsDue-is_redrivable l random now d h.1))),
    )
