-- ===== src/Retention/Drained.antt =====
-- src/retention.rs, `drain`: it ends, and what it has done then.
use stellar_gate.Prelude.{
  ◌↔◌, Option-cases, and_first, and_second, and_true, lt→ltb, ℕ, zero, suc, ◌+◌, ◌*◌, ◌≤◌, ◌<◌, ◌≡◌,
  refl, ap, ◌∙◌, ◌⊎◌, inl, inr, true, false, not, ◌||◌, some, List, [], arith, min, leb, ltb,
  ltb→lt, leb→le, filterb, Bool-cases,
}
use stellar_gate.Db.{Db, WebhookDelivery, DeliveryStatus}
use stellar_gate.Db.Table.{count_where}
use stellar_gate.Db.Retention.{prune_batch, is_prunable, is_settled, prune_webhook_deliveries}
use stellar_gate.Db.Retention.Batches.{count_where-delete_up_to, filterb-delete_up_to}
use stellar_gate.Retention.{drain, drain_cycle, max_per_cycle, rounds}

stops-inversion :
    (cap n total left left' : ℕ)
    → n ≡ min prune_batch left
    → left' + n ≡ left
    → (ltb n prune_batch || leb cap (total + n)) ≡ true
    → (left' ≡ 0) ⊎ (cap ≤ total + n)
stops-inversion cap n total left left' takes counts h = elim (Bool-cases (ltb n prune_batch)) [
  | inl e ↦ inl (omega (arith, ltb→lt n prune_batch e))
  | inr e ↦ inr (leb→le cap (total + n) (rw e at h))
]

goes_on-inversion :
    (cap n total : ℕ)
    → (ltb n prune_batch || leb cap (total + n)) ≡ false
    → (prune_batch ≤ n) × (total + n < cap)
goes_on-inversion cap n total h = (ground arith, ground arith)

module _ {ℓ κ} {S : Type ℓ} {K : Type κ} (cap : ℕ) (batch : S → ℕ × S) (left : S → ℕ) (kept : S → K)
    (takes : (s : S) → (batch s).0 ≡ min prune_batch (left s))
    (counts : (s : S) → left (batch s).1 + (batch s).0 ≡ left s)
    (keeps : (s : S) → kept (batch s).1 ≡ kept s) where
  -- The loop returned `total` and `s'`: every row that it counted is gone, and either none is left or
  -- the cap is reached.
  pub record IsDrained (total : ℕ) (s : S) (total' : ℕ) (s' : S) : Type κ where
    pub balance : total' + left s' ≡ total + left s
    pub stopped : (left s' ≡ 0) ⊎ (cap ≤ total')
    pub unchanged : kept s' ≡ kept s

  pub drain-IsDrained :
      (fuel total : ℕ) (s : S)
      → total < cap
      → cap ≤ total + prune_batch * fuel
      → (r : ℕ × S) × (drain fuel cap batch total s ≡ some r) × IsDrained total s r.0 r.1
  unfolding drain
  drain-IsDrained zero total s room enough = absurd (omega arith)
  drain-IsDrained (suc fuel) total s room enough =
      let n = (batch s).0 in
      let s' = (batch s).1 in
      elim (Bool-cases (ltb n prune_batch || leb cap (total + n))) [
        | inl e ↦ (
          (total + n, s'),
          rw e,
          record {
            balance = omega (arith, counts s);
            stopped = stops-inversion cap n total (left s) (left s') (takes s) (counts s) e;
            unchanged = keeps s;
          },
        )
        | inr e ↦
            let goes_on = goes_on-inversion cap n total e in
            let ih = drain-IsDrained fuel (total + n) s' goes_on.1 (omega (arith, goes_on.0)) in
            (
              ih.0,
              rw e ih.1,
              record {
                balance = omega (arith, counts s, ih.2.balance);
                stopped = ih.2.stopped;
                unchanged = ih.2.unchanged ∙ keeps s;
              },
            )
      ]

-- The deliveries that a prune may not take, and the rest of the tables.
abbrev pub rest_of : ℕ → ℕ → Db → List WebhookDelivery × Db
rest_of now days db = (
  filterb (λ d. not (is_prunable now days d)) db.webhook_deliveries,
  record db { webhook_deliveries = [] },
)

abbrev pub prunable : ℕ → ℕ → Db → ℕ
prunable now days db = count_where (is_prunable now days) db.webhook_deliveries

-- A delivery that a prune may take: delivered, or failed and acknowledged, and made more than `days`
-- days ago.
abbrev pub MayGo : ℕ → ℕ → WebhookDelivery → Type 0
MayGo now days d =
    ((d.status ≡ DeliveryStatus.delivered)
      ⊎ ((d.status ≡ DeliveryStatus.failed) × (t : ℕ) × (d.acknowledged_at ≡ some t)))
    × (d.created_at + days * 86400 < now)

settled_iff :
    (d : WebhookDelivery) (s : DeliveryStatus)
    → (is_settled d s ≡ true) ↔ (
        (s ≡ DeliveryStatus.delivered)
        ⊎ ((s ≡ DeliveryStatus.failed) × (t : ℕ) × (d.acknowledged_at ≡ some t)))
settled_iff d DeliveryStatus.pending = (λ h. cc, λ h. elim h [ inl e ↦ cc | inr e ↦ cc (e.0) ])
settled_iff d DeliveryStatus.delivered = (λ h. inl refl, λ h. refl)
settled_iff d DeliveryStatus.failed = (
  λ h. elim (Option-cases d.acknowledged_at) [
    | inl e ↦ let k = rw e at h in cc
    | inr e ↦ inr (refl, e.0, e.1)
  ],
  λ h. elim h [ inl e ↦ cc | inr e ↦ rw (e.2) refl ],
)

is_prunable_iff :
    (now days : ℕ) (d : WebhookDelivery) → (is_prunable now days d ≡ true) ↔ MayGo now days d
is_prunable_iff now days d = (
  λ h. (
    (settled_iff d d.status).0 (and_first _ _ h),
    ltb→lt (d.created_at + days * 86400) now (and_second _ _ h),
  ),
  λ g. and_true _ _ ((settled_iff d d.status).1 g.0) (lt→ltb (d.created_at + days * 86400) now g.1),
)

-- Pruning the deliveries ends within its rounds. It takes deliveries that are delivered, or failed and
-- acknowledged, and were made more than `days` days ago; it leaves every other delivery in its place,
-- and every other table. It counts what it removes, and stops with nothing left to remove or at the
-- cap.
pub prune_webhook_deliveries-drained :
    (now days : ℕ) (db : Db)
    → (r : ℕ × Db) × (drain_cycle (prune_webhook_deliveries now days) db ≡ some r)
      × (r.0 + prunable now days r.1 ≡ prunable now days db)
      × ((prunable now days r.1 ≡ 0) ⊎ (max_per_cycle ≤ r.0))
      × (rest_of now days r.1 ≡ rest_of now days db)
      × ((d : WebhookDelivery) → (is_prunable now days d ≡ true) ↔ MayGo now days d)
unfolding prune_webhook_deliveries
prune_webhook_deliveries-drained now days db =
    let d =
      drain-IsDrained max_per_cycle (prune_webhook_deliveries now days) (prunable now days)
        (rest_of now days) (λ s. refl)
        (λ s. count_where-delete_up_to (is_prunable now days) prune_batch s.webhook_deliveries)
        (λ s.
          ap (λ rows. (rows, record s { webhook_deliveries = [] }))
            (filterb-delete_up_to (is_prunable now days) prune_batch s.webhook_deliveries))
        rounds 0 db (omega arith) (omega arith) in
    (d.0, d.1, d.2.balance ∙ omega arith, d.2.stopped, d.2.unchanged, is_prunable_iff now days)
