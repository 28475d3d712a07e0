-- ===== src/Metrics/Render/Readings.antt =====
-- src/metrics.rs: the families that `/metrics` shows can be read back, where the names of the tasks
-- are plain.
use stellar_gate.Prelude.{
  and_first, and_second, and_true, ℕ, ◌≡◌, refl, Bool, true, List, [], ◌∷◌, ◌++◌, map, all, arith,
  list_eq, nat_eq, Bool-cases, inl, inr, if◌then◌else◌,
}
use stellar_gate.Text.{Text, codes}
use stellar_gate.Text.Digits.{show, IsDigits, IsDigits-show}
use stellar_gate.Db.Listing.{text_ltb}
use stellar_gate.Health.{TaskHealth}
use stellar_gate.Metrics.{WebhookMetrics, AuthMetrics, HorizonMetrics, latency_buckets_ms}
use stellar_gate.Health.Snapshot.{
  TaskSnapshot, snapshot, snapshot_of, snapshot_names, insert_name, sort_names, contains, push_new,
}
use stellar_gate.Metrics.Render.{
  Sample, Family, labelled, bucket_samples, per_task, webhook_families, auth_families,
  task_families, horizon_families, families, render,
}
use stellar_gate.Metrics.Render.Scrape.{
  is_key, is_plain, has_keys, is_family, IsKey, scrape, reading, all_samples,
}
use stellar_gate.Metrics.Render.Scrape.Found.{scrape-text_of}

is_plain-append : (s t : Text) → is_plain s ≡ true → is_plain t ≡ true → is_plain (s ++ t) ≡ true
is_plain-append [] t hs ht = ht
is_plain-append (c ∷ s) t hs ht = ground (arith, is_plain-append s t)

is_plain-IsDigits : (s : Text) → IsDigits s → is_plain s ≡ true
is_plain-IsDigits [] h = refl
is_plain-IsDigits (c ∷ s) h = ground (arith, is_plain-IsDigits s h.1, h.0)

-- The end of a label's value.
closed :
    (value : Text) → is_plain value ≡ true → is_plain ((value ++ b'"' ∷ []) ++ b'}' ∷ []) ≡ true
closed value h =
    is_plain-append (value ++ b'"' ∷ []) (b'}' ∷ []) (is_plain-append value (b'"' ∷ []) h refl) refl

buckets_keys :
    (bounds slots : List ℕ) (more : List Sample)
    → has_keys more ≡ true
    → has_keys (bucket_samples bounds slots ++ more) ≡ true
buckets_keys bounds [] more h = h
buckets_keys [] (inf ∷ rest) more h = h
buckets_keys (bound ∷ bounds) (slot ∷ slots) more h =
    and_true _ _ (closed (show bound) (is_plain-IsDigits (show bound) (IsDigits-show bound)))
      (buckets_keys bounds slots more h)

webhook_plain : (webhook : WebhookMetrics) → all is_family (webhook_families webhook) ≡ true
webhook_plain webhook =
    and_true _ true (buckets_keys latency_buckets_ms webhook.latency_buckets _ refl) refl

auth_plain : (auth : AuthMetrics) → all is_family (auth_families auth) ≡ true
auth_plain auth = refl

horizon_plain :
    (horizon : HorizonMetrics) (tasks : TaskHealth)
    → all is_family (horizon_families horizon tasks) ≡ true
horizon_plain horizon tasks = refl

abbrev has_plain_names : List TaskSnapshot → Bool
has_plain_names snaps = all (λ snap. is_plain snap.name) snaps

-- The samples of a family for each task, by what their keys begin with.
per_task_keys :
    (name : Text) (value : TaskSnapshot → ℕ) (snaps : List TaskSnapshot)
    → ((task : Text) → is_plain task ≡ true → is_key (labelled name (codes "task") task) ≡ true)
    → has_plain_names snaps ≡ true
    → has_keys (per_task name value snaps) ≡ true
per_task_keys name value [] begins h = refl
per_task_keys name value (snap ∷ snaps) begins h =
    and_true _ _ (begins snap.name (ground (arith, h)))
      (per_task_keys name value snaps begins (ground (arith, h)))

tasks_plain :
    (snaps : List TaskSnapshot) (tasks : TaskHealth)
    → has_plain_names snaps ≡ true
    → all is_family (task_families snaps tasks) ≡ true
tasks_plain snaps tasks h =
    and_true _ _ (per_task_keys (codes "stellargate_task_restarts_total") _ snaps closed h) (
      and_true _ _ (per_task_keys (codes "stellargate_task_running") _ snaps closed h) (
        and_true _ _
          (per_task_keys (codes "stellargate_task_consecutive_failures") _ snaps closed h)
          (and_true _ _ (per_task_keys (codes "stellargate_task_disabled") _ snaps closed h) refl)))

plain_names_end :
    (names : List Text) (name : Text)
    → all is_plain names ≡ true
    → is_plain name ≡ true
    → all is_plain (names ++ name ∷ []) ≡ true
plain_names_end [] name hn h = and_true _ true h refl
plain_names_end (n ∷ names) name hn h =
    and_true _ _ (ground (arith, hn)) (plain_names_end names name (ground (arith, hn)) h)

push_new-plain :
    (names keys : List Text)
    → all is_plain names ≡ true
    → all is_plain keys ≡ true
    → all is_plain (push_new names keys) ≡ true
push_new-plain names [] hn hk = hn
push_new-plain names (key ∷ keys) hn hk =
    push_new-plain (if contains names key then names else names ++ key ∷ []) keys
      (elim (Bool-cases (contains names key)) [
        | inl e ↦ rw e hn
        | inr e ↦ rw e (plain_names_end names key hn (ground (arith, hk)))
      ])
      (ground (arith, hk))

insert_name-plain :
    (name : Text) (names : List Text)
    → is_plain name ≡ true
    → all is_plain names ≡ true
    → all is_plain (insert_name name names) ≡ true
unfolding insert_name
insert_name-plain name [] h hs = and_true _ true h refl
insert_name-plain name (n ∷ names) h hs = elim (Bool-cases (text_ltb name n)) [
  | inl e ↦ rw e (and_true _ _ h hs)
  | inr e ↦
      rw e (and_true _ _ (ground (arith, hs)) (insert_name-plain name names h (ground (arith, hs))))
]

sort_names-plain :
    (names : List Text) → all is_plain names ≡ true → all is_plain (sort_names names) ≡ true
unfolding sort_names
sort_names-plain [] h = refl
sort_names-plain (name ∷ names) h =
    insert_name-plain name (sort_names names) (ground (arith, h))
      (sort_names-plain names (ground (arith, h)))

snapshot_of-plain :
    (tasks : TaskHealth) (names : List Text)
    → all is_plain names ≡ true
    → has_plain_names (map (snapshot_of tasks) names) ≡ true
snapshot_of-plain tasks [] h = refl
snapshot_of-plain tasks (name ∷ names) h =
    and_true _ _ (ground (arith, h)) (snapshot_of-plain tasks names (ground (arith, h)))

snapshot-plain :
    (keys : List Text) (tasks : TaskHealth)
    → all is_plain tasks.required ≡ true
    → all is_plain keys ≡ true
    → has_plain_names (snapshot keys tasks) ≡ true
unfolding snapshot
snapshot-plain keys tasks hr hk =
    snapshot_of-plain tasks (snapshot_names keys tasks)
      (sort_names-plain (push_new tasks.required keys) (push_new-plain tasks.required keys hr hk))

families_append :
    (xs ys : List Family)
    → all is_family xs ≡ true
    → all is_family ys ≡ true
    → all is_family (xs ++ ys) ≡ true
families_append [] ys hx hy = hy
families_append (f ∷ xs) ys hx hy =
    and_true _ _ (and_first _ _ hx) (families_append xs ys (and_second _ _ hx) hy)

-- With a key that has no space and no line end and does not begin with `#`, and task names that
-- have no space and no line end, a reader of the text of `GET /metrics` that takes the first line
-- that begins with the key and a space reads there the decimal digits of the first sample with
-- that key, and finds no line if no sample has it.
pub scrape-render :
    (keys : List Text) (webhook : WebhookMetrics) (auth : AuthMetrics) (tasks : TaskHealth)
    (horizon : HorizonMetrics) (key : Text)
    → IsKey key
    → all is_plain tasks.required ≡ true
    → all is_plain keys ≡ true
    → scrape key (render keys webhook auth tasks horizon)
      ≡ reading key (all_samples (families keys webhook auth tasks horizon))
unfolding render
scrape-render keys webhook auth tasks horizon key hkey hr hk =
    let shown = task_families (snapshot keys tasks) tasks in
    let last = horizon_families horizon tasks in
    let plain_tasks = tasks_plain (snapshot keys tasks) tasks (snapshot-plain keys tasks hr hk) in
    scrape-text_of key (families keys webhook auth tasks horizon) hkey (
      families_append (webhook_families webhook) (auth_families auth ++ shown ++ last)
        (webhook_plain webhook)
        (families_append (auth_families auth) (shown ++ last) (auth_plain auth)
          (families_append shown last plain_tasks (horizon_plain horizon tasks))))
