-- ===== src/Db/Retention/Batches.antt =====
-- src/db.rs: what one batch of a prune takes and leaves.
use stellar_gate.Prelude.{
  ℕ, zero, suc, ◌+◌, ◌≡◌, refl, ap, inl, inr, Bool, not, List, [], ◌∷◌, arith, min, filterb,
  Bool-cases,
}
use stellar_gate.Db.Table.{count_where}
use stellar_gate.Db.Retention.{delete_up_to}

module _ {ℓ} {A : Type ℓ} (test : A → Bool) where
  pub count_where-delete_up_to :
      (n : ℕ) (rows : List A)
      → count_where test (delete_up_to test n rows) + min n (count_where test rows)
        ≡ count_where test rows
  unfolding count_where delete_up_to
  count_where-delete_up_to n [] = omega arith
  count_where-delete_up_to zero (r ∷ rows) = omega arith
  count_where-delete_up_to (suc n) (r ∷ rows) = elim (Bool-cases (test r)) [
    | inl e ↦ rw e (omega (arith, count_where-delete_up_to n rows))
    | inr e ↦ rw (e, e) (omega (arith, count_where-delete_up_to (suc n) rows))
  ]

  -- The rows that the test does not select are left, in their order.
  pub filterb-delete_up_to :
      (n : ℕ) (rows : List A)
      → filterb (λ r. not (test r)) (delete_up_to test n rows) ≡ filterb (λ r. not (test r)) rows
  unfolding delete_up_to
  filterb-delete_up_to n [] = refl
  filterb-delete_up_to zero (r ∷ rows) = refl
  filterb-delete_up_to (suc n) (r ∷ rows) = elim (Bool-cases (test r)) [
    | inl e ↦ rw e (filterb-delete_up_to n rows)
    | inr e ↦ rw (e, e) (ap (λ rs. r ∷ rs) (filterb-delete_up_to (suc n) rows))
  ]
