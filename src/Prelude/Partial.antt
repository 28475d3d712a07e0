-- ===== src/Prelude/Partial.antt =====
-- Functions into `Option` with Rust's `?` and early returns of `None`, and the inversion of a result.
use mathlib.Core.Path.{◌≡◌, refl}
use mathlib.Core.Bool.{Bool, true, false}
use mathlib.Core.Option.{Option, none, some}
use stellar_gate.Prelude.Tests.{if◌then◌else◌}

-- The `?` operator on an option.
infixl 5 ◌>>=◌ ◌>>◌
abbrev pub ◌>>=◌ {ℓ κ} : {A : Type ℓ} {B : Type κ} → Option A → (A → Option B) → Option B
none >>= f = none
some a >>= f = f a

-- Early returns of `None`: `if !b { return None; }` and `if b { return None; }`.
abbrev pub ensure : Bool → Option (Unit {0})
ensure b = if b then some tt else none

abbrev pub reject_if : Bool → Option (Unit {0})
reject_if b = if b then none else some tt

abbrev pub ◌>>◌ {ℓ} : {B : Type ℓ} → Option (Unit {0}) → Option B → Option B
m >> k = m >>= λ _. k

pub >>=-eq_some {ℓ κ} :
    {A : Type ℓ} {B : Type κ} (m : Option A) (f : A → Option B) {b : B}
    → (m >>= f) ≡ some b
    → (a : A) × (m ≡ some a) × (f a ≡ some b)
>>=-eq_some none f h = cc
>>=-eq_some (some a) f h = (a, refl, h)

pub ensure-eq_some {ℓ} :
    {B : Type ℓ} (t : Bool) (k : Option B) {b : B}
    → (ensure t >> k) ≡ some b
    → (t ≡ true) × (k ≡ some b)
ensure-eq_some true k h = (refl, h)
ensure-eq_some false k h = cc

pub reject_if-eq_some {ℓ} :
    {B : Type ℓ} (t : Bool) (k : Option B) {b : B}
    → (reject_if t >> k) ≡ some b
    → (t ≡ false) × (k ≡ some b)
reject_if-eq_some true k h = cc
reject_if-eq_some false k h = (refl, h)
