-- ===== src/Health/Snapshot.antt =====
-- src/lib.rs, `TaskHealth::snapshot`. The keys of the four maps, in whatever order a `HashMap` has
-- them, are a parameter.
use stellar_gate.Prelude.{
  ℕ, Bool, false, ◌||◌, Option, List, [], ◌∷◌, ◌++◌, map, ◌==◌, list_eq, nat_eq, if◌then◌else◌,
}
use stellar_gate.Text.{Text}
use stellar_gate.Db.Listing.{text_ltb}
use stellar_gate.Health.{TaskHealth, or_zero, is_running}

pub record TaskSnapshot : Type 0 where
  pub name : Text
  pub running : Bool
  pub restarts : ℕ
  pub consecutive_failures : ℕ
  pub disabled_reason : Option Text

-- `Vec::contains`
abbrev pub contains : List Text → Text → Bool
contains [] name = false
contains (n ∷ names) name = n == name || contains names name

abbrev pub push_new : List Text → List Text → List Text
push_new names [] = names
push_new names (key ∷ keys) =
    push_new (if contains names key then names else names ++ key ∷ []) keys

-- `sort_unstable`, by the order of texts.
unfoldable pub insert_name : Text → List Text → List Text
insert_name name [] = name ∷ []
insert_name name (n ∷ names) =
    let rest = n ∷ insert_name name names in if text_ltb name n then name ∷ n ∷ names else rest

unfoldable pub sort_names : List Text → List Text
sort_names [] = []
sort_names (name ∷ names) = insert_name name (sort_names names)

abbrev pub snapshot_of : TaskHealth → Text → TaskSnapshot
snapshot_of h name = record {
  name = name;
  running = is_running h name;
  restarts = or_zero (h.restarts name);
  consecutive_failures = or_zero (h.consecutive_failures name);
  disabled_reason = h.disabled name;
}

abbrev pub snapshot_names : List Text → TaskHealth → List Text
snapshot_names keys h = sort_names (push_new h.required keys)

unfoldable pub snapshot : List Text → TaskHealth → List TaskSnapshot
snapshot keys h = map (snapshot_of h) (snapshot_names keys h)
