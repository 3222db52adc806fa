-- ===== src/Metabolism/Retention.antt =====
-- metabolism/policy.py: retention classes and their cooling schedules.
use mirror_memory.Prelude.{
  ℕ, String, ◌≡◌, refl, Bool, true, false, Option, none, some, List, [], ◌∷◌, arith, inl, inr,
  Bool-cases, if◌then◌else◌,
}
use mirror_memory.Prelude.Text.{str_eq, one_of}
use mirror_memory.Prelude.Dict.{Dict, get}

-- `none` means that the runtime never moves the class on age alone.
pub record RetentionPolicy : Type 0 where
  pub cool_after_days : Option ℕ
  pub archive_after_days : Option ℕ

abbrev pub retention_classes : List String
retention_classes = "canonical" ∷ "preference" ∷ "behavioral" ∷ "episodic" ∷ "transient" ∷ []

abbrev pub default_retention_policies : Dict RetentionPolicy
default_retention_policies =
    ("canonical", record { cool_after_days = none; archive_after_days = none })
    ∷ ("preference", record { cool_after_days = some 180; archive_after_days = some 720 })
    ∷ ("behavioral", record { cool_after_days = some 60; archive_after_days = some 180 })
    ∷ ("episodic", record { cool_after_days = some 30; archive_after_days = some 90 })
    ∷ ("transient", record { cool_after_days = some 7; archive_after_days = some 30 })
    ∷ []

abbrev pub default_behavioral_predicates : List String
default_behavioral_predicates = "wants_to" ∷ "plans_to" ∷ "hopes_to" ∷ []

-- The rules after the override, in the order of the source.
derived_class : String → String → String → String
derived_class predicate cardinality lifecycle_state =
    if str_eq lifecycle_state ""
    then (if one_of predicate default_behavioral_predicates
        then "behavioral"
        else if str_eq cardinality "event"
        then "episodic"
        else if str_eq cardinality "single"
        then "canonical"
        else "preference")
    else "behavioral"

-- `override in RETENTION_CLASSES`, where a missing override is none of them
with_override : Option String → String → String
with_override none derived = derived
with_override (some class) derived = if one_of class retention_classes then class else derived

unfoldable pub classify_retention : String → String → String → Dict String → String
unfolding derived_class with_override
classify_retention predicate cardinality lifecycle_state overrides =
    with_override (get overrides predicate) (derived_class predicate cardinality lifecycle_state)

-- `policies or DEFAULT_RETENTION_POLICIES`: an empty table counts as none
abbrev pub policy_table : Dict RetentionPolicy → Dict RetentionPolicy
policy_table [] = default_retention_policies
policy_table (e ∷ rest) = e ∷ rest

abbrev pub get_or : Option RetentionPolicy → RetentionPolicy → RetentionPolicy
get_or none p = p
get_or (some q) p = q

-- The default of `table.get` is evaluated first, so a table with no preference class raises
-- KeyError (`none`) whatever class is asked for.
unfoldable pub retention_policy_for : String → Dict RetentionPolicy → Option RetentionPolicy
retention_policy_for class policies = elim (get (policy_table policies) "preference") [
  | none ↦ none
  | some fallback ↦ some (get_or (get (policy_table policies) class) fallback)
]

abbrev IsKnown : String → Type 0
IsKnown class = one_of class retention_classes ≡ true

if-IsKnown : (b : Bool) (x y : String) → IsKnown x → IsKnown y → IsKnown (if b then x else y)
if-IsKnown true x y h k = h
if-IsKnown false x y h k = k

derived_class-IsKnown : (p c l : String) → IsKnown (derived_class p c l)
unfolding derived_class
derived_class-IsKnown p c l =
    if-IsKnown (str_eq l "") _ _
      (if-IsKnown (one_of p default_behavioral_predicates) _ _ refl
        (if-IsKnown (str_eq c "event") _ _ refl (if-IsKnown (str_eq c "single") _ _ refl refl)))
      refl

with_override-IsKnown : (o : Option String) (d : String) → IsKnown d → IsKnown (with_override o d)
unfolding with_override
with_override-IsKnown none d h = h
with_override-IsKnown (some class) d h = elim (Bool-cases (one_of class retention_classes)) [
  | inl e ↦ rw e e
  | inr e ↦ rw e h
]

-- Every claim gets one of the five classes, whatever its texts and the overrides are.
classify_retention-known :
    (predicate cardinality lifecycle_state : String) (overrides : Dict String)
    → one_of (classify_retention predicate cardinality lifecycle_state overrides) retention_classes
      ≡ true
unfolding classify_retention
classify_retention-known p c l overrides =
    with_override-IsKnown (get overrides p) (derived_class p c l) (derived_class-IsKnown p c l)

-- A table without the preference class raises for every class, also for one that it configures.
pub retention_policy_for-no_preference :
    (class : String) (e : String × RetentionPolicy) (rest : Dict RetentionPolicy)
    → get (e ∷ rest) "preference" ≡ none
    → retention_policy_for class (e ∷ rest) ≡ none
unfolding retention_policy_for
retention_policy_for-no_preference class e rest h = ground (arith)

-- With a preference class the lookup never raises.
pub retention_policy_for-total :
    (class : String) (policies : Dict RetentionPolicy) (p : RetentionPolicy)
    → get (policy_table policies) "preference" ≡ some p
    → (q : RetentionPolicy) × (retention_policy_for class policies ≡ some q)
unfolding retention_policy_for
retention_policy_for-total class policies p h =
    (get_or (get (policy_table policies) class) p, ground arith)

-- In a table with a preference class, a class that is not in the table gets the preference policy.
pub retention_policy_for-fallback :
    (class : String) (policies : Dict RetentionPolicy) (p : RetentionPolicy)
    → get (policy_table policies) "preference" ≡ some p
    → get (policy_table policies) class ≡ none
    → retention_policy_for class policies ≡ some p
unfolding retention_policy_for
retention_policy_for-fallback class policies p h k = ground arith
