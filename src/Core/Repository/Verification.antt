-- ===== src/Core/Repository/Verification.antt =====
-- core/repository.py: the pending question, and the answers that confirm or reject a belief.
use mirror_memory.Prelude.{
  ℕ, String, Bool, true, false, Option, none, some, List, [], ◌∷◌, ◌==◌, ◌&&◌, ltb, map, any,
  if◌then◌else◌,
}
use mirror_memory.Prelude.Text.{str_eq}
use mirror_memory.Prelude.Float.{FloatOps}
use mirror_memory.Metabolism.Heat.{fmax}
use mirror_memory.Core.Rows.{
  Belief, InterventionEvent, BeliefVersion, Status, active, superseded, rejected, other_status,
}
use mirror_memory.Core.Store.{Store, find_belief, update_belief, append_event}

-- `ORDER BY id DESC LIMIT 1` over the user's events of one kind
later : InterventionEvent → Option InterventionEvent → Option InterventionEvent
later e none = some e
later e (some f) = if ltb e.id f.id then some f else some e

latest_of : String → String → List InterventionEvent → Option InterventionEvent
latest_of user kind [] = none
latest_of user kind (e ∷ es) =
    let rest = latest_of user kind es in
    if str_eq e.user_id user && str_eq e.kind kind then later e rest else rest

is_answered : String → InterventionEvent → List InterventionEvent → Bool
is_answered user injection =
    any (λ e. str_eq e.user_id user && (str_eq e.kind "question_answered" && ltb injection.id e.id))

-- `{key} if key else set()`, as the key or none
key_of : Option String → Option String
key_of none = none
key_of (some k) = if str_eq k "" then none else some k

unfoldable pub pending_verification_key : Store → String → Option String
unfolding later latest_of is_answered key_of
pending_verification_key s user = elim (latest_of user "question_injected" s.interventions) [
  | none ↦ none
  | some injection ↦
      if is_answered user injection s.interventions then none else key_of injection.belief_key
]

-- `belief.key in pending_verification_keys(…)`
unfoldable pub is_pending : Store → String → String → Bool
is_pending s user key = elim (pending_verification_key s user) [
  | none ↦ false
  | some k ↦ str_eq key k
]

unfoldable pub is_active : Status → Bool
is_active active = true
is_active superseded = false
is_active rejected = false
is_active (other_status _) = false

-- `belief is None or belief.user_id != user_id or belief.status != "active"`, negated
actionable : Option Belief → String → Option Belief
actionable none user = none
actionable (some b) user = if str_eq b.user_id user && is_active b.status then some b else none

module _ (fl : FloatOps) where
  confirmed : Belief → Belief
  confirmed b = record b {
    layer = "L2";
    source = "user_confirmed";
    confidence = fmax fl b.confidence (fl.decimal 9 1);
  }

  unfoldable pub confirm_belief : Store → String → ℕ → Store
  unfolding confirmed actionable
  confirm_belief s user id = elim (actionable (find_belief id s.beliefs) user) [
    | none ↦ s
    | some b ↦
        append_event b "confirmed" (record s { beliefs = update_belief id confirmed s.beliefs })
  ]

  denied : Belief → Belief
  denied b = record b { status = rejected; confidence = fl.decimal 0 1 }

  unfoldable pub reject_belief : Store → String → ℕ → Store
  unfolding denied actionable
  reject_belief s user id = elim (actionable (find_belief id s.beliefs) user) [
    | none ↦ s
    | some b ↦ append_event b "rejected" (record s { beliefs = update_belief id denied s.beliefs })
  ]

is_open : ℕ → BeliefVersion → Bool
is_open id v = (v.belief_id == id) && elim v.epistemic_to [ none ↦ true | some _ ↦ false ]

close_version : ℕ → ℕ → BeliefVersion → BeliefVersion
close_version now id v = if is_open id v then record v { epistemic_to = some now } else v

unfoldable pub close_open_versions : ℕ → ℕ → Store → Store
unfolding is_open close_version
close_open_versions now id s = record s { versions = map (close_version now id) s.versions }
