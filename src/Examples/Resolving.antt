-- ===== src/Examples/Resolving.antt =====
-- Windows, judgements and one resolution, with ASCII case tables left out: texts are lower case.
use mirror_memory.Prelude.{ℕ, String, Bool, true, false, none, some, List, [], ◌∷◌, ◌≡◌, refl}
use mirror_memory.Core.Rows
use mirror_memory.Memory.Temporal.{
  TemporalWindow, TemporalRelation, follows, same, temporal_update, support, lifecycle_transition,
}
use mirror_memory.Memory.Relation.{
  CandidateAtom, BeliefView, RelationJudgement, missing, same_identity,
}
use mirror_memory.Memory.Lifecycle.{
  LifecyclePolicy, single, decide, cardinality_for, uses_temporal_lifecycle, is_single, scope_for,
  is_current_state,
}
use mirror_memory.Memory.Resolution.{Environment}
use mirror_memory.Memory.Identity.{resolve_identity}
use mirror_memory.Memory.Identity.Closing.{IsSafe}
use mirror_memory.Memory.Identity.Targets.{resolve_identity-IsSafe}

abbrev window : ℕ → ℕ → TemporalWindow
window a b = record { valid_from = some a; valid_to = some b }

abbrev rules : LifecyclePolicy
rules = record { cardinality = ("lives_in", single) ∷ []; scopes = [] }

abbrev judgement : Bool → TemporalRelation → Bool → RelationJudgement
judgement object relation disputes = record {
  same_subject = true;
  same_predicate = true;
  same_object = object;
  temporal_relation = relation;
  claims_contradiction = disputes;
  same_attribute = false;
  same_temporal_qualifier = true;
  subject_matches_expected = true;
}

decided :
    (decide rules (judgement false follows false) "lives_in" ≡ temporal_update)
    × (decide rules (judgement true same false) "lives_in" ≡ support)
unfolding decide same_identity cardinality_for is_single uses_temporal_lifecycle scope_for
    is_current_state lifecycle_transition
decided = (refl, refl)

abbrev candidate : String → String → CandidateAtom
candidate predicate object = record {
  predicate = predicate;
  object = object;
  claim_text = object;
  temporal = "";
  valid_from = missing;
  valid_to = missing;
  relation = "supports";
}

abbrev view : ℕ → String → String → BeliefView
view id predicate object = record {
  id = id;
  predicate = predicate;
  object = object;
  status = Rows.active;
  claim_text = object;
  temporal = "";
  valid_from = missing;
  valid_to = missing;
  lifecycle_state = "";
  transition = "";
  ended_object = "";
}

abbrev plain : Environment
plain = record { lower = λ t. t; casefold = λ t. t; parse_iso = λ t. none; now = 0 }

abbrev beliefs : List BeliefView
beliefs = view 1 "lives_in" "paris" ∷ view 2 "likes" "tea" ∷ []

resolve_identity-IsSafe_example :
    IsSafe beliefs (resolve_identity plain rules (candidate "lives_in" "rome") beliefs)
resolve_identity-IsSafe_example =
    resolve_identity-IsSafe plain rules (candidate "lives_in" "rome") beliefs
