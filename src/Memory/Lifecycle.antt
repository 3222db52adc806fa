-- ===== src/Memory/Lifecycle.antt =====
-- memory/lifecycle.py: what should happen to a belief, given a relation.
pub mod Decisions
use mirror_memory.Prelude.{
  ℕ, String, Bool, true, false, not, Option, none, some, ◌&&◌, ◌||◌, or_else, if◌then◌else◌,
}
use mirror_memory.Prelude.Dict.{Dict, get}
use mirror_memory.Memory.Temporal.{
  Scope, current_state, persistent, episodic, no_scope, other_scope, TemporalRelation,
  LifecycleAction, create, support, temporal_update, coexist, contradict, noop,
  lifecycle_transition,
}
use mirror_memory.Memory.Relation.{RelationJudgement, same_identity}

pub data Cardinality : Type 0 where
  single multi event : Cardinality
  other_cardinality : String → Cardinality

pub record LifecyclePolicy : Type 0 where
  pub cardinality : Dict Cardinality
  pub scopes : Dict Scope

unfoldable pub cardinality_for : LifecyclePolicy → String → Cardinality
cardinality_for l predicate = or_else (get l.cardinality predicate) multi

unfoldable pub is_single : Cardinality → Bool
is_single single = true
is_single _ = false

-- The derived scope: an absent cardinality is no `single`.
derived_scope : Option Cardinality → Scope
derived_scope (some single) = current_state
derived_scope _ = no_scope

declared_scope : Option Scope → Scope → Scope
declared_scope none derived = derived
declared_scope (some no_scope) derived = derived
declared_scope (some scope) derived = scope

unfoldable pub scope_for : LifecyclePolicy → String → Scope
unfolding derived_scope declared_scope
scope_for l predicate =
    declared_scope (get l.scopes predicate) (derived_scope (get l.cardinality predicate))

unfoldable pub is_current_state : Scope → Bool
is_current_state current_state = true
is_current_state _ = false

unfoldable pub is_persistent : Scope → Bool
is_persistent persistent = true
is_persistent _ = false

unfoldable pub uses_temporal_lifecycle : LifecyclePolicy → String → Bool
uses_temporal_lifecycle l predicate =
    is_single (cardinality_for l predicate) || is_current_state (scope_for l predicate)

unfoldable pub decide_event : RelationJudgement → LifecycleAction
decide_event j =
    if not j.same_object
    then create
    else if j.claims_contradiction
    then contradict
    else if not j.same_temporal_qualifier
    then create
    else support

unfoldable pub decide_multi : RelationJudgement → Scope → LifecycleAction
decide_multi j scope =
    if j.same_object
    then (if j.claims_contradiction
        then contradict
        else if not j.same_temporal_qualifier && not (is_persistent scope)
        then create
        else support)
    else create

-- `scope or SCOPE_CURRENT_STATE`
or_current : Scope → Scope
or_current no_scope = current_state
or_current scope = scope

decide_single : RelationJudgement → Scope → LifecycleAction
unfolding or_current
decide_single j scope =
    lifecycle_transition j.same_subject j.same_predicate j.same_object (or_current scope)
      j.temporal_relation j.claims_contradiction

decide_other : LifecyclePolicy → RelationJudgement → String → LifecycleAction
unfolding decide_single
decide_other l j predicate =
    if not (uses_temporal_lifecycle l predicate)
    then decide_multi j (scope_for l predicate)
    else decide_single j (scope_for l predicate)

by_cardinality : LifecyclePolicy → RelationJudgement → String → Cardinality → LifecycleAction
unfolding decide_other
by_cardinality l j predicate event = decide_event j
by_cardinality l j predicate _ = decide_other l j predicate

unfoldable pub decide : LifecyclePolicy → RelationJudgement → String → LifecycleAction
unfolding by_cardinality
decide l j predicate =
    if not (same_identity j)
    then create
    else by_cardinality l j predicate (cardinality_for l predicate)

-- The coarse actions of the persistence layer.
pub data Action : Type 0 where
  create_action support_action update_action contradict_action noop_action : Action

unfoldable pub to_action : LifecycleAction → Action
to_action create = create_action
to_action support = support_action
to_action temporal_update = update_action
to_action coexist = create_action
to_action contradict = contradict_action
to_action noop = noop_action
