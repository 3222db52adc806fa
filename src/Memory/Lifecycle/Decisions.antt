-- ===== src/Memory/Lifecycle/Decisions.antt =====
-- When the policy closes an old value, supports it, or disputes it.
use mirror_memory.Prelude.{String, true, false, ◌≡◌, ◌≢◌, ◌⊎◌, arith}
use mirror_memory.Memory.Temporal.{
  follows, same, unknown, support, temporal_update, contradict, lifecycle_transition,
}
use mirror_memory.Memory.Relation.{RelationJudgement, same_identity}
use mirror_memory.Memory.Lifecycle.{
  LifecyclePolicy, event, cardinality_for, uses_temporal_lifecycle, decide, decide_event,
  decide_multi,
}

module _ (l : LifecyclePolicy) (j : RelationJudgement) (predicate : String) where
  -- An old value is superseded only on the same subject and predicate, by another object, for a
  -- predicate with one value at a time that is no event, and where the windows neither overlap nor
  -- run the other way.
  pub decide-temporal_update :
      decide l j predicate ≡ temporal_update
      → (j.same_subject ≡ true)
        × (j.same_predicate ≡ true)
        × (j.same_object ≡ false)
        × (cardinality_for l predicate ≢ event)
        × (uses_temporal_lifecycle l predicate ≡ true)
        × ((j.temporal_relation ≡ follows)
            ⊎ ((j.temporal_relation ≡ same) ⊎ (j.temporal_relation ≡ unknown)))
  unfolding decide lifecycle_transition decide_event decide_multi
  decide-temporal_update h = ground arith

  -- Explicit disagreement with the same triple is a contradiction under every policy.
  decide-contradiction :
      j.same_subject ≡ true
      → j.same_predicate ≡ true
      → j.same_object ≡ true
      → j.claims_contradiction ≡ true
      → decide l j predicate ≡ contradict
  unfolding decide lifecycle_transition decide_event decide_multi same_identity
  decide-contradiction s p o c = ground arith

  -- A belief is strengthened only by the same object, and never by a claim that disputes it.
  decide-support :
      decide l j predicate ≡ support
      → (same_identity j ≡ true) × (j.same_object ≡ true) × (j.claims_contradiction ≡ false)
  unfolding decide lifecycle_transition decide_event decide_multi
  decide-support h = ground arith
