-- ===== src/Examples/Cycling.antt =====
-- One cycle over a dormant belief with four supporting observations: it is archived and compacted.
use mirror_memory.Prelude.{ℕ, zero, suc, ◌+◌, ◌≤◌, String, false, some, [], ◌∷◌, ◌≡◌, refl}
use mathlib.Core.Option
use mirror_memory.Prelude.Sort.{sort, insert, dedupe}
use mirror_memory.Metabolism.Tiers.{dormant, tier_eq, tier_rank, is_legal_tier_transition}
use mirror_memory.Metabolism.Retention.{retention_policy_for}
use mirror_memory.Metabolism.Protection.{
  protection_reason, compaction_protection_reason, in_dispute, needs_clarification,
}
use mirror_memory.Metabolism.Heat.{
  heat_score, heat_tier, default_heat_weights, default_heat_thresholds, fmax, fmin, last_use,
}
use mirror_memory.Metabolism.Planner.{decide_tier, verdict, idle_days, latest}
use mirror_memory.Metabolism.Compact.{
  clamp_policy, plan_compaction, keep_set, by_time, by_authority, authority_rank, folds_anything,
}
use mirror_memory.Metabolism.Compact.Digest.{build_digest_fields, bump}
use mirror_memory.Core.Rows.{active}
use mirror_memory.Core.Proposal.{is_truth, is_value}
use mirror_memory.Core.Store.{Store, target_of, find_belief, update_belief, find_evidence}
use mirror_memory.Core.Repository.Revision.{is_memory_enabled, get_state_revision}
use mirror_memory.Core.Repository.Tiers.{set_belief_tier, metabolism_state_for}
use mirror_memory.Core.Repository.Provenance.{evidence_graph, evidence_relation_count}
use mirror_memory.Core.Repository.Verification.{is_pending, pending_verification_key}
use mirror_memory.Core.Repository.Compaction.{apply_evidence_compaction, find_digest, mark}
use mirror_memory.Core.Publisher.Gates.{
  check_gates, consent_gate, revision_gate, evidence_gate, check_invariants, check_tier_invariants,
  check_compact_invariants, selection_check, live_plan, same_set,
}
use mirror_memory.Core.Publisher.Commit.{commit, handle}
use mirror_memory.Core.Publisher.Publish.{publish, find_commit}
use mirror_memory.Cycle.{
  CycleConfig, MetabolismReport, scan_beliefs, tier_counts, reason_text, plan_move, plan_fold,
  plan_beliefs, count_move, count_fold, publish_moves, publish_folds, publish_plan, run_metabolism,
}
use mirror_memory.Cycle.Accounting.{run_metabolism-answers}
use mirror_memory.Cycle.Storage.{run_metabolism-keeps}
use mirror_memory.Core.Repository.Revision.{get_state_revision}
use mirror_memory.Cycle.Termination.{run_metabolism-total}
use mirror_memory.Examples.Floats.{fixed, of_units}
use mirror_memory.Examples.Tables.{belief, bulk, handlers}

abbrev sleeping : Store
sleeping = record bulk { beliefs = record (belief 1 active) { memory_tier = some dormant } ∷ [] }

abbrev config : CycleConfig
config = record {
  rules = record {
    policies = [];
    weights = default_heat_weights fixed;
    thresholds = default_heat_thresholds fixed;
    half_life_days = of_units 30000000;
  };
  keep = record { oldest = 1; recent = 1; highest_authority = 1 };
  min_support = 1;
  max_transitions = 5;
}

abbrev names : ℕ → String
names zero = "first"
names (suc n) = "second"

abbrev much_later : ℕ
much_later = 1000000000000000

both_commit :
    Option.map {B = ℕ × ℕ}
      (λ o. (o.0.committed, o.0.folded_rows))
      (run_metabolism fixed handlers config "ada" names much_later false sleeping)
    ≡ some (2, 2)
unfolding run_metabolism scan_beliefs tier_counts reason_text plan_move plan_fold plan_beliefs
    count_move count_fold publish_moves publish_folds publish_plan decide_tier verdict idle_days
    latest heat_score heat_tier fmax fmin last_use protection_reason in_dispute needs_clarification
    retention_policy_for tier_eq tier_rank is_legal_tier_transition publish find_commit check_gates
    consent_gate is_memory_enabled revision_gate is_truth get_state_revision evidence_gate dedupe
    check_invariants check_tier_invariants check_compact_invariants selection_check live_plan
    same_set target_of find_belief compaction_protection_reason evidence_graph
    evidence_relation_count find_evidence sort insert clamp_policy plan_compaction keep_set by_time
    by_authority authority_rank folds_anything is_pending pending_verification_key commit handle
    is_value apply_evidence_compaction find_digest build_digest_fields bump update_belief
    set_belief_tier metabolism_state_for mark
both_commit = refl

returned :
    (r : MetabolismReport) × (t : Store) × (run_metabolism fixed handlers config "ada" names
        much_later false sleeping
      ≡ some (r, t))
returned =
    run_metabolism-total fixed config "ada" names much_later sleeping
      (record { cool_after_days = some 180; archive_after_days = some 720 }) refl handlers false

run_metabolism-keeps_example :
    get_state_revision returned.1 "ada" ≡ get_state_revision sleeping "ada"
run_metabolism-keeps_example =
    run_metabolism-keeps fixed handlers much_later config "ada" names false sleeping returned.0
      returned.1 returned.2 "ada"

run_metabolism-answers_example :
    (returned.0.proposals ≤ 5) × (returned.0.committed + returned.0.refused ≡ returned.0.proposals)
run_metabolism-answers_example =
    run_metabolism-answers fixed handlers config "ada" names much_later sleeping returned.0
      returned.1 returned.2
