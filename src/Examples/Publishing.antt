-- ===== src/Examples/Publishing.antt =====
-- Proposals that commit.
use mirror_memory.Prelude.{String, true, some, ◌≡◌, ◌≢◌, refl, arith, if◌then◌else◌}
use mathlib.Core.Option
use mirror_memory.Prelude.Text.{str_eq}
use mirror_memory.Prelude.Sort.{dedupe}
use mirror_memory.Metabolism.Tiers.{tier_eq, is_legal_tier_transition}
use mirror_memory.Metabolism.Protection.{protection_reason, in_dispute, needs_clarification}
use mirror_memory.Core.Rows.{Evidence, active}
use mirror_memory.Core.Proposal.{ProposalLog, is_truth, is_value}
use mirror_memory.Core.Store.{target_of, find_belief, update_belief, find_evidence}
use mirror_memory.Core.Repository.Revision.{
  is_memory_enabled, get_state_revision, cas_bump_state_revision,
}
use mirror_memory.Core.Repository.Tiers.{set_belief_tier, metabolism_state_for}
use mirror_memory.Core.Repository.Provenance.{evidence_relation_count}
use mirror_memory.Core.Repository.Verification.{is_pending, pending_verification_key}
use mirror_memory.Core.Publisher.Gates.{
  check_gates, consent_gate, revision_gate, evidence_gate, session_gate, is_foreign,
  check_invariants, check_tier_invariants,
}
use mirror_memory.Core.Publisher.Commit.{commit, handle, Handlers, raised}
use mirror_memory.Core.Publisher.Publish.{committed, publish, find_commit}
use mirror_memory.Core.Publisher.Publish.{already_committed, same_decision, without_commit}
use mirror_memory.Core.Publisher.Atomicity.{publish-unchanged, publish-replay}
use mirror_memory.Core.Publisher.Revisions.{
  is_delegated, publish-truth, publish-storage, publish-stale_loses,
}
use mirror_memory.Core.Publisher.Guards.{publish-evidence, IsForeign}
use mirror_memory.Prelude.Sort.{sort, insert}
use mirror_memory.Metabolism.Compact.{
  clamp_policy, plan_compaction, keep_set, by_time, by_authority, authority_rank, folds_anything,
}
use mirror_memory.Metabolism.Compact.Digest.{build_digest_fields}
use mirror_memory.Metabolism.Protection.{compaction_protection_reason}
use mirror_memory.Core.Repository.Provenance.{evidence_graph}
use mirror_memory.Core.Repository.Compaction.{apply_evidence_compaction, find_digest}
use mirror_memory.Core.Publisher.Gates.{
  check_compact_invariants, selection_check, live_plan, same_set,
}
use mirror_memory.Core.Publisher.Folds.{content_of, publish-load_bearing}
use mirror_memory.Examples.Tables.{bulk, fold_it}
use mirror_memory.Examples.Floats.{fixed}
use mirror_memory.Examples.Tables.{
  tables, handlers, cooling, support_it, support_late, verify_it, revive_it, erase_it, resist,
  belief,
}

commits :
    ((publish fixed handlers 9 cooling tables).0.verdict ≡ committed)
    × ((publish fixed handlers 9 support_it tables).0.verdict ≡ committed)
    × ((publish fixed handlers 9 revive_it tables).0.verdict ≡ committed)
    × ((publish fixed handlers 9 erase_it tables).0.verdict ≡ committed)
    × ((publish fixed handlers 9 verify_it tables).0.verdict ≡ committed)
unfolding publish find_commit check_gates consent_gate is_memory_enabled revision_gate is_truth
    get_state_revision evidence_gate dedupe session_gate is_foreign check_invariants
    check_tier_invariants target_of find_belief tier_eq is_legal_tier_transition protection_reason
    in_dispute needs_clarification evidence_relation_count is_pending pending_verification_key
    commit handle is_value cas_bump_state_revision set_belief_tier update_belief
    metabolism_state_for
commits = (refl, refl, refl, refl, refl)

resist_fails : (publish fixed handlers 9 resist tables).0.verdict ≢ committed
unfolding publish find_commit check_gates consent_gate is_memory_enabled revision_gate is_truth
    get_state_revision evidence_gate dedupe session_gate is_foreign check_invariants target_of
    find_belief
resist_fails = λ e. ground (arith, e)

publish-truth_example :
    (get_state_revision tables "ada" ≡ 4)
    × ((publish fixed handlers 9 verify_it tables).0.revision_after ≡ some 5)
    × ((u : String)
        → get_state_revision (publish fixed handlers 9 verify_it tables).1 u
          ≡ (if str_eq u "ada" then 5 else get_state_revision tables u))
unfolding is_truth is_delegated
publish-truth_example = publish-truth fixed handlers 9 verify_it tables commits.4 refl refl

-- A handler that has written when it raises.
abbrev breaking : Handlers
breaking = record handlers {
  commit_support = λ p s. raised "ValueError" (record s { next_id = 9 });
}

breaks : (publish fixed breaking 9 support_it tables).0.verdict ≢ committed
unfolding publish find_commit check_gates consent_gate is_memory_enabled revision_gate is_truth
    get_state_revision evidence_gate dedupe session_gate is_foreign check_invariants target_of
    find_belief commit handle is_value cas_bump_state_revision
breaks = λ e. ground (arith, e)

publish-unchanged_example : (publish fixed breaking 9 support_it tables).1 ≡ tables
publish-unchanged_example = publish-unchanged fixed breaking 9 support_it tables breaks

publish-evidence_example :
    (e : Evidence) × (find_evidence 2 tables.evidence ≡ some e)
    × (str_eq e.user_id "ada" ≡ true)
    × (¬ IsForeign fixed handlers 9 support_it tables commits.1 e)
publish-evidence_example =
    publish-evidence fixed handlers 9 support_it tables commits.1 2 (refl, (refl, tt)) refl

publish-stale_loses_example :
    (publish fixed handlers 11 support_late (publish fixed handlers 9 verify_it tables).1).0.verdict
    ≢ committed
unfolding is_truth is_delegated
publish-stale_loses_example =
    publish-stale_loses fixed handlers 9 11 verify_it support_late tables commits.4 refl refl refl
      refl refl

publish-storage_example :
    ((publish fixed handlers 9 cooling tables).0.revision_after
      ≡ some (get_state_revision tables "ada"))
    × ((u : String)
        → get_state_revision (publish fixed handlers 9 cooling tables).1 u
          ≡ get_state_revision tables u)
unfolding is_truth is_delegated
publish-storage_example = publish-storage fixed handlers 9 cooling tables commits.0 refl refl

publish-replay_example :
    let t = (publish fixed handlers 9 support_it tables).1 in
    (row : ProposalLog) × (same_decision support_it row ≡ true)
    × (publish fixed handlers 12 support_it t
        ≡ (without_commit (already_committed row.proposal_id) (some row.revision_after), t))
publish-replay_example =
    publish-replay fixed handlers 9 12 support_it support_it tables commits.1 refl

folds : (publish fixed handlers 9 fold_it bulk).0.verdict ≡ committed
unfolding publish find_commit check_gates consent_gate is_memory_enabled revision_gate is_truth
    get_state_revision evidence_gate dedupe session_gate is_foreign check_invariants
    check_compact_invariants selection_check live_plan same_set target_of find_belief
    compaction_protection_reason in_dispute needs_clarification evidence_graph find_evidence sort
    insert clamp_policy plan_compaction keep_set by_time by_authority authority_rank folds_anything
    is_pending pending_verification_key commit handle is_value apply_evidence_compaction find_digest
    build_digest_fields update_belief
folds = refl

publish-load_bearing_example :
    content_of 5 (publish fixed handlers 9 fold_it bulk).1 ≡ content_of 5 bulk
unfolding target_of find_belief evidence_graph sort insert find_evidence
publish-load_bearing_example =
    publish-load_bearing fixed handlers 9 fold_it bulk folds refl (belief 1 active) refl 5 refl
