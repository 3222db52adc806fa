-- ===== src/Core/Publisher/Gates.antt =====
-- core/publisher.py, `_check_gates` and the invariants of the transitions.
use mirror_memory.Prelude.{
  ℕ, String, Bool, true, false, not, Option, none, some, List, [], ◌∷◌, ◌&&◌, ◌||◌, ◌==◌, min, max,
  length, filter, any, all, mem, if◌then◌else◌,
}
use mirror_memory.Prelude.Text.{str_eq}
use mirror_memory.Prelude.Float.{FloatOps}
use mirror_memory.Prelude.Sort.{dedupe}
use mirror_memory.Metabolism.Tiers.{tier_or_hot, Tier, tier_eq, is_legal_tier_transition}
use mirror_memory.Metabolism.Protection.{Reason, protection_reason, compaction_protection_reason}
use mirror_memory.Metabolism.Compact.{CompactionPlan, clamp_policy, plan_compaction, folds_anything}
use mirror_memory.Core.Rows.{Belief, Evidence, Status, active, superseded, rejected, other_status}
use mirror_memory.Core.Proposal.{
  Proposal, Payload, Transition, create, update, forget, synthesize, tier_transition,
  evidence_compact, is_truth,
}
use mirror_memory.Core.Store.{Store, target_of}
use mirror_memory.Core.Repository.Revision.{is_memory_enabled, get_state_revision}
use mirror_memory.Core.Repository.Provenance.{evidence_relation_count, evidence_graph}
use mirror_memory.Core.Repository.Verification.{is_pending}

-- The refusals; the texts that the source builds from them carry no more than these.
pub data Refusal : Type 0 where
  memory_disabled expected_revision_required : Refusal
  stale_revision : ℕ → ℕ → Refusal
  evidence_missing evidence_authority_mismatch evidence_session_mismatch : Refusal
  target_belief_missing target_belief_scope_mismatch : Refusal
  resurrection_guard target_belief_superseded : Refusal
  tier_mismatch illegal_tier_transition : Tier → Tier → Refusal
  protected_by : Reason → Refusal
  below_compaction_threshold : ℕ → Refusal
  nothing_to_fold stale_selection : Refusal

-- The first refusal of two checks.
infixr 20 ◌orelse◌
abbrev pub ◌orelse◌ : Option Refusal → Option Refusal → Option Refusal
none orelse r = r
some r orelse _ = some r

abbrev is_forget : Transition → Bool
is_forget forget = true
is_forget _ = false

unfoldable pub consent_gate : Proposal → Store → Option Refusal
consent_gate p s =
    if is_forget p.transition || is_memory_enabled s p.user_id then none else some memory_disabled

unfoldable pub revision_gate : Proposal → ℕ → Option Refusal
revision_gate p current =
    if is_truth p.transition && (p.expected_revision == 0)
    then some expected_revision_required
    else if (p.expected_revision == 0) || (current == p.expected_revision)
    then none
    else some (stale_revision p.expected_revision current)

-- `row.session_id and row.session_id != proposal.session_id`
unfoldable pub is_foreign : String → Option String → Bool
is_foreign session none = false
is_foreign session (some t) = not (str_eq t "") && not (str_eq t session)

unfoldable pub session_gate : Option String → List Evidence → Option Refusal
session_gate none rows = none
session_gate (some session) rows =
    if not (str_eq session "") && any (λ e. is_foreign session e.session_id) rows
    then some evidence_session_mismatch
    else none

-- The rows that the proposal cites.
abbrev pub cited : Proposal → Store → List Evidence
cited p s = filter (λ e. mem e.id p.evidence_ids) s.evidence

unfoldable pub evidence_gate : Proposal → Store → Option Refusal
evidence_gate p s = elim p.evidence_ids [
  | [] ↦ none
  | _ ∷ _ ↦
      if not (length (cited p s) == length (dedupe p.evidence_ids))
      then some evidence_missing
      else if any (λ e. not (str_eq e.user_id p.user_id)) (cited p s)
      then some evidence_authority_mismatch
      else session_gate p.session_id (cited p s)
]

-- A check of the target before the others: it is there, it is the user's.
abbrev owned : Proposal → Option Belief → (Belief → Option Refusal) → Option Refusal
owned p none check = some target_belief_missing
owned p (some b) check =
    if str_eq b.user_id p.user_id then check b else some target_belief_scope_mismatch

abbrev unless_rejected : Status → Option Refusal → Option Refusal
unless_rejected rejected next = some resurrection_guard
unless_rejected active next = next
unless_rejected superseded next = next
unless_rejected (other_status _) next = next

abbrev protected_refusal : Option Reason → Option Refusal
protected_refusal none = none
protected_refusal (some r) = some (protected_by r)

module _ (fl : FloatOps) (s : Store) where
  tier_check : Proposal → Belief → Option Refusal
  tier_check p b =
      let from = p.payload.from_tier in
      let to = p.payload.to_tier in
      let live = tier_or_hot b.memory_tier in
      if not (tier_eq from live)
      then some (tier_mismatch from live)
      else if not (is_legal_tier_transition from to)
      then some (illegal_tier_transition from to)
      else protected_refusal (
          protection_reason fl b (evidence_relation_count s b.id "support")
            (evidence_relation_count s b.id "correct") (is_pending s p.user_id b.key))

  unfoldable pub check_tier_invariants : Proposal → Option Belief → Option Refusal
  unfolding tier_check
  check_tier_invariants p target = owned p target (λ b. unless_rejected b.status (tier_check p b))

-- `payload.get("min_support_links", 12) or 12`, clamped
threshold : Option ℕ → ℕ
threshold none = 12
threshold (some n) = if n == 0 then 12 else min (max n 1) 1000

-- The selection that the Publisher recomputes from the live graph.
unfoldable pub live_plan : Store → Payload → ℕ → Option CompactionPlan
unfolding threshold
live_plan s payload id =
    plan_compaction (evidence_graph s id) id (clamp_policy payload.policy)
      (threshold payload.min_support_links)

unfoldable pub same_set : List ℕ → List ℕ → Bool
same_set xs ys = all (λ x. mem x ys) xs && all (λ y. mem y xs) ys

unfoldable pub selection_check : Payload → ℕ → Option CompactionPlan → Option Refusal
selection_check payload support_links none = some (below_compaction_threshold support_links)
selection_check payload support_links (some plan) =
    if not (folds_anything plan)
    then some nothing_to_fold
    else if same_set payload.keep_ids plan.keep_ids && same_set payload.fold_ids plan.fold_ids
    then none
    else some stale_selection

unfoldable pub check_compact_invariants : Store → Proposal → Option Belief → Option Refusal
unfolding selection_check
check_compact_invariants s p target = owned p target λ b. unless_rejected b.status (
    protected_refusal (compaction_protection_reason b (is_pending s p.user_id b.key))
    orelse selection_check p.payload
        (length (filter (λ r. str_eq r.relation "support") (evidence_graph s b.id)))
        (live_plan s p.payload b.id))

-- A superseded row is closed, but for the update that revives it.
abbrev writable : Proposal → Status → Option Refusal
writable p rejected = some resurrection_guard
writable p superseded = elim p.transition [
  | update ↦ if p.payload.revival then none else some target_belief_superseded
  | _ ↦ some target_belief_superseded
]
writable p active = none
writable p (other_status _) = none

module _ (fl : FloatOps) (s : Store) where
  unfoldable pub check_invariants : Proposal → Option Refusal
  check_invariants p = elim p.transition [
    | create ↦ none
    | synthesize ↦ none
    | tier_transition ↦ check_tier_invariants fl s p (target_of p.target_belief_id s)
    | evidence_compact ↦ check_compact_invariants s p (target_of p.target_belief_id s)
    | forget ↦ owned p (target_of p.target_belief_id s) (λ b. none)
    | _ ↦ owned p (target_of p.target_belief_id s) (λ b. writable p b.status)
  ]

  unfoldable pub check_gates : Proposal → Option Refusal
  check_gates p =
      consent_gate p s
      orelse revision_gate p (get_state_revision s p.user_id)
      orelse evidence_gate p s
      orelse check_invariants p
