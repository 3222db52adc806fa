-- ===== src/Cycle.antt =====
-- metabolism/planner.py, `run_metabolism`: one cycle scans a user's beliefs, plans at most a fixed
-- number of proposals, and hands them to the Publisher.
pub mod Accounting
pub mod Termination
pub mod Storage
use mirror_memory.Prelude.{
  ℕ, ◌+◌, String, Bool, true, false, not, ◌&&◌, Option, none, some, List, [], ◌∷◌, ◌++◌, leb,
  length, filter, map, if◌then◌else◌,
}
use mirror_memory.Prelude.Text.{str_eq, append}
use mirror_memory.Prelude.Dict.{Dict}
use mirror_memory.Prelude.Float.{Float, FloatOps}
use mirror_memory.Metabolism.Tiers.{Tier, hot, warm, dormant, archived, other}
use mirror_memory.Metabolism.Protection.{
  Reason, unresolved_conflict, user_correction, pending_verification, user_confirmed,
  canonical_high_confidence, thin_evidence, compaction_protection_reason,
}
use mirror_memory.Metabolism.Compact.{
  KeepPolicy, CompactionPlan, EvidenceGraphRow, plan_compaction, folds_anything,
}
use mirror_memory.Metabolism.Compact.Digest.{bump, count_of}
use mirror_memory.Metabolism.Planner.{
  TierDecision, TierRules, Signals, DecisionReason, settled, policy_never_cools, not_idle_enough,
  capped, cooling, reheat, archive, archive_too_soon, policy_never_archives, protected_by,
  decide_tier,
}
use mirror_memory.Core.Rows.{Belief, Status, active, superseded, rejected, other_status}
use mirror_memory.Core.Proposal.{Proposal, Payload, Transition, tier_transition, evidence_compact}
use mirror_memory.Core.Store.{Store}
use mirror_memory.Core.Repository.Revision.{get_state_revision}
use mirror_memory.Core.Repository.Provenance.{evidence_graph}
use mirror_memory.Core.Repository.Verification.{is_pending}
use mirror_memory.Core.Publisher.Commit.{Handlers}
use mirror_memory.Core.Publisher.Publish.{
  Verdict, committed, already_committed, refused, cas_lost, commit_error, PublishDecision, publish,
}

-- The part of the configuration that a cycle reads.
pub record CycleConfig : Type 0 where
  pub rules : TierRules
  pub keep : KeepPolicy
  pub min_support : ℕ
  pub max_transitions : ℕ

-- What the planning loop collects: the two lists of proposals, and three fields of the report.
pub record Plan : Type 0 where
  pub moves : List (TierDecision × Proposal)
  pub folds : List (String × Proposal × ℕ)
  pub decisions : List TierDecision
  pub protected : ℕ
  pub skipped_by_cap : ℕ

pub record MetabolismReport : Type 0 where
  pub user_id : String
  pub scanned : ℕ
  pub protected : ℕ
  pub proposals : ℕ
  pub committed : ℕ
  pub refused : ℕ
  pub skipped_by_cap : ℕ
  pub dry_run : Bool
  pub decisions : List TierDecision
  pub refusals : List (String × Verdict)
  pub tier_counts_before : Dict ℕ
  pub tier_counts_after : Dict ℕ
  pub compaction_proposals : ℕ
  pub compacted_beliefs : ℕ
  pub folded_rows : ℕ

is_scanned_status : Status → Bool
is_scanned_status active = true
is_scanned_status superseded = true
is_scanned_status rejected = false
is_scanned_status (other_status _) = false

-- The stored tier is one of the three; a missing one is in no list of SQL.
is_scanned_tier : Option Tier → Bool
is_scanned_tier (some hot) = true
is_scanned_tier (some warm) = true
is_scanned_tier (some dormant) = true
is_scanned_tier _ = false

-- `_scan_beliefs`; the table is kept in the order of its ids.
unfoldable pub scan_beliefs : String → Store → List Belief
unfolding is_scanned_status is_scanned_tier
scan_beliefs user s =
    filter
      (λ b. str_eq b.user_id user && (is_scanned_status b.status && is_scanned_tier b.memory_tier))
      s.beliefs

-- The name of a tier as the count reads it, `str(tier or "hot")`.
tier_name : Option Tier → String
tier_name none = "hot"
tier_name (some hot) = "hot"
tier_name (some warm) = "warm"
tier_name (some dormant) = "dormant"
tier_name (some archived) = "archived"
tier_name (some (other t)) = if str_eq t "" then "hot" else t

count_tiers : Dict ℕ → String → List Belief → Dict ℕ
unfolding tier_name
count_tiers counts user [] = counts
count_tiers counts user (b ∷ bs) =
    count_tiers (if str_eq b.user_id user then bump (tier_name b.memory_tier) counts else counts)
      user bs

-- `_tier_counts`
unfoldable pub tier_counts : String → Store → Dict ℕ
unfolding count_tiers
tier_counts user s =
    count_tiers (("hot", 0) ∷ ("warm", 0) ∷ ("dormant", 0) ∷ ("archived", 0) ∷ []) user s.beliefs

abbrev pub size : Plan → ℕ
size plan = length plan.moves + length plan.folds

-- A payload of a storage proposal: what the source leaves out is empty.
abbrev empty_payload : FloatOps → Payload
empty_payload fl = record {
  from_tier = other "";
  to_tier = other "";
  reason = "";
  score = fl.decimal 0 1;
  revival = false;
  verdict = "";
  keep_ids = [];
  fold_ids = [];
  policy = record { oldest = none; recent = none; highest_authority = none };
  min_support_links = none;
  claim = 0;
}

reason_name : Reason → String
reason_name unresolved_conflict = "unresolved_conflict"
reason_name user_correction = "user_correction"
reason_name pending_verification = "pending_verification"
reason_name user_confirmed = "user_confirmed"
reason_name canonical_high_confidence = "canonical_high_confidence"
reason_name thin_evidence = "thin_evidence"

unfoldable pub reason_text : DecisionReason → String
unfolding reason_name
reason_text settled = "settled"
reason_text policy_never_cools = "policy_never_cools"
reason_text not_idle_enough = "not_idle_enough"
reason_text capped = "capped"
reason_text cooling = "cooling"
reason_text reheat = "reheat"
reason_text archive = "archive"
reason_text archive_too_soon = "archive_too_soon"
reason_text policy_never_archives = "policy_never_archives"
reason_text (protected_by r) = append "protected:" (reason_name r)

abbrev has_reason : Option Reason → ℕ
has_reason none = 0
has_reason (some r) = 1

abbrev is_commit : Verdict → Bool
is_commit committed = true
is_commit (already_committed _) = false
is_commit (refused _) = false
is_commit (cas_lost _) = false
is_commit (commit_error _) = false

-- `user` and the database `s` of the planning; `fresh` is the sequence of new proposal ids, and `now`
-- the clock, which also stamps what the Publisher stamps.
module _ (fl : FloatOps) (cfg : CycleConfig) (user : String) (fresh : ℕ → String) (now : ℕ)
    (s : Store) where
  -- A proposal of the planner, the n-th of its cycle.
  abbrev storage_proposal : ℕ → Transition → ℕ → Payload → Proposal
  storage_proposal n kind target payload = record {
    transition = kind;
    user_id = user;
    session_id = none;
    target_belief_id = some target;
    payload = payload;
    evidence_ids = [];
    expected_revision = get_state_revision s user;
    proposal_id = fresh n;
    idempotency_key = fresh n;
    actor_type = "system";
    actor_id = "";
  }

  abbrev move_proposal : ℕ → TierDecision → Tier → Proposal
  move_proposal n d to = storage_proposal n tier_transition d.belief_id (record (empty_payload fl) {
    from_tier = d.from_tier;
    to_tier = to;
    reason = reason_text d.reason;
    score = d.heat;
  })

  abbrev fold_proposal : ℕ → CompactionPlan → Proposal
  fold_proposal n plan =
      storage_proposal n evidence_compact plan.belief_id (record (empty_payload fl) {
        keep_ids = plan.keep_ids;
        fold_ids = plan.fold_ids;
        policy = record {
          oldest = some cfg.keep.oldest;
          recent = some cfg.keep.recent;
          highest_authority = some cfg.keep.highest_authority;
        };
        min_support_links = some cfg.min_support;
      })

  -- A decision enters the report, with a move that the cap has cut off withdrawn.
  unfoldable pub plan_move : TierDecision → Option Tier → Plan → Plan
  plan_move d none plan = record plan { decisions = plan.decisions ++ d ∷ [] }
  plan_move d (some to) plan =
      if leb cfg.max_transitions (size plan)
      then record plan {
        decisions = plan.decisions ++ record d { to_tier = none; reason = capped } ∷ [];
        skipped_by_cap = plan.skipped_by_cap + 1;
      }
      else record plan {
        decisions = plan.decisions ++ d ∷ [];
        moves = plan.moves ++ (d, move_proposal (size plan) d to) ∷ [];
      }

  unfoldable pub plan_fold : String → Option CompactionPlan → Plan → Plan
  plan_fold key none plan = plan
  plan_fold key (some c) plan =
      if not (folds_anything c)
      then plan
      else if leb cfg.max_transitions (size plan)
      then record plan { skipped_by_cap = plan.skipped_by_cap + 1 }
      else record plan {
        folds = plan.folds ++ (key, fold_proposal (size plan) c, length c.fold_ids) ∷ [];
      }

  abbrev foldable : Belief → Option Reason → Option CompactionPlan
  foldable b (some _) = none
  foldable b none = plan_compaction (evidence_graph s b.id) b.id cfg.keep cfg.min_support

  abbrev signals_of : Belief → Signals
  signals_of b = record {
    support_count = count_of "support" (evidence_graph s b.id);
    correct_count = count_of "correct" (evidence_graph s b.id);
    pending_verification = is_pending s user b.key;
  }

  abbrev plan_belief : Belief → TierDecision → Plan → Plan
  plan_belief b d plan = plan_move d d.to_tier (
      plan_fold b.key (foldable b (compaction_protection_reason b (is_pending s user b.key)))
        (record plan { protected = plan.protected + has_reason d.protected_reason }))

  -- The loop over the beliefs; `none` is a decision that raised.
  unfoldable pub plan_beliefs : List Belief → Plan → Option Plan
  plan_beliefs [] plan = some plan
  plan_beliefs (b ∷ bs) plan = elim (decide_tier fl b (signals_of b) cfg.rules now) [
    | none ↦ none
    | some d ↦ plan_beliefs bs (plan_belief b d plan)
  ]

abbrev pub empty_plan : Plan
empty_plan = record { moves = []; folds = []; decisions = []; protected = 0; skipped_by_cap = 0 }

module _ (fl : FloatOps) (h : Handlers) (now : ℕ) where
  -- The verdict on one proposal enters the report.
  unfoldable pub count_move : String → Verdict → MetabolismReport → MetabolismReport
  count_move key v r =
      if is_commit v
      then record r { committed = r.committed + 1 }
      else record r { refused = r.refused + 1; refusals = r.refusals ++ (key, v) ∷ [] }

  unfoldable pub count_fold : String → ℕ → Verdict → MetabolismReport → MetabolismReport
  count_fold key rows v r =
      if is_commit v
      then record r {
        committed = r.committed + 1;
        compacted_beliefs = r.compacted_beliefs + 1;
        folded_rows = r.folded_rows + rows;
      }
      else record r { refused = r.refused + 1; refusals = r.refusals ++ (key, v) ∷ [] }

  unfoldable pub publish_moves :
      List (TierDecision × Proposal) → MetabolismReport → Store → MetabolismReport × Store
  publish_moves [] r s = (r, s)
  publish_moves ((d, p) ∷ ps) r s =
      let (verdict, t) = publish fl h now p s in
      publish_moves ps (count_move d.key verdict.verdict r) t

  unfoldable pub publish_folds :
      List (String × Proposal × ℕ) → MetabolismReport → Store → MetabolismReport × Store
  publish_folds [] r s = (r, s)
  publish_folds ((key, p, rows) ∷ ps) r s =
      let (verdict, t) = publish fl h now p s in
      publish_folds ps (count_fold key rows verdict.verdict r) t

  unfoldable pub publish_plan : Bool → Plan → MetabolismReport → Store → MetabolismReport × Store
  publish_plan true plan r s = (r, s)
  publish_plan false plan r s =
      let (q, t) = publish_moves plan.moves r s in publish_folds plan.folds q t

abbrev planned_report : String → Bool → Store → Plan → MetabolismReport
planned_report user dry_run s plan = record {
  user_id = user;
  scanned = length (scan_beliefs user s);
  protected = plan.protected;
  proposals = length plan.moves + length plan.folds;
  committed = 0;
  refused = 0;
  skipped_by_cap = plan.skipped_by_cap;
  dry_run = dry_run;
  decisions = plan.decisions;
  refusals = [];
  tier_counts_before = tier_counts user s;
  tier_counts_after = [];
  compaction_proposals = length plan.folds;
  compacted_beliefs = 0;
  folded_rows = 0;
}

module _ (fl : FloatOps) (h : Handlers) (cfg : CycleConfig) (user : String) (fresh : ℕ → String)
    (now : ℕ) (dry_run : Bool) where
  abbrev pub finish : Store → Option Plan → Option (MetabolismReport × Store)
  finish s none = none
  finish s (some plan) =
      let (r, t) = publish_plan fl h now dry_run plan (planned_report user dry_run s plan) s in
      some (record r { tier_counts_after = tier_counts user t }, t)

  unfoldable pub run_metabolism : Store → Option (MetabolismReport × Store)
  run_metabolism s =
      finish s (plan_beliefs fl cfg user fresh now s (scan_beliefs user s) empty_plan)
