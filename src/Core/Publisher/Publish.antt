-- ===== src/Core/Publisher/Publish.antt =====
-- core/publisher.py, `publish`.
use mirror_memory.Prelude.{
  ℕ, String, Bool, Option, none, some, List, [], ◌∷◌, ◌++◌, ◌||◌, if◌then◌else◌,
}
use mirror_memory.Prelude.Text.{str_eq}
use mirror_memory.Prelude.Float.{FloatOps}
use mirror_memory.Core.Proposal.{Proposal, ProposalLog}
use mirror_memory.Core.Store.{Store}
use mirror_memory.Core.Publisher.Gates.{Refusal, check_gates}
use mirror_memory.Core.Publisher.Commit.{Outcome, done, stale, raised, Handlers, commit}

pub data Verdict : Type 0 where
  committed : Verdict
  already_committed : String → Verdict
  refused : Refusal → Verdict
  cas_lost : ℕ → Verdict
  commit_error : String → Verdict

-- `belief_id` is `detail["belief_id"]`.
pub record PublishDecision : Type 0 where
  pub verdict : Verdict
  pub revision_after : Option ℕ
  pub belief_id : Option ℕ

-- `ProposalLog.proposal_id == … or ProposalLog.idempotency_key == …`, the first such row
abbrev pub same_decision : Proposal → ProposalLog → Bool
same_decision p r = str_eq r.proposal_id p.proposal_id || str_eq r.idempotency_key p.idempotency_key

unfoldable pub find_commit : Proposal → List ProposalLog → Option ProposalLog
find_commit p [] = none
find_commit p (r ∷ rs) = if same_decision p r then some r else find_commit p rs

-- `_record_commit`
abbrev pub log_row : Proposal → ℕ → Option ℕ → ProposalLog
log_row p revision_after belief_id = record {
  proposal_id = p.proposal_id;
  idempotency_key = p.idempotency_key;
  user_id = p.user_id;
  transition = p.transition;
  target_belief_id = p.target_belief_id;
  created_belief_id = belief_id;
  session_id = p.session_id;
  actor_type = p.actor_type;
  actor_id = p.actor_id;
  expected_revision = p.expected_revision;
  revision_after = revision_after;
}

abbrev pub record_commit : Proposal → ℕ → Option ℕ → Store → Store
record_commit p revision_after belief_id s = record s {
  proposals = s.proposals ++ log_row p revision_after belief_id ∷ [];
}

abbrev pub without_commit : Verdict → Option ℕ → PublishDecision
without_commit v revision = record { verdict = v; revision_after = revision; belief_id = none }

-- The rollback to a savepoint: the store when the savepoint was taken, and the one when an exception
-- leaves it.
unfoldable pub rollback : Store → Store → Store
rollback before after = before

-- The savepoint around a commit.
abbrev pub settle : Proposal → Store → Outcome (ℕ × Option ℕ) → PublishDecision × Store
settle p s (done (revision, id) t) = (
  record { verdict = committed; revision_after = some revision; belief_id = id },
  record_commit p revision id t,
)
settle p s (stale t) = (without_commit (cas_lost p.expected_revision) none, rollback s t)
settle p s (raised e t) = (without_commit (commit_error e) none, rollback s t)

module _ (fl : FloatOps) (h : Handlers) where
  abbrev attempt : ℕ → Proposal → Store → Option Refusal → PublishDecision × Store
  attempt now p s (some why) = (without_commit (refused why) none, s)
  attempt now p s none = settle p s (commit fl h now p s)

  -- `now` is the clock that a closed ledger version is stamped with.
  unfoldable pub publish : ℕ → Proposal → Store → PublishDecision × Store
  publish now p s = elim (find_commit p s.proposals) [
    | some row ↦ (without_commit (already_committed row.proposal_id) (some row.revision_after), s)
    | none ↦ attempt now p s (check_gates fl s p)
  ]
