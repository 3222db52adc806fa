-- ===== src/Examples/Tables.antt =====
-- One user's tables, the proposals that are published against them, and plain claim handlers.
use mirror_memory.Prelude.{ℕ, String, true, Option, none, some, [], ◌∷◌}
use mirror_memory.Metabolism.Tiers
use mirror_memory.Metabolism.Tiers.{Tier, hot, warm}
use mirror_memory.Core.Rows.{Belief, Evidence, EvidenceLink, Status, active, superseded, rejected}
use mirror_memory.Core.Proposal.{
  verify, Proposal, Transition, support, update, forget, tier_transition, evidence_compact,
}
use mirror_memory.Core.Store.{Store}
use mirror_memory.Core.Publisher.Commit.{Outcome, done, Handlers}
use mirror_memory.Examples.Floats.{of_units}

abbrev pub belief : ℕ → Status → Belief
belief id status = record {
  id = id;
  user_id = "ada";
  key = "lives_in";
  claim_text = "lives in Paris";
  value = [];
  layer = "L3";
  status = status;
  confidence = of_units 600000;
  source = "extracted";
  evidence = 1 ∷ 2 ∷ [];
  predicate = "lives_in";
  object = "Paris";
  superseded_by = none;
  valid_from = none;
  valid_to = none;
  lifecycle_state = "";
  last_evidence_at = some 1000;
  memory_tier = none;
  metabolism_state = Tiers.active;
  retention_class = "preference";
  importance_score = none;
  access_count = 0;
  last_accessed_at = none;
  compacted_into = none;
}

abbrev pub observation : ℕ → Evidence
observation id = record {
  id = id;
  user_id = "ada";
  session_id = some "monday";
  content = "I live in Paris";
  source_type = "message";
  authority = "user";
  source_purpose = "chat";
  observed_at = some id;
  retention_state = "hot";
  compaction_group_id = none;
}

abbrev pub link : ℕ → EvidenceLink
link e = record { belief_id = 1; evidence_id = e; relation = "support" }

-- The beliefs 1, 2 and 3 are active, superseded and rejected.
abbrev pub tables : Store
tables = record {
  beliefs = belief 1 active ∷ belief 2 superseded ∷ belief 3 rejected ∷ [];
  evidence = observation 1 ∷ observation 2 ∷ [];
  links = link 1 ∷ link 2 ∷ [];
  digests = [];
  preferences = λ u. some (record { user_id = u; enabled = true; state_revision = 4 });
  transitions = [];
  events = [];
  versions = [];
  interventions = [];
  proposals = [];
  next_id = 1;
  purpose = "chat";
}

abbrev pub proposal : Transition → ℕ → String → Proposal
proposal kind target name = record {
  transition = kind;
  user_id = "ada";
  session_id = some "monday";
  target_belief_id = some target;
  payload = record {
    from_tier = hot;
    to_tier = warm;
    reason = "cooling";
    score = of_units 200000;
    revival = true;
    verdict = "confirm";
    keep_ids = [];
    fold_ids = [];
    policy = record { oldest = none; recent = none; highest_authority = none };
    min_support_links = none;
    claim = 7;
  };
  evidence_ids = 1 ∷ 2 ∷ [];
  expected_revision = 4;
  proposal_id = name;
  idempotency_key = name;
  actor_type = "worker";
  actor_id = "worker-1";
}

abbrev pub cooling : Proposal
cooling = proposal tier_transition 1 "cooling"

abbrev pub support_it : Proposal
support_it = proposal support 1 "support"

abbrev pub support_late : Proposal
support_late = proposal support 1 "late"

abbrev pub verify_it : Proposal
verify_it = proposal verify 1 "verify"

abbrev pub revive_it : Proposal
revive_it = proposal update 2 "revive"

abbrev pub erase_it : Proposal
erase_it = proposal forget 3 "erase"

abbrev pub resist : Proposal
resist = proposal support 3 "resist"

-- Four observations that support belief 1, and one that contradicts it.
abbrev pub bulk : Store
bulk = record tables {
  evidence = observation 1 ∷ observation 2 ∷ observation 3 ∷ observation 4 ∷ observation 5 ∷ [];
  links =
      link 1
      ∷ link 2
      ∷ link 3
      ∷ link 4
      ∷ record { belief_id = 1; evidence_id = 5; relation = "contradict" }
      ∷ [];
}

abbrev pub fold_it : Proposal
fold_it = record (proposal evidence_compact 1 "fold") {
  payload = record (proposal evidence_compact 1 "fold").payload {
    keep_ids = 1 ∷ 4 ∷ 5 ∷ [];
    fold_ids = 2 ∷ 3 ∷ [];
    policy = record { oldest = some 1; recent = some 1; highest_authority = some 1 };
    min_support_links = some 1;
  };
}

-- Each handler answers with the target and leaves the tables alone.
abbrev pub answer : Proposal → Store → Outcome (Option ℕ)
answer p s = done p.target_belief_id s

abbrev pub handlers : Handlers
handlers = record {
  commit_create = answer;
  commit_support = answer;
  commit_update = answer;
  commit_contradict = answer;
  commit_correct = answer;
  commit_forget = answer;
  persist_snapshot = λ p s. done tt s;
  append_version = λ p id s. done tt s;
}
