-- ===== src/Core/Proposal.antt =====
-- core/proposal.py: a write that has been decided but not committed.
use mirror_memory.Prelude.{ℕ, String, Bool, true, false, Option, List, ◌≡◌, if◌then◌else◌, arith}
use mirror_memory.Prelude.Text.{str_eq}
use mirror_memory.Prelude.Float.{Float}
use mirror_memory.Metabolism.Tiers.{Tier}
use mirror_memory.Metabolism.Compact.{RawPolicy}

pub data Transition : Type 0 where
  create support update contradict verify correct forget synthesize : Transition
  tier_transition evidence_compact reject confirm_rate : Transition

unfoldable pub is_truth : Transition → Bool
is_truth synthesize = false
is_truth tier_transition = false
is_truth evidence_compact = false
is_truth confirm_rate = false
is_truth _ = true

unfoldable pub is_value : Transition → Bool
is_value create = true
is_value update = true
is_value correct = true
is_value _ = false

unfoldable pub mutates_beliefs : Transition → Bool
mutates_beliefs verify = false
mutates_beliefs synthesize = false
mutates_beliefs _ = true

-- The entries of `payload` that the gates and the modelled handlers read. The other handlers read
-- the rest of it, which is `claim`, a number that names it.
pub record Payload : Type 0 where
  pub from_tier : Tier
  pub to_tier : Tier
  pub reason : String
  pub score : Float
  pub revival : Bool
  pub verdict : String
  pub keep_ids : List ℕ
  pub fold_ids : List ℕ
  pub policy : RawPolicy
  pub min_support_links : Option ℕ
  pub claim : ℕ

pub record Proposal : Type 0 where
  pub transition : Transition
  pub user_id : String
  pub session_id : Option String
  pub target_belief_id : Option ℕ
  pub payload : Payload
  pub evidence_ids : List ℕ
  pub expected_revision : ℕ
  pub proposal_id : String
  pub idempotency_key : String
  pub actor_type : String
  pub actor_id : String

-- `__post_init__`; `fresh` is the new `uuid4().hex`.
unfoldable pub post_init : String → Proposal → Proposal
post_init fresh p =
    let id = if str_eq p.proposal_id "" then fresh else p.proposal_id in
    record p {
      proposal_id = id;
      idempotency_key = if str_eq p.idempotency_key "" then id else p.idempotency_key;
    }

pub record ProposalLog : Type 0 where
  pub proposal_id : String
  pub idempotency_key : String
  pub user_id : String
  pub transition : Transition
  pub target_belief_id : Option ℕ
  pub created_belief_id : Option ℕ
  pub session_id : Option String
  pub actor_type : String
  pub actor_id : String
  pub expected_revision : ℕ
  pub revision_after : ℕ

-- Every transition that changes the value of a slot is a truth transition.
is_value-is_truth : (t : Transition) → is_value t ≡ true → is_truth t ≡ true
unfolding is_value is_truth
is_value-is_truth t h = ground arith
