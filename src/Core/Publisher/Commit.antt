-- ===== src/Core/Publisher/Commit.antt =====
-- core/publisher.py, `_commit` and its handlers. The handlers of the transitions that assert or
-- erase claims, and the snapshot writer, are the fields of `Handlers`.
use mirror_memory.Prelude.{ℕ, String, Option, none, some, [], ◌∷◌, or_else, if◌then◌else◌}
use mirror_memory.Prelude.Text.{str_eq}
use mirror_memory.Prelude.Float.{Float, FloatOps}
use mirror_memory.Prelude.Dict.{Dict, get}
use mirror_memory.Metabolism.Compact.{CompactionPlan}
use mirror_memory.Metabolism.Compact.Digest.{build_digest_fields}
use mirror_memory.Core.Rows.{Belief, Json, text, number, opaque}
use mirror_memory.Core.Proposal.{
  Proposal, create, support, update, contradict, verify, correct, forget, synthesize,
  tier_transition, evidence_compact, reject, confirm_rate, is_truth, is_value,
}
use mirror_memory.Core.Store.{Store, update_belief, target_of}
use mirror_memory.Core.Repository.Revision.{get_state_revision, cas_bump_state_revision}
use mirror_memory.Core.Repository.Tiers.{set_belief_tier}
use mirror_memory.Core.Repository.Provenance.{evidence_graph}
use mirror_memory.Core.Repository.Verification.{confirm_belief, reject_belief, close_open_versions}
use mirror_memory.Core.Repository.Compaction.{apply_evidence_compaction}
use mirror_memory.Core.Publisher.Gates.{live_plan}

-- What runs inside the savepoint: a result, a lost swap, or another exception, each with the store
-- that it has come to.
pub data Outcome {ℓ} (A : Type ℓ) : Type ℓ where
  done : A → Store → Outcome A
  stale : Store → Outcome A
  raised : String → Store → Outcome A

infixl 5 ◌>>=◌
abbrev pub ◌>>=◌ {ℓ κ} : {A : Type ℓ} {B : Type κ} → Outcome A → (A → Store → Outcome B) → Outcome B
done a s >>= f = f a s
stale s >>= f = stale s
raised e s >>= f = raised e s

-- The claim handlers get the proposal and the store, and return the id of the belief. The last two
-- are `persist_snapshot` and `append_belief_version`.
pub record Handlers : Type 0 where
  pub commit_create : Proposal → Store → Outcome (Option ℕ)
  pub commit_support : Proposal → Store → Outcome (Option ℕ)
  pub commit_update : Proposal → Store → Outcome (Option ℕ)
  pub commit_contradict : Proposal → Store → Outcome (Option ℕ)
  pub commit_correct : Proposal → Store → Outcome (Option ℕ)
  pub commit_forget : Proposal → Store → Outcome (Option ℕ)
  pub persist_snapshot : Proposal → Store → Outcome (Unit {0})
  pub append_version : Proposal → ℕ → Store → Outcome (Unit {0})

-- A handler on a target that the gates have found; without one the ORM's `get` raises.
with_target : Option ℕ → Store → (ℕ → Outcome (Option ℕ)) → Outcome (Option ℕ)
with_target none s f = raised "InvalidRequestError" s
with_target (some id) s f = f id

-- The three storage handlers return the revision, where the others return a belief's id.
storage_result : Proposal → Store → Outcome (Option ℕ)
storage_result p s = done (some (get_state_revision s p.user_id)) s

commit_tier_transition : Proposal → Store → Outcome (Option ℕ)
unfolding with_target storage_result
commit_tier_transition p s = with_target p.target_belief_id s λ id.
    storage_result p
      (set_belief_tier s id p.payload.from_tier p.payload.to_tier p.payload.reason
        p.payload.score).1

apply_plan : Store → Belief → Option CompactionPlan → Outcome (Unit {0})
apply_plan s b none = raised "AttributeError" s
apply_plan s b (some plan) = done tt (
    apply_evidence_compaction s b plan.keep_ids plan.fold_ids
      (build_digest_fields (evidence_graph s b.id) plan.keep_ids))

commit_evidence_compact : Proposal → Store → Outcome (Option ℕ)
unfolding apply_plan storage_result
commit_evidence_compact p s = elim (target_of p.target_belief_id s) [
  | none ↦ raised "AttributeError" s
  | some b ↦ apply_plan s b (live_plan s p.payload b.id) >>= λ _ t. storage_result p t
]

-- `val[k] = v`
put_json : String → Json → Dict Json → Dict Json
put_json k v [] = (k, v) ∷ []
put_json k v ((j, w) ∷ d) = if str_eq j k then (j, v) ∷ d else (j, w) ∷ put_json k v d

-- `val.get(k, prior)` used as a number: `none` where `+` raises TypeError
counter : Option Json → Float → Option Float
counter none prior = some prior
counter (some (number x)) prior = some x
counter (some (text _)) prior = none
counter (some opaque) prior = none

module _ (fl : FloatOps) where
  open fl use {decimal, add, div, flt, round_to}

  rated : Belief → Float → Float → Belief
  rated b alpha beta =
      let total = add alpha beta in
      let rate = if flt (decimal 0 0) total then round_to (div alpha total) 4 else decimal 5 1 in
      record b {
        value = put_json "confirm_rate" (number rate) (
            put_json "confirm_beta" (number beta)
              (put_json "confirm_alpha" (number alpha) b.value));
      }

  -- One more for the counter that the verdict names, and the rate anew.
  judged : Belief → String → Option Float → Option Float → Option Belief
  judged b verdict none beta = none
  judged b verdict (some alpha) none = none
  judged b verdict (some alpha) (some beta) = some (
      if str_eq verdict "confirm"
      then rated b (add alpha (decimal 1 0)) beta
      else if str_eq verdict "deny"
      then rated b alpha (add beta (decimal 1 0))
      else rated b alpha beta)

  commit_confirm_rate : Proposal → Store → Outcome (Option ℕ)
  unfolding judged rated put_json counter
  commit_confirm_rate p s = elim (target_of p.target_belief_id s) [
    | none ↦ done none s
    | some b ↦
        elim (judged b p.payload.verdict (counter (get b.value "confirm_alpha") (decimal 1 0))
          (counter (get b.value "confirm_beta") (decimal 1 0))) [
            | none ↦ raised "TypeError" s
            | some c ↦
                done (some b.id) (record s { beliefs = update_belief b.id (λ _. c) s.beliefs })
          ]
  ]

  module _ (h : Handlers) where
    -- The table of handlers.
    unfoldable pub handle : Proposal → Store → Outcome (Option ℕ)
    unfolding commit_tier_transition commit_evidence_compact commit_confirm_rate with_target
        storage_result
    handle p s = elim p.transition [
      | create ↦ h.commit_create p s
      | support ↦ h.commit_support p s
      | update ↦ h.commit_update p s
      | contradict ↦ h.commit_contradict p s
      | correct ↦ h.commit_correct p s
      | forget ↦ h.commit_forget p s
      | verify ↦
          with_target p.target_belief_id s (λ id. done (some id) (confirm_belief fl s p.user_id id))
      | reject ↦
          with_target p.target_belief_id s (λ id. done (some id) (reject_belief fl s p.user_id id))
      | confirm_rate ↦ commit_confirm_rate p s
      | synthesize ↦ h.persist_snapshot p s >>= λ _ t. storage_result p t
      | tier_transition ↦ commit_tier_transition p s
      | evidence_compact ↦ commit_evidence_compact p s
    ]

    -- The versioned ledger follows the change that produced the value.
    abbrev pub ledger : ℕ → Proposal → Option ℕ → Store → Outcome (Unit {0})
    ledger now p none s = done tt s
    ledger now p (some id) s =
        if is_value p.transition
        then h.append_version p id s
        else elim p.transition [ reject ↦ done tt (close_open_versions now id s) | _ ↦ done tt s ]

    -- The revision moves first, by the swap, for a truth transition alone.
    abbrev pub swap : Proposal → Store → Outcome (Option ℕ)
    swap p s =
        if is_truth p.transition
        then (let (won, t) = cas_bump_state_revision s p.user_id p.expected_revision in
            elim won [ none ↦ stale t | some r ↦ done (some r) t ])
        else done none s

    abbrev pub finish : Proposal → Option ℕ → Option ℕ → Store → Outcome (ℕ × Option ℕ)
    finish p revision id s = done (or_else revision (get_state_revision s p.user_id), id) s

    -- What follows the swap.
    abbrev pub rest : ℕ → Proposal → Option ℕ → Store → Outcome (ℕ × Option ℕ)
    rest now p revision t =
        handle p t >>= λ id u. ledger now p id u >>= λ _ v. finish p revision id v

    unfoldable pub commit : ℕ → Proposal → Store → Outcome (ℕ × Option ℕ)
    commit now p s = swap p s >>= rest now p
