-- ===== src/Core/Publisher/Moves.antt =====
-- What a committed tier move has checked, and what it writes.
use mirror_memory.Prelude.{ℕ, true, Option, none, some, ◌≡◌, ◌≢◌, refl, ap, arith}
use mirror_memory.Prelude.Float.{FloatOps}
use mirror_memory.Metabolism.Tiers.{tier_eq, is_legal_tier_transition}
use mirror_memory.Metabolism.Planner.{live_tier}
use mirror_memory.Metabolism.Protection.{protection_reason}
use mirror_memory.Core.Rows.{Belief, rejected}
use mirror_memory.Core.Proposal.{Proposal, tier_transition, is_truth, is_value}
use mirror_memory.Core.Store.{Store, target_of, find_belief}
use mathlib.Core.Option
use mirror_memory.Core.Repository.Revision.{get_state_revision}
use mirror_memory.Core.Repository.Tiers.{set_belief_tier}
use mirror_memory.Core.Repository.Provenance.{evidence_relation_count}
use mirror_memory.Core.Repository.Verification.{is_pending}
use mirror_memory.Core.Publisher.Gates.{check_tier_invariants, check_invariants}
use mirror_memory.Core.Publisher.Commit.{done, Handlers, handle, commit}
use mirror_memory.Core.Publisher.Publish.{committed, publish}
use mirror_memory.Core.Publisher.Inversion.{publish-Committed}
use mirror_memory.Core.Publisher.Guards.{gates_passed}

module _ (fl : FloatOps) (h : Handlers) (now : ℕ) (p : Proposal) (s : Store) where
  abbrev moved : ℕ → Store
  moved id =
      (set_belief_tier s id p.payload.from_tier p.payload.to_tier p.payload.reason
        p.payload.score).1

  commit-tier :
      (id : ℕ)
      → p.transition ≡ tier_transition
      → p.target_belief_id ≡ some id
      → commit fl h now p s
        ≡ done
            (
              get_state_revision (moved id) p.user_id,
              some (get_state_revision (moved id) p.user_id),
            )
            (moved id)
  unfolding commit handle is_truth is_value
  commit-tier id e t = ground (arith, e, t)

  target-inv :
      (b : Belief)
      → target_of p.target_belief_id s ≡ some b
      → (id : ℕ) × (p.target_belief_id ≡ some id) × (find_belief id s.beliefs ≡ some b)
  unfolding target_of
  target-inv b e = by_id p.target_belief_id refl e
    where
      by_id :
          (o : Option ℕ)
          → p.target_belief_id ≡ o
          → target_of o s ≡ some b
          → (id : ℕ) × (p.target_belief_id ≡ some id) × (find_belief id s.beliefs ≡ some b)
      by_id none e f = cc
      by_id (some id) e f = (id, e, f)

  -- What the gates establish of a tier move.
  abbrev pub IsAllowed : Belief → Type 0
  IsAllowed b =
      (target_of p.target_belief_id s ≡ some b)
      × (tier_eq p.payload.from_tier (live_tier b) ≡ true)
      × (is_legal_tier_transition p.payload.from_tier p.payload.to_tier ≡ true)
      × (b.status ≢ rejected)
      × (protection_reason fl b (evidence_relation_count s b.id "support")
            (evidence_relation_count s b.id "correct") (is_pending s p.user_id b.key)
          ≡ none)

  module _ (won : (publish fl h now p s).0.verdict ≡ committed)
      (kind : p.transition ≡ tier_transition) where
    allowed : (b : Belief) × IsAllowed b
    unfolding check_invariants check_tier_invariants
    allowed = by_target (target_of p.target_belief_id s) refl (gates_passed fl h now p s won).3
      where
        by_target :
            (o : Option Belief)
            → target_of p.target_belief_id s ≡ o
            → check_invariants fl s p ≡ none
            → (b : Belief) × IsAllowed b
        by_target none e g = ground (arith, kind, e, g)
        by_target (some b) e g = (b, ground (arith, kind, e, g))

    store_after :
        (id : ℕ)
        → p.target_belief_id ≡ some id
        → ((publish fl h now p s).1.beliefs ≡ (moved id).beliefs)
          × ((publish fl h now p s).1.evidence ≡ (moved id).evidence)
          × ((publish fl h now p s).1.links ≡ (moved id).links)
          × ((publish fl h now p s).1.transitions ≡ (moved id).transitions)
          × ((publish fl h now p s).0.belief_id ≡ (publish fl h now p s).0.revision_after)
    store_after id at =
        let o = publish-Committed fl h now p s won in
        let ran = commit-tier id kind at in
        let same : o.inner ≡ moved id = cc (o.ran, ran) in
        (
          rw o.left (ap (λ (t : Store). t.beliefs) same),
          rw o.left (ap (λ (t : Store). t.evidence) same),
          rw o.left (ap (λ (t : Store). t.links) same),
          rw o.left (ap (λ (t : Store). t.transitions) same),
          rw o.left (cc (o.ran, ran)),
        )

    -- The decision on a committed tier move gives as its belief the revision that it reports.
    pub publish-tier_belief_id :
        (publish fl h now p s).0.belief_id ≡ (publish fl h now p s).0.revision_after
    publish-tier_belief_id =
        let (b, ok) = allowed in let (id, at, there) = target-inv b ok.0 in (store_after id at).4
