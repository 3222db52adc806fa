-- ===== src/Core/Publisher/Folds.antt =====
-- What a committed compaction has checked, and what it leaves of the evidence.
use mirror_memory.Prelude.{
  ℕ, String, true, false, Option, none, some, List, [], ◌∷◌, ◌≡◌, ◌≢◌, refl, ap, ◌∙◌, arith, map,
  mem, filter,
}
use mathlib.Core.Option
use mirror_memory.Prelude.Float.{FloatOps}
use mirror_memory.Metabolism.Compact.{CompactionPlan, ids, is_load_bearing}
use mirror_memory.Metabolism.Compact.Digest.{build_digest_fields}
use mirror_memory.Metabolism.Compact.Selection.{fold_ids-not-load_bearing}
use mirror_memory.Metabolism.Protection.{compaction_protection_reason}
use mirror_memory.Core.Rows.{Belief, Evidence, rejected}
use mirror_memory.Core.Proposal.{Proposal, evidence_compact, is_truth, is_value}
use mirror_memory.Core.Store.{Store, target_of, find_evidence, update_belief}
use mirror_memory.Core.Repository.Revision.{get_state_revision}
use mirror_memory.Core.Repository.Provenance.{evidence_graph}
use mirror_memory.Core.Repository.Verification.{is_pending}
use mirror_memory.Core.Repository.Compaction.{apply_evidence_compaction, mark}
use mirror_memory.Core.Publisher.Gates.{
  check_invariants, check_compact_invariants, live_plan, same_set, selection_check,
}
use mirror_memory.Core.Publisher.Commit.{done, Handlers, handle, commit}
use mirror_memory.Core.Publisher.Publish.{committed, publish}
use mirror_memory.Core.Publisher.Inversion.{publish-Committed}
use mirror_memory.Core.Publisher.Guards.{gates_passed}

-- The content of a row, where there is one.
abbrev pub content_of : ℕ → Store → Option String
content_of a s = Option.map (λ e. e.content) (find_evidence a s.evidence)

module _ (digest : ℕ) (keep fold : List ℕ) where
  id-mark : (e : Evidence) → (mark digest keep fold e).id ≡ e.id
  unfolding mark
  id-mark e = ground arith

  content-mark :
      (e : Evidence) → mem e.id fold ≡ false → (mark digest keep fold e).content ≡ e.content
  unfolding mark
  content-mark e h = ground (arith, h)

  content-marked :
      (a : ℕ) (es : List Evidence)
      → mem a fold ≡ false
      → Option.map (λ e. e.content) (find_evidence a (map (mark digest keep fold) es))
        ≡ Option.map (λ e. e.content) (find_evidence a es)
  unfolding find_evidence
  content-marked a [] h = refl
  content-marked a (e ∷ es) h = ground (arith, id-mark e, content-mark e, h, content-marked a es h)

module _ (fl : FloatOps) (h : Handlers) (now : ℕ) (p : Proposal) (s : Store) where
  -- The store after the plan of a belief has been applied.
  abbrev folded : Belief → CompactionPlan → Store
  folded b plan =
      apply_evidence_compaction s b plan.keep_ids plan.fold_ids
        (build_digest_fields (evidence_graph s b.id) plan.keep_ids)

  commit-compact :
      (b : Belief) (plan : CompactionPlan)
      → p.transition ≡ evidence_compact
      → target_of p.target_belief_id s ≡ some b
      → live_plan s p.payload b.id ≡ some plan
      → commit fl h now p s
        ≡ done
            (
              get_state_revision (folded b plan) p.user_id,
              some (get_state_revision (folded b plan) p.user_id),
            )
            (folded b plan)
  unfolding commit handle is_truth is_value
  commit-compact b plan e t l = ground (arith, e, t, l)

  -- What the gates establish of a compaction: the proposal's selection is the live one.
  abbrev pub IsLivePlan : Belief → CompactionPlan → Type 0
  IsLivePlan b plan =
      (compaction_protection_reason b (is_pending s p.user_id b.key) ≡ none)
      × (b.status ≢ rejected)
      × (live_plan s p.payload b.id ≡ some plan)
      × (same_set p.payload.keep_ids plan.keep_ids ≡ true)
      × (same_set p.payload.fold_ids plan.fold_ids ≡ true)

  module _ (won : (publish fl h now p s).0.verdict ≡ committed)
      (kind : p.transition ≡ evidence_compact) (b : Belief)
      (at : target_of p.target_belief_id s ≡ some b) where
    live : (plan : CompactionPlan) × IsLivePlan b plan
    unfolding check_invariants check_compact_invariants selection_check
    live = by_plan (live_plan s p.payload b.id) refl (gates_passed fl h now p s won).3
      where
        by_plan :
            (o : Option CompactionPlan)
            → live_plan s p.payload b.id ≡ o
            → check_invariants fl s p ≡ none
            → (plan : CompactionPlan) × IsLivePlan b plan
        by_plan none e g = ground (arith, kind, at, e, g)
        by_plan (some plan) e g = (plan, ground (arith, kind, at, e, g))

    store_after :
        (plan : CompactionPlan)
        → live_plan s p.payload b.id ≡ some plan
        → ((publish fl h now p s).1.beliefs ≡ (folded b plan).beliefs)
          × ((publish fl h now p s).1.evidence ≡ (folded b plan).evidence)
          × ((publish fl h now p s).1.links ≡ (folded b plan).links)
    store_after plan l =
        let o = publish-Committed fl h now p s won in
        let ran = commit-compact b plan kind at l in
        let same : o.inner ≡ folded b plan = cc (o.ran, ran) in
        (
          rw o.left (ap (λ (t : Store). t.beliefs) same),
          rw o.left (ap (λ (t : Store). t.evidence) same),
          rw o.left (ap (λ (t : Store). t.links) same),
        )

    pub publish-evidence_compact :
        (plan : CompactionPlan) × (digest : ℕ) × IsLivePlan b plan
        × ((publish fl h now p s).1.beliefs
            ≡ update_belief b.id (λ c. record c { compacted_into = some digest }) s.beliefs)
        × ((publish fl h now p s).1.evidence
            ≡ map (mark digest plan.keep_ids plan.fold_ids) s.evidence)
        × ((publish fl h now p s).1.links ≡ s.links)
    unfolding apply_evidence_compaction
    publish-evidence_compact =
        let (plan, ok) = live in
        let (beliefs, evidence, links) = store_after plan ok.2 in
        (plan, _, ok, beliefs, evidence, links)

    -- After a committed compaction the evidence behind a correction, a contradiction or a verification
    -- of the compacted belief keeps its content.
    pub publish-load_bearing :
        (a : ℕ)
        → mem a (ids (filter is_load_bearing (evidence_graph s b.id))) ≡ true
        → content_of a (publish fl h now p s).1 ≡ content_of a s
    unfolding live_plan
    publish-load_bearing a m =
        let (plan, digest, ok, beliefs, evidence, links) = publish-evidence_compact in
        ap (λ es. Option.map (λ e. e.content) (find_evidence a es)) evidence
        ∙ content-marked digest plan.keep_ids plan.fold_ids a s.evidence
            (fold_ids-not-load_bearing (evidence_graph s b.id) b.id _ _ ok.2 a m)
