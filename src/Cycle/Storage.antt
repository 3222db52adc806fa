-- ===== src/Cycle/Storage.antt =====
-- A cycle proposes storage transitions alone, so no truth write is made stale by it.
use mirror_memory.Prelude.{
  ℕ, String, Bool, true, false, not, Option, none, some, List, [], ◌∷◌, ◌++◌, ◌≡◌, ◌≢◌, refl, ap,
  sym, ◌∙◌, leb, length, subst, some_eq, All, if◌then◌else◌,
}
use mirror_memory.Prelude.Float.{FloatOps}
use mirror_memory.Metabolism.Tiers.{Tier}
use mirror_memory.Metabolism.Compact.{CompactionPlan, folds_anything}
use mirror_memory.Metabolism.Planner.{TierDecision, decide_tier}
use mirror_memory.Core.Rows.{Belief}
use mirror_memory.Core.Proposal.{Proposal, is_truth}
use mirror_memory.Core.Store.{Store}
use mirror_memory.Core.Repository.Revision.{get_state_revision}
use mirror_memory.Core.Publisher.Commit.{Handlers}
use mirror_memory.Core.Publisher.Publish.{
  Verdict, committed, already_committed, refused, cas_lost, commit_error, publish,
}
use mirror_memory.Core.Publisher.Atomicity.{publish-unchanged}
use mirror_memory.Core.Publisher.Revisions.{is_delegated, publish-storage}
use mirror_memory.Cycle.{
  CycleConfig, Plan, MetabolismReport, plan_move, plan_fold, plan_belief, plan_beliefs, empty_plan,
  publish_moves, publish_folds, publish_plan, run_metabolism, planned_report, scan_beliefs,
  signals_of, move_proposal, fold_proposal, size,
}
use mirror_memory.Cycle.Accounting.{ran}

abbrev IsStorage : Proposal → Type 0
IsStorage p = (is_truth p.transition ≡ false) × (is_delegated p.transition ≡ false)

All-snoc :
    {A : Type 0} (P : A → Type 0) (xs : List A) (y : A) → All P xs → P y → All P (xs ++ y ∷ [])
All-snoc P [] y a q = (q, tt)
All-snoc P (x ∷ xs) y a q = (a.0, All-snoc P xs y a.1 q)

record IsStoragePlan (plan : Plan) : Type 0 where
  moves : All (λ m. IsStorage m.1) plan.moves
  folds : All (λ m. IsStorage m.1) plan.folds

if-IsStoragePlan :
    (k : Bool) (x y : Plan) → IsStoragePlan x → IsStoragePlan y → IsStoragePlan (if k then x else y)
if-IsStoragePlan true x y p q = p
if-IsStoragePlan false x y p q = q

module _ (fl : FloatOps) (cfg : CycleConfig) (user : String) (fresh : ℕ → String) (now : ℕ)
    (s : Store) where
  plan_move-IsStoragePlan :
      (d : TierDecision) (o : Option Tier) (plan : Plan)
      → IsStoragePlan plan
      → IsStoragePlan (plan_move fl cfg user fresh now s d o plan)
  unfolding plan_move is_truth is_delegated
  plan_move-IsStoragePlan d none plan h = record { moves = h.moves; folds = h.folds }
  plan_move-IsStoragePlan d (some to) plan h =
      if-IsStoragePlan (leb cfg.max_transitions (size plan)) _ _
        (record { moves = h.moves; folds = h.folds })
        (record {
          moves =
              All-snoc _ plan.moves (d, move_proposal fl cfg user fresh now s (size plan) d to)
                h.moves (refl, refl);
          folds = h.folds;
        })

  plan_fold-IsStoragePlan :
      (key : String) (o : Option CompactionPlan) (plan : Plan)
      → IsStoragePlan plan
      → IsStoragePlan (plan_fold fl cfg user fresh now s key o plan)
  unfolding plan_fold is_truth is_delegated
  plan_fold-IsStoragePlan key none plan h = h
  plan_fold-IsStoragePlan key (some c) plan h = if-IsStoragePlan (not (folds_anything c)) _ _ h (
      if-IsStoragePlan (leb cfg.max_transitions (size plan)) _ _
        (record { moves = h.moves; folds = h.folds })
        (record {
          moves = h.moves;
          folds =
              All-snoc _ plan.folds
                (key, fold_proposal fl cfg user fresh now s (size plan) c, length c.fold_ids)
                h.folds (refl, refl);
        }))

  plan_beliefs-IsStoragePlan :
      (bs : List Belief) (plan q : Plan)
      → IsStoragePlan plan
      → plan_beliefs fl cfg user fresh now s bs plan ≡ some q
      → IsStoragePlan q
  unfolding plan_beliefs
  plan_beliefs-IsStoragePlan [] plan q h e = subst IsStoragePlan (some_eq e) h
  plan_beliefs-IsStoragePlan (b ∷ bs) plan q h e =
      by_decision
        (λ d. plan_beliefs-IsStoragePlan bs _ q (
          plan_move-IsStoragePlan d d.to_tier _
            (plan_fold-IsStoragePlan b.key _ _ (record { moves = h.moves; folds = h.folds }))))
        (decide_tier fl b (signals_of fl cfg user fresh now s b) cfg.rules now) e
    where
      by_decision :
          ((d : TierDecision)
            → plan_beliefs fl cfg user fresh now s bs (plan_belief fl cfg user fresh now s b d plan)
              ≡ some q
            → IsStoragePlan q)
          → (o : Option TierDecision)
          → elim o [
            | none ↦ none
            | some d ↦
                plan_beliefs fl cfg user fresh now s bs
                  (plan_belief fl cfg user fresh now s b d plan)
          ]
            ≡ some q
          → IsStoragePlan q
      by_decision rest none e = cc
      by_decision rest (some d) e = rest d e

-- Two stores with the same revision for every user.
abbrev Agree : Store → Store → Type 0
Agree s t = (u : String) → get_state_revision t u ≡ get_state_revision s u

module _ (fl : FloatOps) (h : Handlers) (now : ℕ) where
  publish-Agree : (p : Proposal) (s : Store) → IsStorage p → Agree s (publish fl h now p s).1
  publish-Agree p s e = by_verdict (publish fl h now p s).0.verdict refl
    where
      unchanged : (publish fl h now p s).0.verdict ≢ committed → Agree s (publish fl h now p s).1
      unchanged n u = ap (λ t. get_state_revision t u) (publish-unchanged fl h now p s n)

      by_verdict :
          (v : Verdict) → (publish fl h now p s).0.verdict ≡ v → Agree s (publish fl h now p s).1
      by_verdict committed q = (publish-storage fl h now p s q e.0 e.1).1
      by_verdict (already_committed x) q = unchanged (λ c. cc)
      by_verdict (refused x) q = unchanged (λ c. cc)
      by_verdict (cas_lost x) q = unchanged (λ c. cc)
      by_verdict (commit_error x) q = unchanged (λ c. cc)

  publish_moves-Agree :
      (ps : List (TierDecision × Proposal)) (r : MetabolismReport) (s : Store)
      → All (λ m. IsStorage m.1) ps
      → Agree s (publish_moves fl h now ps r s).1
  unfolding publish_moves
  publish_moves-Agree [] r s a u = refl
  publish_moves-Agree ((d, p) ∷ ps) r s a u =
      publish_moves-Agree ps _ (publish fl h now p s).1 a.1 u ∙ publish-Agree p s a.0 u

  publish_folds-Agree :
      (ps : List (String × Proposal × ℕ)) (r : MetabolismReport) (s : Store)
      → All (λ m. IsStorage m.1) ps
      → Agree s (publish_folds fl h now ps r s).1
  unfolding publish_folds
  publish_folds-Agree [] r s a u = refl
  publish_folds-Agree ((key, p, rows) ∷ ps) r s a u =
      publish_folds-Agree ps _ (publish fl h now p s).1 a.1 u ∙ publish-Agree p s a.0 u

  publish_plan-Agree :
      (dry_run : Bool) (plan : Plan) (r : MetabolismReport) (s : Store)
      → IsStoragePlan plan
      → Agree s (publish_plan fl h now dry_run plan r s).1
  unfolding publish_plan
  publish_plan-Agree true plan r s a u = refl
  publish_plan-Agree false plan r s a u =
      publish_folds-Agree plan.folds _ _ a.folds u ∙ publish_moves-Agree plan.moves r s a.moves u

  -- No cycle moves a user's revision, so a truth proposal that was computed before a cycle is not
  -- made stale by it.
  pub run_metabolism-keeps :
      (cfg : CycleConfig) (user : String) (fresh : ℕ → String) (dry_run : Bool) (s : Store)
      (r : MetabolismReport) (t : Store)
      → run_metabolism fl h cfg user fresh now dry_run s ≡ some (r, t)
      → (u : String) → get_state_revision t u ≡ get_state_revision s u
  run_metabolism-keeps cfg user fresh dry_run s r t e u =
      let (plan, planned, done) = ran fl h cfg user fresh now s dry_run e in
      let safe =
        plan_beliefs-IsStoragePlan fl cfg user fresh now s (scan_beliefs user s) empty_plan plan
          (record { moves = tt; folds = tt }) planned in
      ap (λ (o : MetabolismReport × Store). get_state_revision o.1 u) (sym (some_eq done))
      ∙ publish_plan-Agree dry_run plan (planned_report user dry_run s plan) s safe u
