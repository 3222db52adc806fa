-- ===== src/Cycle/Accounting.antt =====
-- What a cycle's report counts, and what the cycle leaves of the revisions.
use mirror_memory.Prelude.{
  ℕ, ◌+◌, ◌≤◌, String, Bool, false, Option, none, some, List, [], ◌∷◌, ◌++◌, ◌≡◌, refl, ◌∙◌, length,
  arith,
}
use mirror_memory.Prelude.Float.{FloatOps}
use mirror_memory.Metabolism.Tiers.{Tier}
use mirror_memory.Metabolism.Compact.{CompactionPlan}
use mirror_memory.Metabolism.Planner.{TierDecision, decide_tier}
use mirror_memory.Core.Rows.{Belief}
use mirror_memory.Core.Proposal.{Proposal}
use mirror_memory.Core.Store.{Store}
use mirror_memory.Core.Publisher.Commit.{Handlers}
use mirror_memory.Core.Publisher.Publish.{publish}
use mirror_memory.Cycle.{
  move_proposal, fold_proposal, CycleConfig, Plan, MetabolismReport, size, plan_move, plan_fold,
  plan_belief, plan_beliefs, empty_plan, count_move, count_fold, publish_moves, publish_folds,
  publish_plan, run_metabolism, finish, planned_report, scan_beliefs, signals_of,
}

length-snoc : {A : Type 0} (xs : List A) (y : A) → length (xs ++ y ∷ []) ≡ length xs + 1
length-snoc [] y = refl
length-snoc (x ∷ xs) y = omega (arith, length-snoc xs y)

module _ (fl : FloatOps) (cfg : CycleConfig) (user : String) (fresh : ℕ → String) (now : ℕ)
    (s : Store) where
  plan_move-size :
      (d : TierDecision) (o : Option Tier) (plan : Plan)
      → size plan ≤ cfg.max_transitions
      → size (plan_move fl cfg user fresh now s d o plan) ≤ cfg.max_transitions
  unfolding plan_move
  plan_move-size d none plan h = h
  plan_move-size d (some to) plan h =
      ground (
        arith,
        h,
        length-snoc plan.moves (d, move_proposal fl cfg user fresh now s (size plan) d to),
      )

  plan_fold-size :
      (key : String) (o : Option CompactionPlan) (plan : Plan)
      → size plan ≤ cfg.max_transitions
      → size (plan_fold fl cfg user fresh now s key o plan) ≤ cfg.max_transitions
  unfolding plan_fold
  plan_fold-size key none plan h = h
  plan_fold-size key (some c) plan h = ground (
    arith,
    h,
    length-snoc plan.folds
        (key, fold_proposal fl cfg user fresh now s (size plan) c, length c.fold_ids),
  )

  plan_beliefs-size :
      (bs : List Belief) (plan q : Plan)
      → size plan ≤ cfg.max_transitions
      → plan_beliefs fl cfg user fresh now s bs plan ≡ some q
      → size q ≤ cfg.max_transitions
  unfolding plan_beliefs
  plan_beliefs-size [] plan q h e = ground (arith, h, e)
  plan_beliefs-size (b ∷ bs) plan q h e =
      by_decision
        (λ d. plan_beliefs-size bs _ q (plan_move-size d d.to_tier _ (plan_fold-size b.key _ _ h)))
        (decide_tier fl b (signals_of fl cfg user fresh now s b) cfg.rules now) e
    where
      by_decision :
          ((d : TierDecision)
            → plan_beliefs fl cfg user fresh now s bs (plan_belief fl cfg user fresh now s b d plan)
              ≡ some q
            → size q ≤ cfg.max_transitions)
          → (o : Option TierDecision)
          → elim o [
            | none ↦ none
            | some d ↦
                plan_beliefs fl cfg user fresh now s bs
                  (plan_belief fl cfg user fresh now s b d plan)
          ]
            ≡ some q
          → size q ≤ cfg.max_transitions
      by_decision rest none e = cc
      by_decision rest (some d) e = rest d e

module _ (fl : FloatOps) (h : Handlers) (now : ℕ) where
  -- The proposals that have been answered, on top of those of a report.
  abbrev answered : MetabolismReport → ℕ
  answered r = r.committed + r.refused

  publish_moves-answered :
      (ps : List (TierDecision × Proposal)) (r : MetabolismReport) (s : Store)
      → (answered (publish_moves fl h now ps r s).0 ≡ answered r + length ps)
        × ((publish_moves fl h now ps r s).0.proposals ≡ r.proposals)
  unfolding publish_moves count_move
  publish_moves-answered [] r s = (omega arith, refl)
  publish_moves-answered ((d, p) ∷ ps) r s =
      let rest =
        publish_moves-answered ps (count_move fl h now d.key (publish fl h now p s).0.verdict r)
          (publish fl h now p s).1 in
      (ground (arith, rest.0), ground (arith, rest.1))

  publish_folds-answered :
      (ps : List (String × Proposal × ℕ)) (r : MetabolismReport) (s : Store)
      → (answered (publish_folds fl h now ps r s).0 ≡ answered r + length ps)
        × ((publish_folds fl h now ps r s).0.proposals ≡ r.proposals)
  unfolding publish_folds count_fold
  publish_folds-answered [] r s = (omega arith, refl)
  publish_folds-answered ((key, p, rows) ∷ ps) r s =
      let rest =
        publish_folds-answered ps (count_fold fl h now key rows (publish fl h now p s).0.verdict r)
          (publish fl h now p s).1 in
      (ground (arith, rest.0), ground (arith, rest.1))

module _ (fl : FloatOps) (h : Handlers) (cfg : CycleConfig) (user : String) (fresh : ℕ → String)
    (now : ℕ) (s : Store) where
  -- A cycle that returns has planned its proposals: the report is the one of its plan, published.
  pub ran :
      (dry_run : Bool) {r : MetabolismReport} {t : Store}
      → run_metabolism fl h cfg user fresh now dry_run s ≡ some (r, t)
      → (plan : Plan) × (plan_beliefs fl cfg user fresh now s (scan_beliefs user s) empty_plan
          ≡ some plan)
        × (finish fl h cfg user fresh now dry_run s (some plan) ≡ some (r, t))
  unfolding run_metabolism
  ran dry_run {r = r} {t = t} e =
      by_plan (plan_beliefs fl cfg user fresh now s (scan_beliefs user s) empty_plan) refl e
    where
      by_plan :
          (o : Option Plan)
          → plan_beliefs fl cfg user fresh now s (scan_beliefs user s) empty_plan ≡ o
          → finish fl h cfg user fresh now dry_run s o ≡ some (r, t)
          → (plan : Plan) × (plan_beliefs fl cfg user fresh now s (scan_beliefs user s) empty_plan
              ≡ some plan)
            × (finish fl h cfg user fresh now dry_run s (some plan) ≡ some (r, t))
      by_plan none p e = cc
      by_plan (some plan) p e = (plan, p, e)

  -- A run that is not dry answers all of its plan.
  publish_plan-answered :
      (plan : Plan) (r : MetabolismReport)
      → ((publish_plan fl h now false plan r s).0.committed
            + (publish_plan fl h now false plan r s).0.refused
          ≡ r.committed + r.refused + size plan)
        × ((publish_plan fl h now false plan r s).0.proposals ≡ r.proposals)
  unfolding publish_plan
  publish_plan-answered plan r =
      let moved = publish_moves-answered fl h now plan.moves r s in
      let folded =
        publish_folds-answered fl h now plan.folds (publish_moves fl h now plan.moves r s).0
          (publish_moves fl h now plan.moves r s).1 in
      (omega (arith, moved.0, folded.0), folded.1 ∙ moved.1)

  -- A cycle that is not dry plans no more proposals than the configured cap, and counts each of them
  -- as committed or as refused.
  pub run_metabolism-answers :
      (r : MetabolismReport) (t : Store)
      → run_metabolism fl h cfg user fresh now false s ≡ some (r, t)
      → (r.proposals ≤ cfg.max_transitions) × (r.committed + r.refused ≡ r.proposals)
  run_metabolism-answers r t e =
      let (plan, planned, done) = ran false e in
      let small =
        plan_beliefs-size fl cfg user fresh now s (scan_beliefs user s) empty_plan plan
          (omega arith) planned in
      let counted = publish_plan-answered plan (planned_report user false s plan) in
      (ground (arith, small, counted, done), ground (arith, counted, done))
