-- ===== src/Cycle/Termination.antt =====
-- When planning a cycle meets no KeyError.
use mirror_memory.Prelude.{ℕ, String, Bool, some, List, [], ◌∷◌, ◌≡◌, ap, refl}
use mirror_memory.Prelude.Float.{FloatOps}
use mirror_memory.Prelude.Dict.{get}
use mirror_memory.Metabolism.Retention.{RetentionPolicy, policy_table}
use mirror_memory.Metabolism.Planner.Decisions.{decide_tier-total}
use mirror_memory.Core.Rows.{Belief}
use mirror_memory.Core.Store.{Store}
use mirror_memory.Core.Publisher.Commit.{Handlers}
use mirror_memory.Cycle.{
  CycleConfig, Plan, MetabolismReport, plan_belief, plan_beliefs, empty_plan, run_metabolism,
  finish, scan_beliefs, signals_of,
}

module _ (fl : FloatOps) (cfg : CycleConfig) (user : String) (fresh : ℕ → String) (now : ℕ)
    (s : Store) (p : RetentionPolicy)
    (known : get (policy_table cfg.rules.policies) "preference" ≡ some p) where
  plan_beliefs-total :
      (bs : List Belief) (plan : Plan)
      → (q : Plan) × (plan_beliefs fl cfg user fresh now s bs plan ≡ some q)
  unfolding plan_beliefs
  plan_beliefs-total [] plan = (plan, refl)
  plan_beliefs-total (b ∷ bs) plan =
      let (d, decided) =
        decide_tier-total fl b (signals_of fl cfg user fresh now s b) cfg.rules now p known in
      let (q, rest) = plan_beliefs-total bs (plan_belief fl cfg user fresh now s b d plan) in
      (q, rw (decided, plan_beliefs) rest)

  -- With a preference class among the configured policies no decision of the model is the KeyError.
  pub run_metabolism-total :
      (h : Handlers) (dry_run : Bool)
      → (r : MetabolismReport) × (t : Store) × (run_metabolism fl h cfg user fresh now dry_run s
          ≡ some (r, t))
  unfolding run_metabolism
  run_metabolism-total h dry_run =
      let (plan, planned) = plan_beliefs-total (scan_beliefs user s) empty_plan in
      (_, _, ap (finish fl h cfg user fresh now dry_run s) planned)
