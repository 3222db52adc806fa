-- ===== src/Metabolism/Planner/Decisions.antt =====
-- What `decide_tier` may propose.
use mirror_memory.Prelude.{ℕ, ◌<◌, ◌≡◌, ◌≢◌, refl, true, Option, none, some, arith}
use mirror_memory.Prelude.Float.{Float, FloatOps}
use mirror_memory.Prelude.Dict.{get}
use mirror_memory.Core.Rows.{Belief}
use mirror_memory.Metabolism.Tiers.{
  Tier, dormant, archived, tier_eq, tier_rank, is_legal_tier_transition,
}
use mirror_memory.Metabolism.Retention.{
  RetentionPolicy, retention_policy_for, retention_policy_for-total, policy_table,
}
use mirror_memory.Metabolism.Protection.{Reason}
use mirror_memory.Metabolism.Heat.{heat_tier}
use mirror_memory.Metabolism.Planner.{
  DecisionReason, TierDecision, TierRules, Signals, live_tier, class_of, step_down, idle_days,
  verdict, Verdict, protection_of, heat_of, decision, decide_tier,
}

module _ (fl : FloatOps) where
  abbrev IsPast : Option ℕ → Float → Type 0
  IsPast none idle = ⊥
  IsPast (some days) idle = fl.fle (fl.of_int days) idle ≡ true

  -- The belief's class has an archive clock, and the idle time has reached it.
  abbrev pub IsOverdue : Option RetentionPolicy → Float → Type 0
  IsOverdue none idle = ⊥
  IsOverdue (some q) idle = IsPast q.archive_after_days idle

  module _ (from target : Tier) (p : Option Reason) (policy : Option RetentionPolicy) (idle : Float)
      (t : Tier) (w : DecisionReason)
      (decided : verdict fl from target p policy idle ≡ some (some t, w)) where
    verdict-legal : is_legal_tier_transition from t ≡ true
    unfolding verdict is_legal_tier_transition step_down tier_rank tier_eq
    verdict-legal = ground arith

    verdict-protected : (r : Reason) → p ≡ some r → tier_rank t < tier_rank from
    unfolding verdict tier_rank step_down tier_eq is_legal_tier_transition
    verdict-protected r e = ground arith

    verdict-no_schedule :
        (q : RetentionPolicy)
        → policy ≡ some q
        → q.cool_after_days ≡ none
        → q.archive_after_days ≡ none
        → tier_rank t < tier_rank from
    unfolding verdict tier_rank step_down tier_eq is_legal_tier_transition
    verdict-no_schedule q e c a = ground arith

    verdict-archived : t ≡ archived → (from ≡ dormant) × (p ≡ none) × IsOverdue policy idle
    unfolding verdict tier_rank step_down tier_eq is_legal_tier_transition
    verdict-archived e = ground arith

  verdict-total :
      (from target : Tier) (p : Option Reason) (q : RetentionPolicy) (idle : Float)
      → verdict fl from target p (some q) idle ≢ none
  unfolding verdict
  verdict-total from target p q idle h = ground arith

  module _ (b : Belief) (s : Signals) (rules : TierRules) (now : ℕ) {d : TierDecision} {t : Tier}
      (decided : decide_tier fl b s rules now ≡ some d) (proposed : d.to_tier ≡ some t) where
    abbrev policy : Option RetentionPolicy
    policy = retention_policy_for (class_of b) rules.policies

    abbrev the_verdict : Option (Verdict fl)
    the_verdict =
        verdict fl (live_tier b) (heat_tier fl (heat_of fl b s rules now) rules.thresholds)
          (protection_of fl b s) policy (idle_days fl b now)

    from_decision : (the_verdict ≡ some (some t, d.reason)) × (d.from_tier ≡ live_tier b)
    unfolding decide_tier
    from_decision = go the_verdict decided
      where
        go :
            (v : Option (Verdict fl))
            → decision fl b s rules now v ≡ some d
            → (v ≡ some (some t, d.reason)) × (d.from_tier ≡ live_tier b)
        go none h = cc
        go (some (to, why)) h = (ground (arith, h), ground (arith, h))

    -- A proposed move starts at the live tier and is a legal edge of the tier state machine.
    pub decide_tier-legal :
        (d.from_tier ≡ live_tier b) × (is_legal_tier_transition (live_tier b) t ≡ true)
    decide_tier-legal = (from_decision.1, verdict-legal _ _ _ _ _ _ _ from_decision.0)

    -- A protected belief is only ever moved to a warmer tier.
    pub decide_tier-protected :
        (r : Reason) → protection_of fl b s ≡ some r → tier_rank t < tier_rank (live_tier b)
    decide_tier-protected = verdict-protected _ _ _ _ _ _ _ from_decision.0

    -- A belief whose retention class has no schedule is only ever moved to a warmer tier.
    decide_tier-no_schedule :
        (q : RetentionPolicy)
        → policy ≡ some q
        → q.cool_after_days ≡ none
        → q.archive_after_days ≡ none
        → tier_rank t < tier_rank (live_tier b)
    decide_tier-no_schedule = verdict-no_schedule _ _ _ _ _ _ _ from_decision.0

    -- Archiving is proposed only for an unprotected dormant belief whose idle time has reached the
    -- archive clock of its class.
    decide_tier-archived :
        t ≡ archived
        → (live_tier b ≡ dormant)
          × (protection_of fl b s ≡ none)
          × IsOverdue policy (idle_days fl b now)
    decide_tier-archived = verdict-archived _ _ _ _ _ _ _ from_decision.0

  module _ (b : Belief) (s : Signals) (rules : TierRules) (now : ℕ) where
    -- With a preference class among the policies the decision never raises.
    pub decide_tier-total :
        (p : RetentionPolicy)
        → get (policy_table rules.policies) "preference" ≡ some p
        → (d : TierDecision) × (decide_tier fl b s rules now ≡ some d)
    unfolding decide_tier
    decide_tier-total p h =
        let (q, found) = retention_policy_for-total (class_of b) rules.policies p h in
        go _ (λ e. verdict-total _ _ _ q _ (rw found at e))
      where
        go :
            (v : Option (Verdict fl))
            → v ≢ none
            → (d : TierDecision) × (decision fl b s rules now v ≡ some d)
        go none h = absurd (h refl)
        go (some (to, why)) h = (_, refl)
