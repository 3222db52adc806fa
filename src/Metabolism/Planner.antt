-- ===== src/Metabolism/Planner.antt =====
-- metabolism/planner.py, `decide_tier`: which tier one belief should move to, if any.
pub mod Decisions
use mirror_memory.Prelude.{
  ℕ, ◌≤◌, ◌<◌, String, ◌≡◌, ◌≢◌, refl, Bool, true, false, Option, none, some, List, [], ◌∷◌, max,
  ltb, leb, ◌==◌, arith, or_else, if◌then◌else◌,
}
use mirror_memory.Prelude.Text.{str_eq}
use mirror_memory.Prelude.Float.{Float, FloatOps}
use mirror_memory.Prelude.Dict.{Dict, get}
use mirror_memory.Core.Rows.{Belief}
use mirror_memory.Metabolism.Tiers.{
  tier_or_hot, Tier, hot, warm, dormant, archived, tier_eq, tier_rank, is_legal_tier_transition,
}
use mirror_memory.Metabolism.Retention.{RetentionPolicy, retention_policy_for, policy_table}
use mirror_memory.Metabolism.Protection.{Reason, protection_reason}
use mirror_memory.Metabolism.Heat.{HeatWeights, HeatThresholds, heat_score, heat_tier, fmax}

pub data DecisionReason : Type 0 where
  settled policy_never_cools not_idle_enough capped cooling reheat : DecisionReason
  archive archive_too_soon policy_never_archives : DecisionReason
  protected_by : Reason → DecisionReason

-- `to_tier` is `none` where nothing is proposed.
pub record TierDecision : Type 0 where
  pub belief_id : ℕ
  pub key : String
  pub from_tier : Tier
  pub to_tier : Option Tier
  pub heat : Float
  pub reason : DecisionReason
  pub protected_reason : Option Reason

-- What the configuration fixes for a cycle.
pub record TierRules : Type 0 where
  pub policies : Dict RetentionPolicy
  pub weights : HeatWeights
  pub thresholds : HeatThresholds
  pub half_life_days : Float

-- What the repository has derived for one belief.
pub record Signals : Type 0 where
  pub support_count : ℕ
  pub correct_count : ℕ
  pub pending_verification : Bool

abbrev pub live_tier : Belief → Tier
live_tier b = tier_or_hot b.memory_tier

abbrev pub class_of : Belief → String
class_of b = if str_eq b.retention_class "" then "preference" else b.retention_class

unfoldable pub step_down : Tier → Option Tier
step_down hot = some warm
step_down warm = some dormant
step_down _ = none

-- The later of the stamps that are there.
unfoldable pub latest : Option ℕ → Option ℕ → Option ℕ
latest none e = e
latest (some a) none = some a
latest (some a) (some e) = some (max a e)

module _ (fl : FloatOps) where
  unfoldable pub idle_since : Option ℕ → ℕ → Float
  idle_since none now = fl.inf
  idle_since (some used) now =
      fmax fl (fl.div (fl.seconds now used) (fl.decimal 864000 1)) (fl.decimal 0 1)

  unfoldable pub idle_days : Belief → ℕ → Float
  unfolding idle_since latest
  idle_days b now = idle_since (latest b.last_accessed_at b.last_evidence_at) now

  -- A verdict: the tier that is proposed, and why.
  abbrev pub Verdict : Type 0
  Verdict = Option Tier × DecisionReason

  archive_verdict : Option Reason → Option RetentionPolicy → Float → Option Verdict
  archive_verdict (some r) policy idle = some (none, settled)
  archive_verdict none none idle = none
  archive_verdict none (some policy) idle = elim policy.archive_after_days [
    | none ↦ some (none, policy_never_archives)
    | some days ↦
        if fl.fle (fl.of_int days) idle
        then some (some archived, archive)
        else some (none, archive_too_soon)
  ]

  demote_verdict : Tier → Option Reason → Option RetentionPolicy → Float → Option Verdict
  demote_verdict from (some r) policy idle = some (none, protected_by r)
  demote_verdict from none none idle = none
  demote_verdict from none (some policy) idle = elim policy.cool_after_days [
    | none ↦ some (none, policy_never_cools)
    | some days ↦
        if fl.flt idle (fl.of_int days)
        then some (none, not_idle_enough)
        else elim (step_down from) [ none ↦ some (none, settled) | some t ↦ some (some t, cooling) ]
  ]

  -- `none` is the KeyError of a policy table with no preference class.
  unfoldable pub verdict :
      Tier → Tier → Option Reason → Option RetentionPolicy → Float → Option Verdict
  unfolding archive_verdict demote_verdict
  verdict from target protection policy idle =
      if ltb (tier_rank target) (tier_rank from)
      then (if is_legal_tier_transition from hot
          then some (some hot, reheat)
          else some (none, settled))
      else if tier_eq from dormant
      then archive_verdict protection policy idle
      else if tier_rank target == tier_rank from
      then some (none, settled)
      else demote_verdict from protection policy idle

  abbrev pub protection_of : Belief → Signals → Option Reason
  protection_of b s = protection_reason fl b s.support_count s.correct_count s.pending_verification

  abbrev pub heat_of : Belief → Signals → TierRules → ℕ → Float
  heat_of b s rules now =
      heat_score fl b now (some s.support_count) rules.weights rules.half_life_days false
        (fl.decimal 70 2)

  abbrev pub decision : Belief → Signals → TierRules → ℕ → Option Verdict → Option TierDecision
  decision b s rules now none = none
  decision b s rules now (some (to, why)) = some (record {
    belief_id = b.id;
    key = b.key;
    from_tier = live_tier b;
    to_tier = to;
    heat = heat_of b s rules now;
    reason = why;
    protected_reason = protection_of b s;
  })

  unfoldable pub decide_tier : Belief → Signals → TierRules → ℕ → Option TierDecision
  decide_tier b s rules now = decision b s rules now (
      verdict (live_tier b) (heat_tier fl (heat_of b s rules now) rules.thresholds)
        (protection_of b s) (retention_policy_for (class_of b) rules.policies) (idle_days b now))
