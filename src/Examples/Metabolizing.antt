-- ===== src/Examples/Metabolizing.antt =====
-- Tier decisions on one belief, a compaction plan, and the small tables of the cycle.
use mirror_memory.Prelude.{ℕ, String, false, Option, none, some, List, [], ◌∷◌, ◌≡◌, refl}
use mirror_memory.Prelude.Sort.{sort, insert, dedupe}
use mirror_memory.Metabolism.Tiers.{
  Tier, hot, dormant, archived, tier_eq, tier_rank, is_legal_tier_transition,
}
use mirror_memory.Metabolism.Retention.{
  RetentionPolicy, retention_policy_for, retention_policy_for-fallback,
}
use mirror_memory.Metabolism.Protection.{in_dispute, protection_reason, needs_clarification}
use mirror_memory.Metabolism.Heat.{
  heat_score, heat_tier, default_heat_weights, default_heat_thresholds, fmax, fmin, last_use,
}
use mirror_memory.Metabolism.Planner.{
  DecisionReason, TierDecision, TierRules, Signals, idle_days, latest, verdict, archive, reheat,
  protection_of, heat_of, decide_tier,
}
use mirror_memory.Metabolism.Compact.{
  EvidenceGraphRow, CompactionPlan, default_keep_policy, plan_compaction, keep_set, by_time,
  by_authority, authority_rank,
}
use mirror_memory.Core.Rows
use mirror_memory.Core.Rows.{Belief}
use mirror_memory.Examples.Floats.{fixed, of_units}
use mirror_memory.Examples.Tables.{belief}

-- A dormant belief, by its retention class and its last access.
abbrev stored : String → Option ℕ → Belief
stored class used = record (belief 1 Rows.active) {
  memory_tier = some dormant;
  retention_class = class;
  last_accessed_at = used;
}

abbrev much_later : ℕ
much_later = 1000000000000000

abbrev rules : TierRules
rules = record {
  policies = [];
  weights = default_heat_weights fixed;
  thresholds = default_heat_thresholds fixed;
  half_life_days = of_units 30000000;
}

abbrev signals : ℕ → Signals
signals n = record { support_count = n; correct_count = 0; pending_verification = false }

abbrev decided : Belief → ℕ → Tier → DecisionReason → TierDecision
decided b n to why = record {
  belief_id = 1;
  key = "lives_in";
  from_tier = dormant;
  to_tier = some to;
  heat = heat_of fixed b (signals n) rules much_later;
  reason = why;
  protected_reason = protection_of fixed b (signals n);
}

abbrev old : Belief
old = stored "preference" none

abbrev used : Belief
used = stored "preference" (some much_later)

abbrev fact : Belief
fact = stored "canonical" (some much_later)

decisions :
    (decide_tier fixed old (signals 2) rules much_later ≡ some (decided old 2 archived archive))
    × (decide_tier fixed used (signals 1) rules much_later ≡ some (decided used 1 hot reheat))
    × (decide_tier fixed fact (signals 2) rules much_later ≡ some (decided fact 2 hot reheat))
unfolding decide_tier verdict tier_rank tier_eq is_legal_tier_transition heat_score heat_tier
    idle_days latest fmax fmin last_use protection_reason in_dispute needs_clarification
    retention_policy_for
decisions = (refl, refl, refl)

abbrev episodic_only : RetentionPolicy
episodic_only = record { cool_after_days = some 30; archive_after_days = some 90 }

retention_policy_for-fallback_example :
    retention_policy_for "unheard_of" (("preference", episodic_only) ∷ []) ≡ some episodic_only
retention_policy_for-fallback_example =
    retention_policy_for-fallback "unheard_of" (("preference", episodic_only) ∷ []) episodic_only
      refl refl

-- Eight observations that support a belief, and one that contradicts it.
abbrev seen : ℕ → String → EvidenceGraphRow
seen id relation = record {
  evidence_id = id;
  relation = relation;
  authority = "user";
  source_type = "message";
  observed_at = some id;
  retention_state = "hot";
}

abbrev observed : List EvidenceGraphRow
observed =
    seen 1 "support"
    ∷ seen 2 "support"
    ∷ seen 3 "support"
    ∷ seen 4 "support"
    ∷ seen 5 "support"
    ∷ seen 6 "support"
    ∷ seen 7 "support"
    ∷ seen 8 "support"
    ∷ seen 9 "contradict"
    ∷ []

abbrev folding : CompactionPlan
folding = record { belief_id = 1; keep_ids = 1 ∷ 2 ∷ 6 ∷ 7 ∷ 8 ∷ 9 ∷ []; fold_ids = 3 ∷ 4 ∷ 5 ∷ [] }

planned : plan_compaction observed 1 default_keep_policy 5 ≡ some folding
unfolding plan_compaction keep_set by_time by_authority authority_rank sort insert dedupe
planned = refl
