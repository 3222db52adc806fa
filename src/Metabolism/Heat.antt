-- ===== src/Metabolism/Heat.antt =====
-- metabolism/heat.py: how alive a belief is, and the tier that its score maps onto.
use mirror_memory.Prelude.{
  ℕ, ◌≤◌, ◌≡◌, refl, Bool, true, ◌||◌, Option, none, some, [], ◌∷◌, arith, if◌then◌else◌,
}
use mirror_memory.Prelude.Text.{one_of}
use mirror_memory.Prelude.Float.{Float, FloatOps, FloatLaws}
use mirror_memory.Core.Rows.{Belief}
use mirror_memory.Metabolism.Tiers.{Tier, hot, warm, dormant, other, tier_rank}

pub record HeatWeights : Type 0 where
  pub freshness : Float
  pub access : Float
  pub evidence_strength : Float
  pub authority : Float
  pub importance : Float

pub record HeatThresholds : Type 0 where
  pub hot_at : Float
  pub warm_at : Float
  pub dormant_at : Float

-- `last_accessed_at or last_evidence_at`
unfoldable pub last_use : Option ℕ → Option ℕ → Option ℕ
last_use none evidence = evidence
last_use (some t) evidence = some t

module _ (fl : FloatOps) where
  open fl use {decimal, of_int, fle, flt, add, mul, div, neg, exp, log1p, round_to, seconds}

  -- Python's two-argument `max` and `min`: the first argument unless the second is beyond it.
  unfoldable pub fmax : Float → Float → Float
  fmax a b = if flt a b then b else a

  unfoldable pub fmin : Float → Float → Float
  fmin a b = if flt b a then b else a

  abbrev pub default_heat_weights : HeatWeights
  default_heat_weights = record {
    freshness = decimal 30 2;
    access = decimal 20 2;
    evidence_strength = decimal 20 2;
    authority = decimal 15 2;
    importance = decimal 15 2;
  }

  abbrev pub default_heat_thresholds : HeatThresholds
  default_heat_thresholds = record {
    hot_at = decimal 70 2;
    warm_at = decimal 40 2;
    dormant_at = decimal 15 2;
  }

  freshness_of : Option ℕ → ℕ → Float → Float
  freshness_of none now half_life_days = decimal 0 1
  freshness_of (some used) now half_life_days =
      let age_days = fmax (div (seconds now used) (decimal 864000 1)) (decimal 0 1) in
      exp (div (neg age_days) (fmax half_life_days (decimal 1 6)))

  access_of : Belief → Float
  access_of b = fmin (div (log1p (of_int b.access_count)) (decimal 50 1)) (decimal 10 1)

  -- The support links where the caller has counted them. Without a count the source reads the stored
  -- list through `safe_json`, which returns an empty mapping for a text that is no object, so the
  -- loop over it finds no integer.
  evidence_of : Option ℕ → ℕ
  evidence_of none = 0
  evidence_of (some n) = n

  authority_of : Belief → Float
  authority_of b =
      if one_of b.layer ("L1" ∷ "L2" ∷ [])
        || one_of b.source ("user_confirmed" ∷ "user_corrected" ∷ [])
      then decimal 10 1
      else decimal 5 1

  importance_of : Option Float → Float
  importance_of none = decimal 5 1
  importance_of (some x) = x

  raw_score : Belief → ℕ → Option ℕ → HeatWeights → Float → Float
  raw_score b now evidence_count w half_life_days =
      let used = last_use b.last_accessed_at b.last_evidence_at in
      let strength =
        fmin (div (of_int (evidence_of evidence_count)) (decimal 50 1)) (decimal 10 1) in
      add
        (add
          (add
            (add (mul w.freshness (freshness_of used now half_life_days))
              (mul w.access (access_of b)))
            (mul w.evidence_strength strength))
          (mul w.authority (authority_of b)))
        (mul w.importance (importance_of b.importance_score))

  unfoldable pub heat_score : Belief → ℕ → Option ℕ → HeatWeights → Float → Bool → Float → Float
  unfolding raw_score freshness_of access_of evidence_of authority_of importance_of fmax fmin
      last_use
  heat_score b now evidence_count w half_life_days protected protected_floor =
      let score =
        fmin (fmax (raw_score b now evidence_count w half_life_days) (decimal 0 1))
          (decimal 10 1) in
      round_to (if protected then fmax score protected_floor else score) 6

  unfoldable pub heat_tier : Float → HeatThresholds → Tier
  heat_tier score t =
      if fle t.hot_at score
      then hot
      else if fle t.warm_at score
      then warm
      else if fle t.dormant_at score
      then dormant
      else other "archive_candidate"

  module _ (laws : FloatLaws fl) where
    fmax_right : (a b : Float) → fle b (fmax a b) ≡ true
    unfolding fmax
    fmax_right a b = ground (arith, laws.flt_fle a b, laws.fle_refl b)

    -- A belief that is scored as protected, with the hot threshold as its floor, lands in the hot tier
    -- however old and unused it is, provided that rounding to six places does not push that threshold
    -- below itself, and that floats compare and round as FloatLaws says.
    heat_score-protected :
        (b : Belief) (now : ℕ) (n : Option ℕ) (w : HeatWeights) (half_life : Float)
        (t : HeatThresholds)
        → fle t.hot_at (round_to t.hot_at 6) ≡ true
        → heat_tier (heat_score b now n w half_life true t.hot_at) t ≡ hot
    unfolding heat_tier heat_score
    heat_score-protected b now n w half_life t h = rw (reaches_hot _) refl
      where
        reaches_hot : (x : Float) → fle t.hot_at (round_to (fmax x t.hot_at) 6) ≡ true
        reaches_hot x = laws.fle_trans _ _ _ h (laws.round-mono _ _ 6 (fmax_right x t.hot_at))

    -- A higher score is never mapped onto a colder tier, for any thresholds, where floats compare as
    -- FloatLaws says.
    pub heat_tier_mono :
        (x y : Float) (t : HeatThresholds)
        → fle x y ≡ true
        → tier_rank (heat_tier y t) ≤ tier_rank (heat_tier x t)
    unfolding heat_tier tier_rank
    heat_tier_mono x y t h = ground (
      arith,
      laws.fle_trans t.hot_at x y,
      laws.fle_trans t.warm_at x y,
      laws.fle_trans t.dormant_at x y,
    )
