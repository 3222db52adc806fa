-- ===== src/Metabolism/Protection.antt =====
-- metabolism/protection.py: what the runtime may never cool, compact or purge.
use mirror_memory.Prelude.{
  ◌↔◌, ℕ, ◌≤◌, ◌≡◌, ◌≢◌, Bool, true, false, ◌&&◌, ◌||◌, Option, none, some, arith, ltb, leb,
  if◌then◌else◌,
}
use mirror_memory.Prelude.Text.{str_eq, one_of}
use mirror_memory.Prelude.Float.{FloatOps}
use mirror_memory.Prelude.Dict.{get}
use mirror_memory.Core.Rows.{Belief, Json, text}
use mathlib.Core.List.{[], ◌∷◌}

pub data Reason : Type 0 where
  unresolved_conflict user_correction pending_verification : Reason
  user_confirmed canonical_high_confidence thin_evidence : Reason

-- `val.get("clarification_status") == "needs_clarification"`
unfoldable pub needs_clarification : Option Json → Bool
needs_clarification none = false
needs_clarification (some (text s)) = str_eq s "needs_clarification"
needs_clarification (some _) = false

unfoldable pub in_dispute : Belief → Bool
unfolding needs_clarification
in_dispute b = needs_clarification (get b.value "clarification_status")

abbrev pub is_confirmed : Belief → Bool
is_confirmed b = one_of b.layer ("L1" ∷ "L2" ∷ []) || str_eq b.source "user_confirmed"

module _ (fl : FloatOps) where
  abbrev pub is_canonical : Belief → Bool
  is_canonical b = str_eq b.retention_class "canonical" && fl.fle (fl.decimal 8 1) b.confidence

  -- The arguments after the belief: its support links, its correct links, a pending question.
  unfoldable pub protection_reason : Belief → ℕ → ℕ → Bool → Option Reason
  protection_reason b support_count correct_count pending =
      if in_dispute b
      then some unresolved_conflict
      else if ltb 0 correct_count || str_eq b.source "user_corrected"
      then some user_correction
      else if pending
      then some pending_verification
      else if is_confirmed b
      then some user_confirmed
      else if is_canonical b
      then some canonical_high_confidence
      else if leb support_count 1
      then some thin_evidence
      else none

  unfoldable pub is_protected : Belief → ℕ → ℕ → Bool → Bool
  is_protected b s c p = elim (protection_reason b s c p) [ none ↦ false | some _ ↦ true ]

  -- A belief is unprotected exactly when it is in no dispute, was never corrected, awaits no answer,
  -- is not confirmed, is no settled canonical fact, and has two support links at least.
  protection_reason-none :
      (b : Belief) (s c : ℕ) (p : Bool)
      → (protection_reason b s c p ≡ none) ↔ (
          (in_dispute b ≡ false)
          × (c ≡ 0)
          × (str_eq b.source "user_corrected" ≡ false)
          × (p ≡ false)
          × (is_confirmed b ≡ false)
          × (is_canonical b ≡ false)
          × (2 ≤ s))
  unfolding protection_reason
  protection_reason-none b s c p = (λ h. ground (arith, h), λ h. ground (arith, h))

-- Protection against compaction: a dispute or a pending question, and not a correction.
unfoldable pub compaction_protection_reason : Belief → Bool → Option Reason
compaction_protection_reason b pending =
    if in_dispute b
    then some unresolved_conflict
    else if pending
    then some pending_verification
    else none

-- What is protected against compaction is protected against cooling.
compaction-protection :
    (fl : FloatOps) (b : Belief) (s c : ℕ) (p : Bool)
    → compaction_protection_reason b p ≢ none
    → protection_reason fl b s c p ≢ none
unfolding compaction_protection_reason protection_reason
compaction-protection fl b s c p h = ground arith
