-- ===== src/Memory/Relation/Judging.antt =====
-- What a judgement can say.
use mirror_memory.Prelude.{ℕ, String, true, false, Option, ◌≡◌, arith}
use mirror_memory.Memory.Temporal.{TemporalWindow, compare_windows}
use mirror_memory.Memory.Relation.{
  CandidateAtom, BeliefView, same_identity, judge_relation, is_same_attribute,
}

module _ (lower : String → String) (parse_iso : String → Option ℕ) (c : CandidateAtom)
    (b : BeliefView) (v w : TemporalWindow) where
  -- The same value stated through another verb is never judged to be the same identity, although
  -- its windows are compared as if it were.
  pub judge_relation-attribute :
      is_same_attribute lower parse_iso c b ≡ true
      → (same_identity (judge_relation lower parse_iso c b v w) ≡ false)
        × ((judge_relation lower parse_iso c b v w).temporal_relation ≡ compare_windows v w)
  unfolding judge_relation same_identity
  judge_relation-attribute h = ground (arith, h)
