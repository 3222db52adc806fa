-- ===== src/Memory/Relation.antt =====
-- memory/relation.py: are the candidate and a belief the same thing, and how are they ordered in time?
-- `lower` is Python's `str.lower`, and `parse_iso` what `datetime.fromisoformat` returns or rejects.
pub mod Judging
use mirror_memory.Prelude.{
  ℕ, String, Bool, true, false, not, Option, none, some, ◌&&◌, ◌||◌, if◌then◌else◌,
}
use mirror_memory.Prelude.Text.{str_eq, strip}
use mirror_memory.Memory.Temporal.{
  Scope, TemporalRelation, TemporalWindow, unknown, compare_windows,
}
use mirror_memory.Core.Rows.{Status}

-- A time as extraction hands it over.
pub data Stamp : Type 0 where
  missing : Stamp
  instant : ℕ → Stamp
  text_stamp : String → Stamp

-- memory/atom.py, the fields that identity resolution reads; an absent text is "".
pub record CandidateAtom : Type 0 where
  pub predicate : String
  pub object : String
  pub claim_text : String
  pub temporal : String
  pub valid_from : Stamp
  pub valid_to : Stamp
  pub relation : String

-- One existing belief, as the dict that the caller builds; an absent text is "".
pub record BeliefView : Type 0 where
  pub id : ℕ
  pub predicate : String
  pub object : String
  pub status : Status
  pub claim_text : String
  pub temporal : String
  pub valid_from : Stamp
  pub valid_to : Stamp
  pub lifecycle_state : String
  pub transition : String
  pub ended_object : String

pub record RelationJudgement : Type 0 where
  pub same_subject : Bool
  pub same_predicate : Bool
  pub same_object : Bool
  pub temporal_relation : TemporalRelation
  pub claims_contradiction : Bool
  pub same_attribute : Bool
  pub same_temporal_qualifier : Bool
  pub subject_matches_expected : Bool

unfoldable pub same_identity : RelationJudgement → Bool
same_identity j = j.same_subject && (j.same_predicate || j.same_attribute)

module _ (lower : String → String) (parse_iso : String → Option ℕ) where
  abbrev pub normal : String → String
  normal t = lower (strip t)

  -- core/utils.py, with "Z" read by `parse_iso`
  unfoldable pub coerce_datetime : Stamp → Option ℕ
  coerce_datetime missing = none
  coerce_datetime (instant t) = some t
  coerce_datetime (text_stamp t) =
      let stripped = strip t in if str_eq stripped "" then none else parse_iso stripped

  -- A `temporal` text that parses is the start, where there is no other.
  start_of : Option ℕ → String → Option ℕ
  start_of (some t) temporal = some t
  start_of none temporal =
      if str_eq temporal "" then none else coerce_datetime (text_stamp temporal)

  unfoldable pub candidate_window : CandidateAtom → TemporalWindow
  unfolding start_of
  candidate_window c = record {
    valid_from = start_of (coerce_datetime c.valid_from) c.temporal;
    valid_to = coerce_datetime c.valid_to;
  }

  unfoldable pub belief_window : BeliefView → TemporalWindow
  belief_window b = record {
    valid_from = coerce_datetime b.valid_from;
    valid_to = coerce_datetime b.valid_to;
  }

  -- The same value through another verb.
  abbrev pub is_same_attribute : CandidateAtom → BeliefView → Bool
  is_same_attribute c b =
      not (str_eq (normal b.predicate) (normal c.predicate))
      && (str_eq (normal b.object) (normal c.object)
          && (not (str_eq (strip b.predicate) "") && not (str_eq (strip c.predicate) "")))

  same_qualifier : String → String → Bool
  same_qualifier q r = str_eq q "" || (str_eq r "" || str_eq q r)

  -- The constructor call names no `same_attribute`, so the field has its default.
  unfoldable pub judge_relation :
      CandidateAtom → BeliefView → TemporalWindow → TemporalWindow → RelationJudgement
  unfolding same_qualifier
  judge_relation c b candidate_window belief_window =
      let same_predicate = str_eq (normal b.predicate) (normal c.predicate) in
      record {
        same_subject = true;
        same_predicate = same_predicate;
        same_object = str_eq (normal b.object) (normal c.object);
        temporal_relation =
            if same_predicate || is_same_attribute c b
            then compare_windows candidate_window belief_window
            else unknown;
        claims_contradiction = str_eq c.relation "contradicts";
        same_attribute = false;
        same_temporal_qualifier = same_qualifier (normal c.temporal) (normal b.temporal);
        subject_matches_expected = true;
      }
