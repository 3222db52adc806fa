-- ===== src/Worker/Validate.antt =====
-- worker/evolution.py: the deterministic nodes, `_validate` and `_compile_policy`. `lower` is
-- Python's. Of a pattern, the entries that the code reads.
use mirror_memory.Prelude.{
  ℕ, String, Bool, true, false, Option, none, some, List, [], ◌∷◌, ◌&&◌, ◌||◌, not, all, any, map,
  take, ltb, if◌then◌else◌,
}
use mirror_memory.Prelude.Text.{str_eq, strip, one_of, any_marker}
use mirror_memory.Prelude.Dict.{Dict, get}
use mirror_memory.Core.Rows.{Json, text, number, opaque}

pub record Pattern : Type 0 where
  pub description : String
  pub evidence_keys : List String
  pub needs_verification : Bool

-- One entry of `evidence["beliefs"]`; `value` is none where it does not parse.
pub record EvidenceItem : Type 0 where
  pub key : String
  pub value : Option (Dict Json)

pub record EvidencePayload : Type 0 where
  pub beliefs : List EvidenceItem
  pub distinct_sessions : ℕ

pub record ValidationConfig : Type 0 where
  pub forbidden_labels : List String
  pub third_party_markers : List String

abbrev is_clarification : Option Json → Bool
is_clarification (some (text t)) = str_eq t "needs_clarification"
is_clarification (some (number x)) = false
is_clarification (some opaque) = false
is_clarification none = false

abbrev pub is_contradicted : EvidenceItem → Bool
is_contradicted b = elim b.value [
  | none ↦ false
  | some value ↦ is_clarification (get value "clarification_status")
]

abbrev pub belief_keys : Option EvidencePayload → List String
belief_keys none = []
belief_keys (some e) = map (λ b. b.key) e.beliefs

-- A contradicted belief, or evidence of a single session.
unfoldable pub forces_verification : Option EvidencePayload → Bool
forces_verification none = true
forces_verification (some e) = any is_contradicted e.beliefs || ltb e.distinct_sessions 2

abbrev force : Bool → Pattern → Pattern
force forced p = if forced then record p { needs_verification = true } else p

module _ (lower : String → String) where
  -- The four checks that skip a pattern.
  unfoldable pub passes : ValidationConfig → List String → Pattern → Bool
  passes cfg keys p =
      not (any_marker (map lower cfg.forbidden_labels) (lower p.description))
      && (not (str_eq (strip p.description) "")
          && (not (any_marker (map lower cfg.third_party_markers) (lower p.description))
              && all (λ k. one_of k keys) p.evidence_keys))

  unfoldable pub validated : ValidationConfig → Option EvidencePayload → List Pattern → List Pattern
  unfolding passes
  validated cfg evidence [] = []
  validated cfg evidence (p ∷ ps) =
      let rest = validated cfg evidence ps in
      if passes cfg (belief_keys evidence) p
      then force (forces_verification evidence) p ∷ rest
      else rest

  unfoldable pub validate : ValidationConfig → Option EvidencePayload → List Pattern → List Pattern
  unfolding validated
  validate cfg evidence ps = take 3 (validated cfg evidence ps)

-- A value of the raw policy: a text, or another with its truth.
pub data PolicyValue : Type 0 where
  word : String → PolicyValue
  other_value : Bool → PolicyValue

pub record SupportPolicy : Type 0 where
  pub response_length : String
  pub pacing : PolicyValue
  pub question_budget : ℕ
  pub avoid_topics : List String
  pub preferred_knowledge_paths : List String

abbrev pub default_policy : SupportPolicy
default_policy = record {
  response_length = "normal";
  pacing = word "validate_before_suggestions";
  question_budget = 2;
  avoid_topics = [];
  preferred_knowledge_paths = [];
}

abbrev length_or : String → Option PolicyValue → String
length_or old (some (word t)) = if one_of t ("brief" ∷ "normal" ∷ []) then t else old
length_or old (some (other_value b)) = old
length_or old none = old

unfoldable pub is_truthy : PolicyValue → Bool
is_truthy (word t) = not (str_eq t "")
is_truthy (other_value b) = b

abbrev pacing_or : PolicyValue → Option PolicyValue → PolicyValue
pacing_or old none = old
pacing_or old (some v) = if is_truthy v then v else old

-- `none` where the raw policy is no mapping.
unfoldable pub compile_policy : Option (Dict PolicyValue) → SupportPolicy
compile_policy none = default_policy
compile_policy (some raw) = record default_policy {
  response_length = length_or "normal" (get raw "response_length");
  pacing = pacing_or (word "validate_before_suggestions") (get raw "pacing");
}
