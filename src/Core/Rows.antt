-- ===== src/Core/Rows.antt =====
-- core/models.py: the rows that the engine reads and writes. A timestamp is the number of
-- microseconds of its UTC instant. The columns left out (dimension, counters of the pipeline, the
-- provenance of the extraction) are read by no operation of this library.
use mirror_memory.Prelude.{ℕ, String, Option, List, Bool}
use mirror_memory.Prelude.Float.{Float}
use mirror_memory.Prelude.Dict.{Dict}
use mirror_memory.Metabolism.Tiers.{Tier, MetabolismState}

-- A value of a parsed JSON object: texts, numbers, and what the operations here never read.
pub data Json : Type 0 where
  text : String → Json
  number : Float → Json
  opaque : Json

-- The column `status`: its three values, and any other text.
pub data Status : Type 0 where
  active superseded rejected : Status
  other_status : String → Status

-- `value` is the mapping that `safe_json` reads from `value_json` (empty where it does not parse),
-- and `evidence` the list of integers in `evidence_json`.
pub record Belief : Type 0 where
  pub id : ℕ
  pub user_id : String
  pub key : String
  pub claim_text : String
  pub value : Dict Json
  pub layer : String
  pub status : Status
  pub confidence : Float
  pub source : String
  pub evidence : List ℕ
  pub predicate : String
  pub object : String
  pub superseded_by : Option ℕ
  pub valid_from : Option ℕ
  pub valid_to : Option ℕ
  pub lifecycle_state : String
  pub last_evidence_at : Option ℕ
  pub memory_tier : Option Tier
  pub metabolism_state : MetabolismState
  pub retention_class : String
  pub importance_score : Option Float
  pub access_count : ℕ
  pub last_accessed_at : Option ℕ
  pub compacted_into : Option ℕ

pub record Evidence : Type 0 where
  pub id : ℕ
  pub user_id : String
  pub session_id : Option String
  pub content : String
  pub source_type : String
  pub authority : String
  pub source_purpose : String
  pub observed_at : Option ℕ
  pub retention_state : String
  pub compaction_group_id : Option ℕ

pub record EvidenceLink : Type 0 where
  pub belief_id : ℕ
  pub evidence_id : ℕ
  pub relation : String

pub record MemoryPreference : Type 0 where
  pub user_id : String
  pub enabled : Bool
  pub state_revision : ℕ

pub record MemoryTransition : Type 0 where
  pub user_id : String
  pub entity_id : ℕ
  pub from_tier : Tier
  pub to_tier : Tier
  pub reason : String
  pub score : Float
  pub publisher_revision : ℕ

-- `belief_key` is what `safe_json(detail_json).get("belief_key")` reads.
pub record InterventionEvent : Type 0 where
  pub id : ℕ
  pub user_id : String
  pub kind : String
  pub belief_key : Option String

-- A row of `mm_belief_events`: the belief, what happened to it, and the purpose of the entry.
pub record BeliefEvent : Type 0 where
  pub belief_id : ℕ
  pub user_id : String
  pub event_type : String
  pub source_purpose : String

-- The ledger's interval of one value; it is open while `epistemic_to` is `none`.
pub record BeliefVersion : Type 0 where
  pub belief_id : ℕ
  pub epistemic_to : Option ℕ

-- `summary` is left as the parts that its text is made of.
pub record EvidenceDigest : Type 0 where
  pub id : ℕ
  pub user_id : String
  pub belief_id : ℕ
  pub support_count : ℕ
  pub contradict_count : ℕ
  pub verify_count : ℕ
  pub correct_count : ℕ
  pub first_seen_at : Option ℕ
  pub last_seen_at : Option ℕ
  pub representative_ids : List ℕ
  pub source_distribution : Dict ℕ
  pub authority_distribution : Dict ℕ
  pub source_purposes : List String
