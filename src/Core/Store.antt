-- ===== src/Core/Store.antt =====
-- The tables of one tenant's database, and the reads and writes by key that the ORM gives.
pub mod Laws
pub mod Keys
use mirror_memory.Prelude.{
  ℕ, String, Bool, true, false, Option, none, some, List, [], ◌∷◌, ◌++◌, ◌==◌, if◌then◌else◌,
}
use mirror_memory.Prelude.Text.{str_eq}
use mirror_memory.Core.Rows.{
  Belief, Evidence, EvidenceLink, EvidenceDigest, MemoryPreference, MemoryTransition, BeliefEvent,
  BeliefVersion, InterventionEvent,
}
use mirror_memory.Core.Proposal.{ProposalLog}

-- `preferences` has a row for a user or none. `next_id` is the next key of an inserted digest, and
-- `purpose` the purpose of the current entry.
pub record Store : Type 0 where
  pub beliefs : List Belief
  pub evidence : List Evidence
  pub links : List EvidenceLink
  pub digests : List EvidenceDigest
  pub preferences : String → Option MemoryPreference
  pub transitions : List MemoryTransition
  pub events : List BeliefEvent
  pub versions : List BeliefVersion
  pub interventions : List InterventionEvent
  pub proposals : List ProposalLog
  pub next_id : ℕ
  pub purpose : String

-- `session.get(Belief, id)`
unfoldable pub find_belief : ℕ → List Belief → Option Belief
find_belief id [] = none
find_belief id (b ∷ bs) = if b.id == id then some b else find_belief id bs

-- A change of the attributes of the loaded row.
unfoldable pub update_belief : ℕ → (Belief → Belief) → List Belief → List Belief
update_belief id f [] = []
update_belief id f (b ∷ bs) = if b.id == id then f b ∷ bs else b ∷ update_belief id f bs

unfoldable pub find_evidence : ℕ → List Evidence → Option Evidence
find_evidence id [] = none
find_evidence id (e ∷ es) = if e.id == id then some e else find_evidence id es

unfoldable pub target_of : Option ℕ → Store → Option Belief
target_of none s = none
target_of (some id) s = find_belief id s.beliefs

-- `_append_event`
abbrev pub append_event : Belief → String → Store → Store
append_event b kind s = record s {
  events =
      s.events
      ++ record {
        belief_id = b.id;
        user_id = b.user_id;
        event_type = kind;
        source_purpose = s.purpose;
      }
        ∷ [];
}
