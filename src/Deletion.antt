-- ===== src/Deletion.antt =====
-- core/deletion.py: the entries of the deletion log, their hash, and the log of one database life as
-- the list of its entries in file order. SHA-256 of the canonical JSON of a payload is a parameter.
pub mod Log
pub mod Config
pub mod Replay
pub mod Tombstones
pub mod Transport
mod Laws
pub mod Chain
pub mod Prune
pub mod History
mod Recovery
pub mod Resume
pub mod Settle
pub mod Rows
pub mod Export
pub mod Accepted
pub mod Receive
pub mod Redelivered
use mirror_memory.Prelude.{
  ℕ, String, Bool, true, false, Option, none, some, List, [], ◌∷◌, ◌||◌, if◌then◌else◌,
}
use mirror_memory.Prelude.Text.{str_eq}

-- One deleted row: its table, and the hash `_fp` of table, id and creation time.
pub record Fingerprint : Type 0 where
  pub table : String
  pub fp : String

pub record DeletionEntry : Type 0 where
  pub db_id : String
  pub tenant_id : String
  pub app_id : String
  pub user_id : String
  pub scope : String
  pub scope_key : String
  pub fingerprints : List Fingerprint
  pub generation : ℕ
  pub purpose : String
  pub seq : ℕ
  pub prev_hash : String
  pub hash : String
  pub created_at : Option ℕ
  pub global_key : String
  pub origin : String
  pub origin_seq : ℕ
  pub origin_hash : String

-- What is hashed: all but `seq` and `hash`, the later fields only when they are set.
pub record Payload : Type 0 where
  pub db_id : String
  pub tenant_id : String
  pub app_id : String
  pub user_id : String
  pub scope : String
  pub scope_key : String
  pub fingerprints : List Fingerprint
  pub generation : ℕ
  pub purpose : String
  pub created_at : Option ℕ
  pub prev_hash : String
  pub global_key : Option String
  pub origin : Option (String × ℕ)
  pub origin_hash : Option String

abbrev when_set : String → Option String
when_set s = if str_eq s "" then none else some s

unfoldable pub payload : DeletionEntry → Payload
payload e = record {
  db_id = e.db_id;
  tenant_id = e.tenant_id;
  app_id = e.app_id;
  user_id = e.user_id;
  scope = e.scope;
  scope_key = e.scope_key;
  fingerprints = e.fingerprints;
  generation = e.generation;
  purpose = e.purpose;
  created_at = e.created_at;
  prev_hash = e.prev_hash;
  global_key = when_set e.global_key;
  origin = if str_eq e.origin "" then none else some (e.origin, e.origin_seq);
  origin_hash = when_set e.origin_hash;
}

abbrev pub genesis_hash : String
genesis_hash = "0000000000000000000000000000000000000000000000000000000000000000"

abbrev pub genesis_entry : ℕ → String → DeletionEntry
genesis_entry now db = record {
  db_id = db;
  tenant_id = "";
  app_id = "";
  user_id = "";
  scope = "genesis";
  scope_key = "";
  fingerprints = [];
  generation = 0;
  purpose = "";
  seq = 0;
  prev_hash = genesis_hash;
  hash = "";
  created_at = some now;
  global_key = "";
  origin = "";
  origin_seq = 0;
  origin_hash = "";
}

-- The file of one database life; a missing file is read as an empty one.
abbrev pub Log : Type 0
Log = List DeletionEntry

abbrev pub is_genesis : DeletionEntry → Bool
is_genesis e = str_eq e.scope "genesis"

abbrev pub is_checkpoint : DeletionEntry → Bool
is_checkpoint e = str_eq e.scope "checkpoint"
