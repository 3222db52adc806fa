-- ===== src/Examples/Deleting.antt =====
-- A deletion log of a user's two deletions, the database that a restore has taken back before them,
-- and the batch that another device gets.
use mirror_memory.Prelude.Dict.{Dict}
use mirror_memory.Prelude.{
  ℕ, String, true, Option, none, some, [], ◌∷◌, ◌++◌, ◌≡◌, refl, take, arith, Bool, false, ◌+◌,
  length,
}
use mirror_memory.Prelude.Text.{append as append_text, decimal_text, strip, str_eq}
use mirror_memory.Deletion.{DeletionEntry, Payload, Log, genesis_entry}
use mirror_memory.Deletion.Log.{
  read_from, head, tail, verify_chain, checkpoint_seq, ensure_file, append, prune, chained, sealed,
}
use mirror_memory.Deletion.Chain.{IsWhole}
use mirror_memory.Deletion.Prune.{SameAbove, prune-SameAbove}
use mirror_memory.Deletion.History.{
  Written, founded, appended, Written-IsWhole, verify_chain-Written,
}
use mirror_memory.Deletion.Replay.{
  Row, Database, ok, replay_entries, reconcile, new_generation, tables_of, is_handled, applied,
}
use mirror_memory.Deletion.Resume.{reconcile-resumes}
use mirror_memory.Deletion.Settle.{reconcile-settles}
use mirror_memory.Deletion.Tombstones.{
  validate_batch, TombstonePayload, TombstoneEntry, TombstoneBatch, BatchPayload, served,
  export_from_log,
}
use mirror_memory.Deletion.Accepted.{IsAccepted, validate_batch-IsAccepted}
use mirror_memory.Deletion.Transport.{
  entry_to_dict, entry_from_dict, batch_to_dict, batch_from_dict, returned, raised, type_error,
  entry_from_dict-entry_to_dict, batch_from_dict-batch_to_dict,
}
use mirror_memory.Deletion.Receive.{
  Residents, Receiver, SyncPeer, TombstoneApplyResult, applied_row, committed, apply_tombstones,
}
use mirror_memory.Deletion.Redelivered.{apply_tombstones-redelivered}
use mirror_memory.Deletion.Export.{tombstones_of, export_from_log-partition}

-- Stands for SHA-256.
abbrev digest : Payload → String
digest p = append_text p.scope_key p.user_id

abbrev entry_digest : TombstonePayload → String
entry_digest p = p.origin_hash

abbrev batch_digest : BatchPayload → String
batch_digest p = p.sender

abbrev iso : ℕ → String
iso t = "2026-01-01"

abbrev print : String → ℕ → Option ℕ → String
print table id created = append_text table (decimal_text id)

abbrev tenant : String × String
tenant = ("local", "app")

abbrev session_deletion : String → ℕ → DeletionEntry
session_deletion name id = record (genesis_entry 0 "db") {
  tenant_id = "local";
  app_id = "app";
  user_id = "ada";
  scope = "session";
  scope_key = name;
  fingerprints =
      record { table = "mm_evidence"; fp = append_text "mm_evidence" (decimal_text id) } ∷ [];
  generation = id;
}

abbrev founded_log : Log
founded_log = ensure_file digest 1 "db" none

abbrev first_log : Log
first_log = (append digest 2 (session_deletion "monday" 1) (some founded_log)).1

abbrev log : Log
log = (append digest 3 (session_deletion "friday" 2) (some first_log)).1

log-Written : Written digest log
log-Written =
    appended 3 (session_deletion "friday" 2)
      (appended 2 (session_deletion "monday" 1) (founded 1 "db") refl refl) refl refl

log-IsWhole : IsWhole digest log
log-IsWhole = Written-IsWhole digest log log-Written

abbrev row : ℕ → Row
row id = record {
  table = "mm_evidence";
  tenant_id = "local";
  app_id = "app";
  user_id = "ada";
  id = id;
  created_at = none;
  status = "";
  error_code = "";
}

-- A backup from before the two deletions.
abbrev restored : Database
restored = record { rows = row 1 ∷ row 2 ∷ row 3 ∷ []; generations = []; applied_seq = 0 }

abbrev after_one : Database
after_one = (replay_entries print tenant (take 1 (read_from 0 log)) restored).1

verify_chain-Written_example : verify_chain digest log ≡ none
verify_chain-Written_example = verify_chain-Written digest log log-Written

prune-SameAbove_example : SameAbove 1 log (prune 9 "db" 1 log).1
prune-SameAbove_example = prune-SameAbove digest 9 "db" 1 log log-IsWhole

reconcile-resumes_example :
    (reconcile print digest true tenant (some log) after_one).1
    ≡ (reconcile print digest true tenant (some log) restored).1
unfolding checkpoint_seq head replay_entries read_from append chained sealed
reconcile-resumes_example =
    reconcile-resumes digest log log-IsWhole print tenant 1 restored after_one (omega arith)
      (omega arith) refl

reconcile-settles_example :
    ((reconcile print digest true tenant (some log) restored).1.applied_seq ≡ (head log).0)
    × (reconcile print digest true tenant
          (some log)
          (reconcile print digest true tenant (some log) restored).1
        ≡ (ok, (reconcile print digest true tenant (some log) restored).1))
unfolding checkpoint_seq head append chained sealed tables_of is_handled
reconcile-settles_example =
    reconcile-settles digest log log-IsWhole print tenant restored (omega arith) (omega arith) refl

abbrev monday : DeletionEntry
monday = session_deletion "monday" 1

abbrev replayed_monday : Dict ℕ × Database
replayed_monday =
    applied print tenant monday (restored.generations ++ new_generation tenant monday ∷ []) restored

abbrev batch : TombstoneBatch × ℕ × ℕ
batch = served iso entry_digest batch_digest "db" 0 1 log

export_from_log-partition_example :
    batch.0.entries ++ tombstones_of iso entry_digest (read_from batch.0.to_cursor log)
    ≡ tombstones_of iso entry_digest (read_from batch.0.from_cursor log)
unfolding export_from_log checkpoint_seq append chained sealed tail head
export_from_log-partition_example =
    export_from_log-partition iso entry_digest batch_digest digest log log-IsWhole "db" 0 1 batch.0
      batch.1 batch.2 refl

abbrev tombstone : TombstoneEntry
tombstone = record {
  payload = record {
    origin = "db";
    origin_seq = 1;
    tenant_id = "local";
    app_id = "app";
    user_id = "ada";
    scope = "session";
    scope_key = "monday";
    generation = 1;
    created_at = "2026-01-01";
    origin_hash = "mondayada";
  };
  hash = "mondayada";
}

entry_from_dict-entry_to_dict_example :
    entry_from_dict (λ s. none) (some (entry_to_dict tombstone)) ≡ returned tombstone
entry_from_dict-entry_to_dict_example = entry_from_dict-entry_to_dict (λ s. none) tombstone

batch_from_dict-batch_to_dict_example :
    batch_from_dict (λ s. none) (some (batch_to_dict batch.0)) ≡ raised type_error
batch_from_dict-batch_to_dict_example = batch_from_dict-batch_to_dict (λ s. none) batch.0

abbrev zeros : String
zeros = "0000000000000000000000000000000000000000000000000000000000000000"

abbrev device : String
device = "0123456789abcdef0123456789abcdef"

abbrev received_entry : TombstoneEntry
received_entry = record { payload = record tombstone.payload { origin = device }; hash = zeros }

abbrev received : TombstoneBatch
received = record {
  sender = device;
  from_cursor = 0;
  to_cursor = 1;
  from_chain_hash = zeros;
  to_chain_hash = zeros;
  entries = received_entry ∷ [];
  hash = zeros;
}

validate_batch-IsAccepted_example : IsAccepted (λ s. true) (λ p. zeros) tenant (λ p. zeros) received
unfolding validate_batch strip
validate_batch-IsAccepted_example =
    validate_batch-IsAccepted (λ s. true) (λ p. zeros) tenant (λ p. zeros) received refl

-- A receiver that counts its deletions.
abbrev delete_one : TombstoneEntry → ℕ → Option (Option ℕ × ℕ)
delete_one e n = some (some n, n + 1)

abbrev nobody : ℕ → Residents
nobody n = record { preferences = λ u. none; beliefs = []; grants = []; users = [] }

abbrev receiver : Receiver ℕ
receiver = record {
  db_id = "fedcba9876543210fedcba9876543210";
  tenant = tenant;
  single_tenant = true;
  peers = [];
  applied = [];
  home = 0;
}

abbrev peer_at : ℕ → SyncPeer
peer_at n = record { peer_db_id = device; cursor = n; chain_hash = zeros; last_catchup_at = none }

abbrev after_first : Receiver ℕ
after_first = record receiver {
  peers = peer_at 1 ∷ [];
  applied = applied_row received_entry (some 0) ∷ [];
  home = 1;
}

abbrev after_second : Receiver ℕ
after_second = record after_first { peers = peer_at 0 ∷ [] }

abbrev result_of : ℕ → ℕ → Bool → TombstoneApplyResult
result_of done skipped rescan = record {
  applied = done;
  skipped = skipped;
  noop = 0;
  rescan = rescan;
}

first_delivery :
    apply_tombstones delete_one nobody
      (λ n. none)
      (λ s. true)
      (λ p. zeros)
      (λ p. zeros)
      none
      received
      receiver
    ≡ committed (result_of 1 0 false) after_first
unfolding apply_tombstones validate_batch strip mirror_memory.Deletion.Receive.record_catchup
first_delivery = refl

second_delivery :
    apply_tombstones delete_one nobody
      (λ n. none)
      (λ s. true)
      (λ p. zeros)
      (λ p. zeros)
      none
      received
      after_first
    ≡ committed (result_of 0 1 true) after_second
unfolding apply_tombstones validate_batch strip mirror_memory.Deletion.Receive.record_catchup
second_delivery = refl

foreign : str_eq device receiver.db_id ≡ false
foreign = refl

apply_tombstones-redelivered_example :
    (after_second.home ≡ after_first.home)
    × (after_second.applied ≡ after_first.applied)
    × ((result_of 0 1 true).skipped ≡ length received.entries)
apply_tombstones-redelivered_example =
    apply_tombstones-redelivered delete_one nobody (λ n. none) (λ s. true) (λ p. zeros) (λ p. zeros)
      none none received received receiver after_first after_second (result_of 1 0 false)
      (result_of 0 1 true) first_delivery (foreign, tt) refl second_delivery
