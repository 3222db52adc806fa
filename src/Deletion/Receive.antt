-- ===== src/Deletion/Receive.antt =====
-- api.py, `apply_tombstones`, with the peers and the applied records of repository.py. What a device
-- holds besides them is its `Home`; how its deletion path deletes a scope of it, `delete_scope`, is an
-- argument, which gives the position in the local log or none for a scope that no longer exists, or
-- raises.
use mirror_memory.Prelude.{
  ℕ, ◌+◌, String, Bool, true, false, Option, none, some, List, [], ◌∷◌, ◌++◌, ◌&&◌, ◌||◌, not, ◌==◌,
  any, all, length, is_some, if◌then◌else◌,
}
use mirror_memory.Prelude.Text.{str_eq}
use mirror_memory.Core.Rows.{Belief, MemoryPreference}
use mirror_memory.Access.{PurposeGrant}
use mirror_memory.Deletion.{Log, genesis_hash}
use mirror_memory.Deletion.Log.{has_tombstone}
use mirror_memory.Deletion.Tombstones.{
  TombstonePayload, TombstoneEntry, TombstoneBatch, BatchPayload, Rejection, validate_batch,
}

pub record SyncPeer : Type 0 where
  pub peer_db_id : String
  pub cursor : ℕ
  pub chain_hash : String
  pub last_catchup_at : Option ℕ

pub record TombstoneApplied : Type 0 where
  pub origin : String
  pub origin_seq : ℕ
  pub origin_hash : String
  pub user_id : String
  pub scope : String
  pub scope_key : String
  pub local_seq : Option ℕ

-- `read_sync_peer`, within the tenant
unfoldable pub read_sync_peer : String → List SyncPeer → Option SyncPeer
read_sync_peer id [] = none
read_sync_peer id (p ∷ ps) = if str_eq p.peer_db_id id then some p else read_sync_peer id ps

abbrev advanced : ℕ → String → SyncPeer → SyncPeer
advanced cursor hash p = record p {
  cursor = cursor;
  chain_hash = if str_eq hash "" then p.chain_hash else hash;
}

abbrev new_peer : String → SyncPeer
new_peer id = record { peer_db_id = id; cursor = 0; chain_hash = ""; last_catchup_at = none }

unfoldable pub record_catchup : String → ℕ → String → List SyncPeer → List SyncPeer
record_catchup id cursor hash [] = advanced cursor hash (new_peer id) ∷ []
record_catchup id cursor hash (p ∷ ps) =
    if str_eq p.peer_db_id id
    then advanced cursor hash p ∷ ps
    else p ∷ record_catchup id cursor hash ps

unfoldable pub mark_catchup_complete : String → ℕ → List SyncPeer → List SyncPeer
mark_catchup_complete id now [] = record (new_peer id) { last_catchup_at = some now } ∷ []
mark_catchup_complete id now (p ∷ ps) =
    if str_eq p.peer_db_id id
    then record p { last_catchup_at = some now } ∷ ps
    else p ∷ mark_catchup_complete id now ps

-- The rows of the tenant by which it knows a user.
pub record Residents : Type 0 where
  pub preferences : String → Option MemoryPreference
  pub beliefs : List Belief
  pub grants : List PurposeGrant
  pub users : List String

unfoldable pub tenant_knows_user : Residents → String → Bool
tenant_knows_user r user =
    is_some (r.preferences user)
    || (any (λ b. str_eq b.user_id user) r.beliefs
        || (any (λ g. str_eq g.user_id user) r.grants || any (λ u. str_eq u user) r.users))

-- `(origin, origin_seq, origin_hash)`, of an entry with a record, and with another entry.
abbrev pub is_record_of : TombstoneEntry → TombstoneApplied → Bool
is_record_of e r =
    str_eq r.origin e.payload.origin
    && ((r.origin_seq == e.payload.origin_seq) && str_eq r.origin_hash e.payload.origin_hash)

abbrev pub is_applied : TombstoneEntry → List TombstoneApplied → Bool
is_applied e rows = any (is_record_of e) rows

abbrev pub same_key : TombstoneEntry → TombstoneEntry → Bool
same_key e d =
    str_eq d.payload.origin e.payload.origin
    && ((d.payload.origin_seq == e.payload.origin_seq)
        && str_eq d.payload.origin_hash e.payload.origin_hash)

abbrev pub applied_row : TombstoneEntry → Option ℕ → TombstoneApplied
applied_row e local_seq = record {
  origin = e.payload.origin;
  origin_seq = e.payload.origin_seq;
  origin_hash = e.payload.origin_hash;
  user_id = e.payload.user_id;
  scope = e.payload.scope;
  scope_key = e.payload.scope_key;
  local_seq = local_seq;
}

pub data ApplyRejection : Type 0 where
  invalid : Rejection → ApplyRejection
  wrong_tenant unknown_user apply_failed : ApplyRejection

pub record TombstoneApplyResult : Type 0 where
  pub applied : ℕ
  pub skipped : ℕ
  pub noop : ℕ
  pub rescan : Bool

-- The receiving engine and its database.
pub record Receiver (Home : Type 0) : Type 0 where
  pub db_id : String
  pub tenant : String × String
  pub single_tenant : Bool
  pub peers : List SyncPeer
  pub applied : List TombstoneApplied
  pub home : Home

-- The state of the loop over the entries.
pub record Applying (Home : Type 0) : Type 0 where
  pub seen : List TombstoneEntry
  pub rows : List TombstoneApplied
  pub noop : ℕ
  pub skipped : ℕ
  pub home : Home

-- `TombstoneBatchRejected`, after a rollback, or the result with what is committed.
pub data ApplyOutcome (Home : Type 0) : Type 0 where
  rejected : ApplyRejection → ApplyOutcome Home
  committed : TombstoneApplyResult → Receiver Home → ApplyOutcome Home

module _ {Home : Type 0} where
  abbrev pub with_row : TombstoneEntry → Applying Home → Option ℕ → Home → Applying Home
  with_row e s local_seq home = record {
    seen = e ∷ s.seen;
    rows = s.rows ++ applied_row e local_seq ∷ [];
    noop = if is_some local_seq then s.noop else s.noop + 1;
    skipped = s.skipped;
    home = home;
  }

  abbrev pub skip : Applying Home → Applying Home
  skip s = record s { skipped = s.skipped + 1 }

  abbrev pub see : TombstoneEntry → Applying Home → Applying Home
  see e s = record s { seen = e ∷ s.seen }

  abbrev pub nothing_applied : Home → Applying Home
  nothing_applied home = record { seen = []; rows = []; noop = 0; skipped = 0; home = home }

abbrev held_in : Option Log → TombstoneEntry → Bool
held_in none e = false
held_in (some log) e = has_tombstone e.payload.origin_seq e.payload.origin_hash log

abbrev stored_cursor : Option SyncPeer → ℕ
stored_cursor none = 0
stored_cursor (some p) = p.cursor

abbrev stored_chain : Option SyncPeer → String
stored_chain none = genesis_hash
stored_chain (some p) = if str_eq p.chain_hash "" then genesis_hash else p.chain_hash

unfoldable pub is_rescan : TombstoneBatch → Option SyncPeer → Bool
is_rescan b peer =
    not (b.from_cursor == stored_cursor peer) || not (str_eq b.from_chain_hash (stored_chain peer))

-- A rescan takes the channel back to the start.
abbrev pub next_peers : TombstoneBatch → Bool → List SyncPeer → List SyncPeer
next_peers b rescan peers =
    if rescan
    then record_catchup b.sender 0 genesis_hash peers
    else record_catchup b.sender b.to_cursor b.to_chain_hash peers

abbrev pub same_tenant : Option (String × String) → String × String → Bool
same_tenant none own = true
same_tenant (some (tenant, app)) (own_tenant, own_app) =
    str_eq tenant own_tenant && str_eq app own_app

module _ {Home : Type 0} (delete_scope : TombstoneEntry → Home → Option (Option ℕ × Home))
    (residents : Home → Residents) (log_of : Home → Option Log) where
  -- A deletion of this device that its own log still has.
  abbrev pub is_echo : String → Home → TombstoneEntry → Bool
  is_echo db home e = str_eq e.payload.origin db && held_in (log_of home) e

  -- One round of the loop; `none` where the deletion raised.
  unfoldable pub apply_one :
      String → List TombstoneApplied → TombstoneEntry → Applying Home → Option (Applying Home)
  apply_one db existing e s =
      if is_applied e existing || any (same_key e) s.seen
      then some (skip s)
      else if is_echo db s.home e
      then some (skip (see e s))
      else elim (delete_scope e s.home) [
        | none ↦ none
        | some (local_seq, home) ↦ some (with_row e s local_seq home)
      ]

  unfoldable pub apply_entries :
      String → List TombstoneApplied → List TombstoneEntry → Applying Home → Option (Applying Home)
  unfolding apply_one
  apply_entries db existing [] s = some s
  apply_entries db existing (e ∷ es) s = elim (apply_one db existing e s) [
    | none ↦ none
    | some t ↦ apply_entries db existing es t
  ]

  abbrev pub recorded : TombstoneBatch → Bool → Receiver Home → Applying Home → ApplyOutcome Home
  recorded b rescan r s =
      committed
        (record { applied = length s.rows; skipped = s.skipped; noop = s.noop; rescan = rescan })
        (record r {
          peers = next_peers b rescan r.peers;
          applied = r.applied ++ s.rows;
          home = s.home;
        })

  unfoldable pub apply_valid : TombstoneBatch → Bool → Receiver Home → ApplyOutcome Home
  unfolding apply_entries
  apply_valid b rescan r =
      elim (apply_entries r.db_id r.applied b.entries (nothing_applied r.home)) [
        | none ↦ rejected apply_failed
        | some s ↦ recorded b rescan r s
      ]

  abbrev pub all_known : Receiver Home → TombstoneBatch → Bool
  all_known r b =
      r.single_tenant || all (λ e. tenant_knows_user (residents r.home) e.payload.user_id) b.entries

  module _ (is_iso : String → Bool) (entry_digest : TombstonePayload → String)
      (batch_digest : BatchPayload → String) where
    -- `auth_tenant` defaults to the engine's own.
    unfoldable pub apply_tombstones :
        Option (String × String) → TombstoneBatch → Receiver Home → ApplyOutcome Home
    unfolding apply_valid is_rescan read_sync_peer
    apply_tombstones auth_tenant b r =
        if same_tenant auth_tenant r.tenant
        then (elim (validate_batch is_iso entry_digest batch_digest r.tenant b) [
          | some why ↦ rejected (invalid why)
          | none ↦
              if all_known r b
              then apply_valid b (is_rescan b (read_sync_peer b.sender r.peers)) r
              else rejected unknown_user
        ])
        else rejected wrong_tenant
