-- ===== src/Deletion/Tombstones.antt =====
-- core/tombstones.py: the deletions of a log as they travel to another device. The hashes of the
-- payloads, the ISO text of an instant and what `datetime.fromisoformat` accepts are parameters. The
-- counters are natural numbers, so the refusals of negative ones do not occur.
use mirror_memory.Prelude.{
  ℕ, zero, suc, ◌+◌, String, Bool, false, Option, none, some, List, [], ◌∷◌, ◌++◌, ◌&&◌, ◌||◌, not,
  ◌==◌, ltb, leb, length, map, any, if◌then◌else◌,
}
use Prim.Native.Char.{code}
use mirror_memory.Prelude.Text.{str_eq, one_of, strip}
use mirror_memory.Deletion.{DeletionEntry, Log}
use mirror_memory.Deletion.Log.{read_from, head, checkpoint_seq, chain_hash_at}

-- The fields that are hashed.
pub record TombstonePayload : Type 0 where
  pub origin : String
  pub origin_seq : ℕ
  pub tenant_id : String
  pub app_id : String
  pub user_id : String
  pub scope : String
  pub scope_key : String
  pub generation : ℕ
  pub created_at : String
  pub origin_hash : String

pub record TombstoneEntry : Type 0 where
  pub payload : TombstonePayload
  pub hash : String

pub record BatchPayload : Type 0 where
  pub sender : String
  pub from_cursor : ℕ
  pub to_cursor : ℕ
  pub from_chain_hash : String
  pub to_chain_hash : String
  pub entry_hashes : List String

pub record TombstoneBatch : Type 0 where
  pub sender : String
  pub from_cursor : ℕ
  pub to_cursor : ℕ
  pub from_chain_hash : String
  pub to_chain_hash : String
  pub entries : List TombstoneEntry
  pub hash : String

abbrev pub batch_payload : TombstoneBatch → BatchPayload
batch_payload b = record {
  sender = b.sender;
  from_cursor = b.from_cursor;
  to_cursor = b.to_cursor;
  from_chain_hash = b.from_chain_hash;
  to_chain_hash = b.to_chain_hash;
  entry_hashes = map (λ e. e.hash) b.entries;
}

-- A lower-case hexadecimal text of `n` digits; `$` also matches before a newline at the end.
abbrev is_hex_digit : ℕ → Bool
is_hex_digit c = (leb b'0' c && leb c b'9') || (leb b'a' c && leb c b'f')

unfoldable pub is_hex : ℕ → String → Bool
is_hex zero s = str_eq s "" || str_eq s "\n"
is_hex (suc n) String.[] = false
is_hex (suc n) (String.◌∷◌ c s) = is_hex_digit (code c) && is_hex n s

abbrev pub local_only : DeletionEntry → Bool
local_only e = str_eq e.scope "genesis" || str_eq e.scope "checkpoint"

pub data Rejection : Type 0 where
  format hash tenant sequence : Rejection

-- The first check that fails, in the order of the code.
abbrev pub first_failure : List (Bool × Rejection) → Option Rejection
first_failure [] = none
first_failure ((fails, r) ∷ rs) = let rest = first_failure rs in if fails then some r else rest

-- The key of the scope on other devices; a belief without one cannot travel.
unfoldable pub travel_key : DeletionEntry → Option String
unfolding is_hex
travel_key e =
    if str_eq e.scope "belief"
    then if is_hex 32 e.global_key then some e.global_key else none
    else if str_eq e.scope "session"
    then some e.scope_key
    else some ""

-- The state of the export's loop.
pub record Collected : Type 0 where
  pub entries : List TombstoneEntry
  pub cursor : ℕ
  pub skipped : ℕ

-- The position that is served from: 0 for a cursor above the head.
unfoldable pub served_from : ℕ → Log → ℕ
served_from since log = if ltb (head log).0 since then 0 else since

abbrev pub nothing_from : ℕ → Collected
nothing_from since = record { entries = []; cursor = since; skipped = 0 }

abbrev pub same_deletion : TombstoneEntry → TombstoneEntry → Bool
same_deletion e d =
    str_eq e.payload.origin d.payload.origin && str_eq e.payload.origin_hash d.payload.origin_hash

module _ (iso : ℕ → String) (entry_digest : TombstonePayload → String) where
  abbrev pub seal : TombstonePayload → TombstoneEntry
  seal p = record { payload = p; hash = entry_digest p }

  abbrev created_text : Option ℕ → String
  created_text none = ""
  created_text (some t) = iso t

  abbrev pub tombstone : DeletionEntry → String → TombstoneEntry
  tombstone e key =
      let own = str_eq e.origin "" in
      seal (record {
        origin = if own then e.db_id else e.origin;
        origin_seq = if own then e.seq else e.origin_seq;
        tenant_id = e.tenant_id;
        app_id = e.app_id;
        user_id = e.user_id;
        scope = e.scope;
        scope_key = key;
        generation = e.generation;
        created_at = created_text e.created_at;
        origin_hash = if str_eq e.origin_hash "" then e.hash else e.origin_hash;
      })

  unfoldable pub from_deletion_entry : DeletionEntry → Option TombstoneEntry
  unfolding travel_key
  from_deletion_entry e =
      if local_only e
      then none
      else elim (travel_key e) [ none ↦ none | some key ↦ some (tombstone e key) ]

  -- The loop stops at `limit` entries; the cursor is the last position read.
  unfoldable pub collect : ℕ → Log → Collected → Collected
  unfolding from_deletion_entry
  collect limit [] c = c
  collect limit (raw ∷ rest) c =
      if local_only raw
      then collect limit rest (record c { cursor = raw.seq })
      else elim (from_deletion_entry raw) [
        | none ↦ collect limit rest (record c { cursor = raw.seq; skipped = c.skipped + 1 })
        | some t ↦
            let more =
              collect limit rest (record c { cursor = raw.seq; entries = c.entries ++ t ∷ [] }) in
            if leb limit (length (c.entries ++ t ∷ []))
            then record c { cursor = raw.seq; entries = c.entries ++ t ∷ [] }
            else more
      ]

  abbrev pub collect_from : ℕ → ℕ → Log → Collected
  collect_from since limit log = collect limit (read_from since log) (nothing_from since)

  module _ (batch_digest : BatchPayload → String) where
    unfoldable pub seal_batch : TombstoneBatch → TombstoneBatch
    seal_batch b = record b { hash = batch_digest (batch_payload b) }

    abbrev pub served : String → ℕ → ℕ → Log → TombstoneBatch × ℕ × ℕ
    served db since limit log =
        let c = collect_from since limit log in
        (
          seal_batch (record {
            sender = db;
            from_cursor = since;
            to_cursor = c.cursor;
            from_chain_hash = chain_hash_at since log;
            to_chain_hash = chain_hash_at c.cursor log;
            entries = c.entries;
            hash = "";
          }),
          c.cursor,
          c.skipped,
        )

    -- `none` is `TombstoneCursorPruned`.
    unfoldable pub export_from_log : String → ℕ → ℕ → Log → Option (TombstoneBatch × ℕ × ℕ)
    unfolding collect seal_batch served_from
    export_from_log db since limit log =
        if not (checkpoint_seq log == 0) && ltb since (checkpoint_seq log)
        then none
        else some (served db (served_from since log) limit log)

module _ (is_iso : String → Bool) where
  -- `validate_entry_format`
  unfoldable pub validate_entry_format : TombstoneEntry → Option Rejection
  unfolding is_hex
  validate_entry_format e =
      let p = e.payload in
      first_failure (
        (not (is_hex 32 p.origin), format)
        ∷ (ltb p.origin_seq 1, format)
        ∷ (str_eq p.tenant_id "" || str_eq p.app_id "", format)
        ∷ (str_eq (strip p.user_id) "", format)
        ∷ (not (one_of p.scope ("belief" ∷ "session" ∷ "user" ∷ [])), format)
        ∷ (str_eq p.scope "belief" && not (is_hex 32 p.scope_key), format)
        ∷ (str_eq p.scope "session" && str_eq p.scope_key "", format)
        ∷ (str_eq p.scope "user" && not (str_eq p.scope_key ""), format)
        ∷ (not (is_iso p.created_at), format)
        ∷ (not (is_hex 64 e.hash), format)
        ∷ [])

  module _ (entry_digest : TombstonePayload → String) where
    -- The loop over the entries, with those that it has seen.
    unfoldable pub validate_entries :
        String × String → List TombstoneEntry → List TombstoneEntry → Option Rejection
    unfolding validate_entry_format
    validate_entries (own_tenant, app) seen [] = none
    validate_entries (own_tenant, app) seen (e ∷ es) =
        let rest = validate_entries (own_tenant, app) (e ∷ seen) es in
        elim (validate_entry_format e) [
          | some r ↦ some r
          | none ↦
              if not (str_eq (entry_digest e.payload) e.hash)
              then some hash
              else if not (str_eq e.payload.tenant_id own_tenant && str_eq e.payload.app_id app)
              then some tenant
              else if any (same_deletion e) seen
              then some sequence
              else rest
        ]

    module _ (batch_digest : BatchPayload → String) where
      unfoldable pub validate_batch : String × String → TombstoneBatch → Option Rejection
      unfolding validate_entries is_hex
      validate_batch expected b =
          if not (is_hex 32 b.sender)
          then some format
          else if ltb b.to_cursor b.from_cursor
          then some sequence
          else if not (is_hex 64 b.from_chain_hash && is_hex 64 b.to_chain_hash)
          then some format
          else if not (str_eq (batch_digest (batch_payload b)) b.hash)
          then some hash
          else validate_entries expected [] b.entries
