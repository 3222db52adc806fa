-- ===== src/Deletion/Replay.antt =====
-- core/replay.py: the missed entries of the log are applied to the main database, each with its
-- watermark in one transaction. All tables stand in one list of rows; `print` is the fingerprint of
-- a row's table, id and creation time, a hash. A pair of texts is the ambient tenant and application:
-- every select and update is narrowed to them, and an insert is stamped with them.
use mirror_memory.Prelude.{
  ℕ, String, Bool, Option, none, some, List, [], ◌∷◌, ◌++◌, ◌&&◌, ◌||◌, not, ◌==◌, ltb, leb, any,
  all, map, filter, length, is_some, if◌then◌else◌,
}
use mirror_memory.Prelude.Text.{str_eq, one_of}
use mirror_memory.Prelude.Dict.{Dict}
use mirror_memory.Deletion.{DeletionEntry, Fingerprint, Payload, Log, is_genesis, is_checkpoint}
use mirror_memory.Deletion.Log.{read_from, head, checkpoint_seq, has_genesis, verify_chain}

-- A row of a table that a deletion may name. A link has no user, and only a job has a status.
pub record Row : Type 0 where
  pub table : String
  pub tenant_id : String
  pub app_id : String
  pub user_id : String
  pub id : ℕ
  pub created_at : Option ℕ
  pub status : String
  pub error_code : String

pub record DeletionGeneration : Type 0 where
  pub tenant_id : String
  pub app_id : String
  pub user_id : String
  pub generation : ℕ
  pub scope : String

pub record Database : Type 0 where
  pub rows : List Row
  pub generations : List DeletionGeneration
  pub applied_seq : ℕ

abbrev pub replay_handlers : List String
replay_handlers =
    "mm_beliefs" ∷ "mm_belief_events" ∷ "mm_evidence" ∷ "mm_evidence_digests"
    ∷ "mm_memory_transitions" ∷ "mm_belief_versions" ∷ "mm_belief_identities" ∷ "mm_proposal_log"
    ∷ "mm_snapshots" ∷ "mm_session_summaries" ∷ "mm_extraction_stats" ∷ "mm_intervention_events"
    ∷ "mm_belief_evidence_links" ∷ "mm_evolution_jobs" ∷ []

unfoldable pub is_handled : String → Bool
is_handled table = one_of table replay_handlers

-- The keys of `per_table`, in order, and the hashes under one of them.
unfoldable pub tables_of : List Fingerprint → List String
tables_of [] = []
tables_of (f ∷ fs) = f.table ∷ filter (λ t. not (str_eq t f.table)) (tables_of fs)

unfoldable pub hashes_of : String → List Fingerprint → List String
hashes_of table [] = []
hashes_of table (f ∷ fs) =
    let rest = hashes_of table fs in if str_eq f.table table then f.fp ∷ rest else rest

abbrev pub in_tenant : DeletionEntry → Row → Bool
in_tenant e r = str_eq r.tenant_id e.tenant_id && str_eq r.app_id e.app_id

-- The loader criteria of the ambient tenant.
abbrev pub sees : String × String → Row → Bool
sees tenant r = str_eq r.tenant_id tenant.0 && str_eq r.app_id tenant.1

-- The criteria of a table: a link is not narrowed to the user.
unfoldable pub meets : String × String → DeletionEntry → Row → Bool
meets tenant e r =
    sees tenant r
    && (in_tenant e r && (str_eq r.table "mm_belief_evidence_links" || str_eq r.user_id e.user_id))

abbrev pub is_in_flight : String × String → DeletionEntry → Row → Bool
is_in_flight tenant e r =
    str_eq r.table "mm_evolution_jobs"
    && (sees tenant r
        && in_tenant e r
        && (str_eq r.user_id e.user_id && (str_eq r.status "pending" || str_eq r.status "running")))

unfoldable pub cancel : String × String → DeletionEntry → Row → Row
cancel tenant e r =
    if is_in_flight tenant e r
    then record r { status = "cancelled"; error_code = "deletion_replayed" }
    else r

-- A row with the primary key.
unfoldable pub has_generation : String → String → DeletionEntry → List DeletionGeneration → Bool
has_generation tenant app e = any (λ g.
    str_eq g.tenant_id tenant
    && (str_eq g.app_id app && (str_eq g.user_id e.user_id && (g.generation == e.generation))))

-- The row inserted is stamped with the tenant of the context.
abbrev pub new_generation : String × String → DeletionEntry → DeletionGeneration
new_generation (tenant, app) e = record {
  tenant_id = tenant;
  app_id = app;
  user_id = e.user_id;
  generation = e.generation;
  scope = e.scope;
}

abbrev pub is_own : String × String → DeletionEntry → Bool
is_own tenant e = str_eq e.tenant_id tenant.0 && str_eq e.app_id tenant.1

-- `session.get` does not show a row of another tenant, and an insert on a key that is there raises
-- IntegrityError.
unfoldable pub align :
    String × String → DeletionEntry → List DeletionGeneration → Option (List DeletionGeneration)
unfolding has_generation
align tenant e gs =
    if is_own tenant e && has_generation e.tenant_id e.app_id e gs
    then some gs
    else if has_generation tenant.0 tenant.1 e gs
    then none
    else some (gs ++ new_generation tenant e ∷ [])

-- `escaped` is an exception of `apply_entry`.
pub data Outcome : Type 0 where
  ok replayed : Outcome
  unavailable chain_broken pruned stale pending escaped : Outcome

module _ (print : String → ℕ → Option ℕ → String) where
  abbrev pub fingerprint : Row → String
  fingerprint r = print r.table r.id r.created_at

  -- The row is a candidate of the table and its fingerprint is recorded.
  unfoldable pub matches : String × String → DeletionEntry → String → Row → Bool
  unfolding meets hashes_of
  matches tenant e table r =
      str_eq r.table table
      && (meets tenant e r && one_of (fingerprint r) (hashes_of table e.fingerprints))

  unfoldable pub delete_tables : String × String → DeletionEntry → List String → List Row → List Row
  unfolding matches
  delete_tables tenant e [] rows = rows
  delete_tables tenant e (t ∷ ts) rows =
      delete_tables tenant e ts (filter (λ r. not (matches tenant e t r)) rows)

  -- The number of rows that each handler deletes.
  unfoldable pub count_tables : String × String → DeletionEntry → List String → List Row → Dict ℕ
  unfolding matches
  count_tables tenant e [] rows = []
  count_tables tenant e (t ∷ ts) rows =
      (t, length (filter (matches tenant e t) rows))
      ∷ count_tables tenant e ts (filter (λ r. not (matches tenant e t r)) rows)

  unfoldable pub applied :
      String × String → DeletionEntry → List DeletionGeneration → Database → Dict ℕ × Database
  unfolding delete_tables count_tables tables_of cancel
  applied tenant e aligned db =
      let tables = tables_of e.fingerprints in
      let left = delete_tables tenant e tables db.rows in
      (
        count_tables tenant e tables db.rows
            ++ ("jobs_cancelled", length (filter (is_in_flight tenant e) left)) ∷ [],
        record db { rows = map (cancel tenant e) left; generations = aligned },
      )

  -- `none` is `UnhandledDeletionTable`, before any write, or IntegrityError, where the transaction is
  -- rolled back.
  unfoldable pub apply_entry :
      String × String → DeletionEntry → Database → Option (Dict ℕ × Database)
  unfolding applied tables_of is_handled align
  apply_entry tenant e db =
      if all is_handled (tables_of e.fingerprints)
      then (elim (align tenant e db.generations) [
        | none ↦ none
        | some aligned ↦ some (applied tenant e aligned db)
      ])
      else none

  -- The entries in order, each committed with the watermark at its position.
  unfoldable pub replay_entries : String × String → Log → Database → Outcome × Database
  unfolding apply_entry
  replay_entries tenant [] db = (replayed, db)
  replay_entries tenant (e ∷ es) db =
      if is_checkpoint e || is_genesis e
      then replay_entries tenant es db
      else elim (apply_entry tenant e db) [
        | none ↦ (escaped, db)
        | some (_, next) ↦ replay_entries tenant es (record next { applied_seq = e.seq })
      ]

  module _ (digest : Payload → String) where
    -- What runs under the replay lock, where the watermark is read again.
    unfoldable pub replay_locked : Bool → String × String → Log → Database → Outcome × Database
    unfolding replay_entries
    replay_locked held tenant log db =
        if held
        then if leb (head log).0 db.applied_seq
          then (ok, db)
          else replay_entries tenant (read_from db.applied_seq log) db
        else (pending, db)

    -- `_reconcile_scoped`: `applied` is the watermark read first, `db` the database under the lock.
    unfoldable pub reconcile_scoped :
        Bool → String × String → ℕ → Log → Database → Outcome × Database
    unfolding replay_locked
    reconcile_scoped held tenant applied log db =
        if not (has_genesis log)
        then (unavailable, db)
        else if is_some (verify_chain digest log)
        then (chain_broken, db)
        else if ltb applied (checkpoint_seq log)
        then (pruned, db)
        else if ltb (head log).0 applied
        then (stale, db)
        else if applied == (head log).0
        then (ok, db)
        else replay_locked held tenant log db

    -- `reconcile`, without another instance: a missing log is refused once entries were applied.
    unfoldable pub reconcile : Bool → String × String → Option Log → Database → Outcome × Database
    unfolding reconcile_scoped
    reconcile held tenant none db = if ltb 0 db.applied_seq then (unavailable, db) else (ok, db)
    reconcile held tenant (some log) db = reconcile_scoped held tenant db.applied_seq log db
