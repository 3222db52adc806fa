-- ===== src/Deletion/Log.antt =====
-- core/deletion.py, `FileDeletionLog` and `DeletionLog.verify_chain`. The position index of the file
-- is what its entries say at the time of the call.
use mirror_memory.Prelude.{
  ℕ, ◌+◌, String, Bool, false, Option, none, some, [], ◌∷◌, ◌++◌, ◌==◌, leb, ltb, not, ◌&&◌, ◌||◌,
  any, filter, length, or_else, if◌then◌else◌,
}
use mirror_memory.Prelude.Text.{str_eq, decimal_text, append as append_text}
use mirror_memory.Deletion.{
  DeletionEntry, Payload, payload, genesis_hash, genesis_entry, Log, is_genesis, is_checkpoint,
}

-- `_iter_entries`, filtered by `seq > after`
unfoldable pub read_from : ℕ → Log → Log
read_from after [] = []
read_from after (e ∷ es) =
    let rest = read_from after es in if ltb after e.seq then e ∷ rest else rest

-- `_index_tail`: the greatest position and the hash there, the last one written where two are equal.
unfoldable pub tail : Log → Option (ℕ × String)
tail [] = none
tail (e ∷ es) = elim (tail es) [
  | none ↦ some (e.seq, e.hash)
  | some (n, h) ↦ if ltb n e.seq then some (e.seq, e.hash) else some (n, h)
]

unfoldable pub head : Log → ℕ × String
unfolding tail
head log = or_else (tail log) (0, genesis_hash)

-- `_index_for(db_id).get(seq)`: the last entry of the position.
unfoldable pub entry_at : ℕ → Log → Option DeletionEntry
entry_at n [] = none
entry_at n (e ∷ es) = elim (entry_at n es) [
  | some x ↦ some x
  | none ↦ if e.seq == n then some e else none
]

unfoldable pub chain_hash_at : ℕ → Log → String
unfolding entry_at
chain_hash_at n log =
    if n == 0 then genesis_hash else elim (entry_at n log) [ none ↦ genesis_hash | some e ↦ e.hash ]

unfoldable pub has_tombstone : ℕ → String → Log → Bool
unfolding entry_at
has_tombstone n hash log = elim (entry_at n log) [
  | none ↦ false
  | some e ↦ str_eq hash e.hash || str_eq hash e.origin_hash
]

unfoldable pub checkpoint_seq : Log → ℕ
checkpoint_seq [] = 0
checkpoint_seq (e ∷ es) =
    let rest = checkpoint_seq es in if is_checkpoint e && ltb rest e.seq then e.seq else rest

unfoldable pub has_genesis : Log → Bool
has_genesis log = any is_genesis log

module _ (digest : Payload → String) where
  unfoldable pub compute_hash : DeletionEntry → String
  compute_hash e = digest (payload e)

  -- The position where the chain does not continue, if there is one. A checkpoint's own hash is not
  -- computed again.
  unfoldable pub break_after : String → Log → Option ℕ
  unfolding compute_hash
  break_after prev [] = none
  break_after prev (e ∷ es) =
      let rest = break_after e.hash es in
      if str_eq e.prev_hash prev
      then if is_checkpoint e
        then rest
        else if str_eq e.hash (compute_hash e)
        then rest
        else some e.seq
      else some e.seq

  -- `verify_chain`: `LogChainBroken` with its position.
  unfoldable pub verify_chain : Log → Option ℕ
  unfolding break_after
  verify_chain log = break_after genesis_hash log

  unfoldable pub sealed_genesis : ℕ → String → DeletionEntry
  unfolding compute_hash
  sealed_genesis now db = record (genesis_entry now db) {
    hash = compute_hash (genesis_entry now db);
  }

  -- `_ensure_file`, also `ensure_genesis`
  unfoldable pub ensure_file : ℕ → String → Option Log → Log
  unfolding sealed_genesis
  ensure_file now db none = sealed_genesis now db ∷ []
  ensure_file now db (some log) = log

  -- The entry stamped and placed, with its hash.
  unfoldable pub sealed : ℕ → DeletionEntry → ℕ → String → DeletionEntry
  unfolding compute_hash
  sealed now e seq prev =
      let placed = record e {
        created_at = some (or_else e.created_at now);
        seq = seq;
        prev_hash = prev;
      } in
      record placed { hash = compute_hash placed }

  -- The entry at the tail's next position, chained to it.
  unfoldable pub chained : ℕ → DeletionEntry → Log → DeletionEntry
  unfolding sealed
  chained now e log = elim (tail log) [
    | none ↦ sealed now e 1 genesis_hash
    | some (n, h) ↦ sealed now e (n + 1) h
  ]

  unfoldable pub append : ℕ → DeletionEntry → Option Log → DeletionEntry × Log
  unfolding ensure_file chained
  append now e file =
      let log = ensure_file now e.db_id file in (chained now e log, log ++ chained now e log ∷ [])

abbrev pub checkpoint_entry : ℕ → String → ℕ → String → String → DeletionEntry
checkpoint_entry now db before prev hash = record {
  db_id = db;
  tenant_id = "";
  app_id = "";
  user_id = "";
  scope = "checkpoint";
  scope_key = "";
  fingerprints = [];
  generation = 0;
  purpose = append_text "pruned through seq " (decimal_text before);
  seq = before;
  prev_hash = prev;
  hash = hash;
  created_at = some now;
  global_key = "";
  origin = "";
  origin_seq = 0;
  origin_hash = "";
}

unfoldable pub first_genesis : Log → Option DeletionEntry
first_genesis [] = none
first_genesis (e ∷ es) = if is_genesis e then some e else first_genesis es

-- The first entry of a position.
unfoldable pub first_at : ℕ → Log → Option DeletionEntry
first_at n [] = none
first_at n (e ∷ es) = if e.seq == n then some e else first_at n es

abbrev pub deletions : Log → Log
deletions log = filter (λ e. not (is_genesis e)) log

abbrev pub removed_count : ℕ → Log → ℕ
removed_count before log =
    length (filter (λ e. leb e.seq before && not (is_checkpoint e)) (deletions log))

-- The file after the rewrite.
abbrev pub rewritten : ℕ → String → ℕ → DeletionEntry → DeletionEntry → Log → Log
rewritten now db before genesis last log =
    genesis
    ∷ checkpoint_entry now db before genesis.hash last.hash
    ∷ read_from before (deletions log)

-- `prune`: the number removed, and the file after it.
unfoldable pub prune : ℕ → String → ℕ → Log → ℕ × Log
unfolding first_genesis first_at
prune now db before log = elim (first_genesis log) [
  | none ↦ (0, log)
  | some genesis ↦
      if any (λ e. is_checkpoint e && leb before e.seq) (deletions log)
      then (0, log)
      else elim (first_at before (deletions log)) [
        | none ↦ (0, log)
        | some last ↦
            if (removed_count before log == 0) && not (any is_checkpoint (deletions log))
            then (0, log)
            else (removed_count before log, rewritten now db before genesis last log)
      ]
]
