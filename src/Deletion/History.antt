-- ===== src/Deletion/History.antt =====
-- core/deletion.py: the files that the calls of one database life write.
use mirror_memory.Prelude.{ℕ, String, false, none, some, ◌≡◌, ap, ◌∙◌}
use mirror_memory.Deletion.{DeletionEntry, Payload, Log, is_genesis, is_checkpoint}
use mirror_memory.Deletion.Log.{verify_chain, ensure_file, append, prune}
use mirror_memory.Deletion.Chain.{IsWhole, ensure_file-IsWhole, append-IsWhole}
use mirror_memory.Deletion.Prune.{prune-IsWhole}

module _ (digest : Payload → String) where
  -- Every file that a sequence of appends and prunes writes after the genesis.
  pub data Written : Log → Type 0 where
    founded : (now : ℕ) (db : String) → Written (ensure_file digest now db none)
    appended :
        {log : Log} (now : ℕ) (e : DeletionEntry)
        → Written log
        → is_genesis e ≡ false
        → is_checkpoint e ≡ false
        → Written (append digest now e (some log)).1
    compacted :
        {log : Log} (now : ℕ) (db : String) (before : ℕ)
        → Written log
        → Written (prune now db before log).1

  pub Written-IsWhole : (log : Log) → Written log → IsWhole digest log
  Written-IsWhole log (founded now db) = ensure_file-IsWhole digest now db none tt
  Written-IsWhole log (appended {log = before} now e w g c) =
      append-IsWhole digest now e (some before) (Written-IsWhole before w) g c
  Written-IsWhole log (compacted {log = whole} now db before w) =
      prune-IsWhole digest now db before whole (Written-IsWhole whole w)

  -- Whatever appends of deletions and prunes have written a file, `verify_chain` finds no break in
  -- it.
  pub verify_chain-Written : (log : Log) → Written log → verify_chain digest log ≡ none
  unfolding verify_chain
  verify_chain-Written log w =
      let whole = Written-IsWhole log w in ap (verify_chain digest) whole.shape ∙ whole.chain
