-- ===== src/Deletion/Rows.antt =====
-- core/replay.py, `apply_entry`: which rows an entry takes away.
use mirror_memory.Prelude.{ℕ, String, Bool, false, Option, List, [], ◌∷◌, ◌&&◌, ◌||◌}
use mirror_memory.Prelude.Text.{str_eq}
use mirror_memory.Prelude.Dict.{Dict}
use mirror_memory.Deletion.{DeletionEntry, Fingerprint}
use mirror_memory.Deletion.Replay.{Row, meets, fingerprint}

-- A fingerprint of the list names a table and a hash.
abbrev pub names : List Fingerprint → String → String → Bool
names [] table hash = false
names (f ∷ fs) table hash = (str_eq f.table table && str_eq hash f.fp) || names fs table hash

module _ (print : String → ℕ → Option ℕ → String) (tenant : String × String)
    (e : DeletionEntry) where
  -- The entry names the row: its table with its fingerprint, and the row is of the ambient
  -- tenant, of the entry's tenant and, but for a link, of its user.
  abbrev pub named : Row → Bool
  named r = meets tenant e r && names e.fingerprints r.table (fingerprint print r)
