-- ===== src/Deletion/Chain.antt =====
-- core/deletion.py, `FileDeletionLog.append`: a log stays whole.
use mirror_memory.Prelude.{
  ℕ, ◌+◌, String, Bool, true, false, Option, none, some, [], ◌∷◌, ◌++◌, ◌≡◌, refl, ◌∙◌, sym, subst,
  all, not, arith,
}
use mirror_memory.Prelude.Text.{eq_iff, eq_refl}
use mirror_memory.Deletion.{
  DeletionEntry, Payload, payload, Log, is_genesis, is_checkpoint, genesis_hash, genesis_entry,
}
use mirror_memory.Deletion.Log.{
  break_after, compute_hash, sealed_genesis, ensure_file, chained, sealed, append,
}
use mirror_memory.Deletion.Laws.{
  ascending, last_seq, last_hash, tail-ascending, ascending-snoc, break_after-append,
}

pub no_checkpoint : (e : DeletionEntry) → is_genesis e ≡ true → is_checkpoint e ≡ false
no_checkpoint e h = rw ((eq_iff e.scope "genesis").0 h) refl

all-snoc :
    (p : DeletionEntry → Bool) (es : Log) (e : DeletionEntry)
    → all p es ≡ true
    → p e ≡ true
    → all p (es ++ e ∷ []) ≡ true
all-snoc p [] e a h = ground (arith, h)
all-snoc p (x ∷ xs) e a h = ground (arith, a, h, all-snoc p xs e)

module _ (digest : Payload → String) where
  -- A whole log: the genesis entry at position 0, no other genesis, positions that ascend, and a
  -- chain without a break.
  pub record IsWhole (log : Log) : Type 0 where
    pub birth : DeletionEntry
    pub rest : Log
    pub shape : log ≡ birth ∷ rest
    pub genesis : is_genesis birth ≡ true
    pub at_zero : birth.seq ≡ 0
    pub one_genesis : all (λ e. not (is_genesis e)) rest ≡ true
    pub order : ascending birth.seq rest ≡ true
    pub chain : break_after digest genesis_hash (birth ∷ rest) ≡ none

  abbrev pub IsWholeFile : Option Log → Type 0
  IsWholeFile none = Unit
  IsWholeFile (some log) = IsWhole log

  pub ensure_file-IsWhole :
      (now : ℕ) (db : String) (file : Option Log)
      → IsWholeFile file
      → IsWhole (ensure_file digest now db file)
  unfolding ensure_file sealed_genesis break_after compute_hash payload
  ensure_file-IsWhole now db (some log) w = w
  ensure_file-IsWhole now db none w = record {
    birth = sealed_genesis digest now db;
    rest = [];
    shape = refl;
    genesis = refl;
    at_zero = refl;
    one_genesis = refl;
    order = refl;
    chain = ground (arith, eq_refl (compute_hash digest (genesis_entry now db)));
  }

  -- The entry that an append to an ascending log places.
  chained-tail :
      (now : ℕ) (e birth : DeletionEntry) (rest : Log)
      → ascending birth.seq rest ≡ true
      → chained digest now e (birth ∷ rest)
        ≡ sealed digest now e (last_seq birth.seq rest + 1) (last_hash birth.hash rest)
  unfolding chained
  chained-tail now e birth rest a = rw (tail-ascending birth rest a, chained) refl

  sealed-continues :
      (now : ℕ) (e : DeletionEntry) (n : ℕ) (prev : String)
      → is_checkpoint e ≡ false
      → break_after digest prev (sealed digest now e n prev ∷ []) ≡ none
  unfolding sealed break_after compute_hash payload
  sealed-continues now e n prev c =
      ground (arith, c, eq_refl prev, eq_refl (sealed digest now e n prev).hash)

  -- The seal leaves the scope.
  sealed-scope :
      (now : ℕ) (e : DeletionEntry) (n : ℕ) (prev : String)
      → (sealed digest now e n prev).scope ≡ e.scope
  unfolding sealed
  sealed-scope now e n prev = refl

  sealed-seq :
      (now : ℕ) (e : DeletionEntry) (n : ℕ) (prev : String) → (sealed digest now e n prev).seq ≡ n
  unfolding sealed
  sealed-seq now e n prev = refl

  append_new-IsWhole :
      (now : ℕ) (e : DeletionEntry) (log : Log)
      → is_genesis e ≡ false
      → is_checkpoint e ≡ false
      → IsWhole log
      → IsWhole (log ++ chained digest now e log ∷ [])
  append_new-IsWhole now e log g c w =
      subst (λ l. IsWhole (l ++ chained digest now e l ∷ [])) (sym w.shape)
        (rw (chained-tail now e w.birth w.rest w.order) (record {
          birth = w.birth;
          rest = w.rest ++ new ∷ [];
          shape = refl;
          genesis = w.genesis;
          at_zero = w.at_zero;
          one_genesis =
              all-snoc (λ x. not (is_genesis x)) w.rest new w.one_genesis
                (rw
                  (sealed-scope now e (last_seq w.birth.seq w.rest + 1)
                    (last_hash w.birth.hash w.rest))
                  (rw g refl));
          order = ascending-snoc w.birth.seq w.rest new w.order (
              rw
                (sealed-seq now e (last_seq w.birth.seq w.rest + 1) (last_hash w.birth.hash w.rest))
                (omega arith));
          chain =
              break_after-append digest genesis_hash (w.birth ∷ w.rest) (new ∷ []) w.chain
              ∙ sealed-continues now e (last_seq w.birth.seq w.rest + 1)
                  (last_hash w.birth.hash w.rest) c;
        }))
    where
      new : DeletionEntry
      new = sealed digest now e (last_seq w.birth.seq w.rest + 1) (last_hash w.birth.hash w.rest)

  -- An append to a whole log, or to a file that is not there yet, leaves a whole log.
  pub append-IsWhole :
      (now : ℕ) (e : DeletionEntry) (file : Option Log)
      → IsWholeFile file
      → is_genesis e ≡ false
      → is_checkpoint e ≡ false
      → IsWhole (append digest now e file).1
  unfolding append
  append-IsWhole now e file w g c =
      append_new-IsWhole now e (ensure_file digest now e.db_id file) g c
        (ensure_file-IsWhole now e.db_id file w)
