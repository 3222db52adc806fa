-- ===== src/Deletion/Prune.antt =====
-- core/deletion.py, `FileDeletionLog.prune`: what the rewrite of the file keeps.
use mirror_memory.Prelude.{
  ℕ, ◌≤◌, String, true, none, some, ◌∷◌, ◌≡◌, refl, ap, ◌∙◌, sym, subst, ◌&&◌, ◌==◌, leb, any, not,
  or_else, inl, inr, Bool-cases, Option-cases, some_eq, arith,
}
use mirror_memory.Prelude.Text.{eq_iff}
use mirror_memory.Deletion.{DeletionEntry, Payload, Log, is_genesis, is_checkpoint, genesis_hash}
use mirror_memory.Deletion.Log.{
  read_from, head, break_after, first_genesis, first_at, deletions, removed_count, checkpoint_entry,
  rewritten, prune,
}
use mirror_memory.Deletion.Laws.{
  ascending, tail-ascending, read_from-read_from, first_at-above, break_after-read_from, filter-all,
  all-read_from, ascending-read_from, last-read_from,
}
use mirror_memory.Deletion.Chain.{IsWhole}

-- A prune either changes nothing, or rewrites the file from an entry at the position.
data Pruned (now : ℕ) (db : String) (before : ℕ) (log : Log) : ℕ × Log → Type 0 where
  unchanged : {n : ℕ} → Pruned now db before log (n, log)
  compacted :
      {n : ℕ} (birth last : DeletionEntry)
      → first_genesis log ≡ some birth
      → first_at before (deletions log) ≡ some last
      → Pruned now db before log (n, rewritten now db before birth last log)

prune-Pruned :
    (now : ℕ) (db : String) (before : ℕ) (log : Log)
    → Pruned now db before log (prune now db before log)
unfolding prune
prune-Pruned now db before log = elim (Option-cases (first_genesis log)) [
  | inl g ↦ rw (g, prune) unchanged
  | inr (birth, g) ↦
      elim (Bool-cases (any (λ e. is_checkpoint e && leb before e.seq) (deletions log))) [
        | inl c ↦ rw (g, prune) (rw c unchanged)
        | inr c ↦ elim (Option-cases (first_at before (deletions log))) [
          | inl l ↦ rw (g, prune) (rw c (rw l unchanged))
          | inr (last, l) ↦
              elim (Bool-cases
                ((removed_count before log == 0) && not (any is_checkpoint (deletions log)))) [
                  | inl z ↦ rw (g, prune) (rw c (rw l (rw z unchanged)))
                  | inr z ↦ rw (g, prune) (rw c (rw l (rw z (compacted birth last g l))))
                ]
        ]
      ]
]

-- What a reader above the pruned position, and the next append, see of a log.
pub record SameAbove (before : ℕ) (log pruned : Log) : Type 0 where
  pub reads : (after : ℕ) → before ≤ after → read_from after pruned ≡ read_from after log
  pub heads : head pruned ≡ head log

module _ (digest : Payload → String) where
  chain-rest :
      (prev : String) (e : DeletionEntry) (es : Log)
      → break_after digest prev (e ∷ es) ≡ none
      → break_after digest e.hash es ≡ none
  unfolding break_after
  chain-rest prev e es h = ground (arith, h)

  chain-other :
      (prev : String) (e : DeletionEntry) (es other : Log)
      → break_after digest prev (e ∷ es) ≡ none
      → break_after digest e.hash other ≡ none
      → break_after digest prev (e ∷ other) ≡ none
  unfolding break_after
  chain-other prev e es other h o = ground (arith, h, o)

  chain-checkpoint :
      (e : DeletionEntry) (prev : String) (es : Log)
      → is_checkpoint e ≡ true
      → e.prev_hash ≡ prev
      → break_after digest e.hash es ≡ none
      → break_after digest prev (e ∷ es) ≡ none
  unfolding break_after
  chain-checkpoint e prev es c p h = ground (arith, c, (eq_iff e.prev_hash prev).1 p, h)

  module _ (now : ℕ) (db : String) (before : ℕ) (log : Log) (w : IsWhole digest log) where
    -- The whole log's genesis is the one that a prune finds, and the rest are its deletions.
    first_genesis-birth : first_genesis log ≡ some w.birth
    unfolding first_genesis
    first_genesis-birth = rw w.shape (rw w.genesis refl)

    deletions-rest : deletions log ≡ w.rest
    deletions-rest =
        rw w.shape (rw w.genesis (filter-all (λ e. not (is_genesis e)) w.rest w.one_genesis))

    abbrev point : DeletionEntry → DeletionEntry
    point last = checkpoint_entry now db before w.birth.hash last.hash

    compacted-order :
        (last : DeletionEntry)
        → first_at before w.rest ≡ some last
        → ascending w.birth.seq (point last ∷ read_from before w.rest) ≡ true
    compacted-order last f = ground (
      arith,
      first_at-above w.birth.seq before w.rest last w.order f,
      ascending-read_from w.birth.seq before w.rest w.order,
    )

    compacted-IsWhole :
        (last : DeletionEntry)
        → first_at before w.rest ≡ some last
        → IsWhole digest (w.birth ∷ point last ∷ read_from before w.rest)
    compacted-IsWhole last f =
        let kept = read_from before w.rest in
        let whole_rest = chain-rest genesis_hash w.birth w.rest w.chain in
        record {
          birth = w.birth;
          rest = point last ∷ kept;
          shape = refl;
          genesis = w.genesis;
          at_zero = w.at_zero;
          one_genesis = all-read_from (λ e. not (is_genesis e)) before w.rest w.one_genesis;
          order = compacted-order last f;
          chain = chain-other genesis_hash w.birth w.rest (point last ∷ kept) w.chain (
              chain-checkpoint (point last) w.birth.hash kept refl refl (
                break_after-read_from digest w.birth.hash w.birth.seq before w.rest last w.order
                  whole_rest f));
        }

    compacted-SameAbove :
        (last : DeletionEntry)
        → first_at before w.rest ≡ some last
        → SameAbove before (w.birth ∷ w.rest) (w.birth ∷ point last ∷ read_from before w.rest)
    unfolding read_from head
    compacted-SameAbove last f = record {
      reads = λ after le. ground (arith, le, read_from-read_from before after w.rest le);
      heads =
          let ends = last-read_from w.birth.seq before w.birth.hash w.rest last w.order f in
          ap (λ t. or_else t (0, genesis_hash))
            (tail-ascending w.birth (point last ∷ read_from before w.rest) (compacted-order last f)
              ∙ ground (arith, ends.0, ends.1)
              ∙ sym (tail-ascending w.birth w.rest w.order));
    }

module _ (digest : Payload → String) (now : ℕ) (db : String) (before : ℕ) (log : Log)
    (w : IsWhole digest log) where
  rewritten-parts :
      (birth last : DeletionEntry)
      → first_genesis log ≡ some birth
      → rewritten now db before birth last log
        ≡ w.birth ∷ point digest now db before log w last ∷ read_from before w.rest
  rewritten-parts birth last g =
      let same = some_eq (sym g ∙ first_genesis-birth digest now db before log w) in
      ap
        (λ b.
          b ∷ checkpoint_entry now db before b.hash last.hash ∷ read_from before (deletions log))
        same
      ∙ ap (λ r. w.birth ∷ point digest now db before log w last ∷ read_from before r)
          (deletions-rest digest now db before log w)

  at_rest :
      (last : DeletionEntry)
      → first_at before (deletions log) ≡ some last
      → first_at before w.rest ≡ some last
  at_rest last l = ap (first_at before) (sym (deletions-rest digest now db before log w)) ∙ l

  -- A prune leaves a whole log whole.
  pub prune-IsWhole : IsWhole digest (prune now db before log).1
  prune-IsWhole = by_case (prune now db before log) (prune-Pruned now db before log)
    where
      by_case : (x : ℕ × Log) → Pruned now db before log x → IsWhole digest x.1
      by_case x unchanged = w
      by_case x (compacted birth last g l) =
          subst (IsWhole digest) (sym (rewritten-parts birth last g))
            (compacted-IsWhole digest now db before log w last (at_rest last l))

  -- A prune leaves the head of a whole log, and what is read above any position from the pruned one
  -- on.
  pub prune-SameAbove : SameAbove before log (prune now db before log).1
  prune-SameAbove = by_case (prune now db before log) (prune-Pruned now db before log)
    where
      by_case : (x : ℕ × Log) → Pruned now db before log x → SameAbove before log x.1
      by_case x unchanged = record { reads = λ after le. refl; heads = refl }
      by_case x (compacted birth last g l) =
          subst (SameAbove before log) (sym (rewritten-parts birth last g)) (
            subst
              (λ y.
                SameAbove before y
                  (w.birth ∷ point digest now db before log w last ∷ read_from before w.rest))
              (sym w.shape) (compacted-SameAbove digest now db before log w last (at_rest last l)))
