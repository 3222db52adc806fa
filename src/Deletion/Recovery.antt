-- ===== src/Deletion/Recovery.antt =====
-- core/replay.py, `reconcile`: where a run of the missed entries ends, also after an interruption.
use mirror_memory.Prelude.{
  ℕ, ◌≤◌, String, Bool, true, false, Option, some, [], ◌∷◌, ◌++◌, ◌≡◌, refl, ap, ◌∙◌, sym, ◌||◌,
  ltb, inl, inr, Bool-cases, Option-cases, arith,
}
use mirror_memory.Prelude.Dict.{Dict}
use mirror_memory.Deletion.{DeletionEntry, Log, is_genesis, is_checkpoint}
use mirror_memory.Deletion.Log.{read_from}
use mirror_memory.Deletion.Laws.{ascending, last_seq, read_from-all}
use mirror_memory.Deletion.Replay.{Database, replayed, apply_entry, replay_entries}

abbrev pub is_marker : DeletionEntry → Bool
is_marker e = is_checkpoint e || is_genesis e

pub ascending-left : (n : ℕ) (xs ys : Log) → ascending n (xs ++ ys) ≡ true → ascending n xs ≡ true
ascending-left n [] ys a = refl
ascending-left n (x ∷ xs) ys a = ground (arith, a, ascending-left x.seq xs ys)

pub below : (n m : ℕ) → n ≤ m → ltb m n ≡ false
below n m le = ground (arith, le)

module _ (print : String → ℕ → Option ℕ → String) (tenant : String × String) where
  -- One step of a run that ends replayed.
  pub data Ran : DeletionEntry → Log → Database → Database → Type 0 where
    skipped :
        {e : DeletionEntry} {es : Log} {db end : Database}
        → is_marker e ≡ true
        → replay_entries print tenant es db ≡ (replayed, end)
        → Ran e es db end
    done :
        {e : DeletionEntry} {es : Log} {db end : Database} (counts : Dict ℕ) (next : Database)
        → is_marker e ≡ false
        → apply_entry print tenant e db ≡ some (counts, next)
        → replay_entries print tenant es (record next { applied_seq = e.seq }) ≡ (replayed, end)
        → Ran e es db end

  pub ran :
      (e : DeletionEntry) (es : Log) (db end : Database)
      → replay_entries print tenant (e ∷ es) db ≡ (replayed, end)
      → Ran e es db end
  unfolding replay_entries
  ran e es db end h = elim (Bool-cases (is_marker e)) [
    | inl m ↦ skipped m (sym (rw (m, replay_entries) refl) ∙ h)
    | inr m ↦ elim (Option-cases (apply_entry print tenant e db)) [
      | inl a ↦ absurd (ground (arith, m, a, h))
      | inr ((counts, next), a) ↦
          done counts next m a (sym (rw (m, replay_entries) (rw a refl)) ∙ h)
    ]
  ]

  replay-skip :
      (e : DeletionEntry) (es : Log) (db : Database)
      → is_marker e ≡ true
      → replay_entries print tenant (e ∷ es) db ≡ replay_entries print tenant es db
  unfolding replay_entries
  replay-skip e es db m = rw m refl

  pub replay-done :
      (e : DeletionEntry) (es : Log) (db next : Database) (counts : Dict ℕ)
      → is_marker e ≡ false
      → apply_entry print tenant e db ≡ some (counts, next)
      → replay_entries print tenant (e ∷ es) db
        ≡ replay_entries print tenant es (record next { applied_seq = e.seq })
  unfolding replay_entries
  replay-done e es db next counts m a = rw m (rw a refl)

  -- A run of two parts.
  pub replay-append :
      (xs ys : Log) (db mid : Database)
      → replay_entries print tenant xs db ≡ (replayed, mid)
      → replay_entries print tenant (xs ++ ys) db ≡ replay_entries print tenant ys mid
  unfolding replay_entries
  replay-append [] ys db mid h = ap (λ d. replay_entries print tenant ys d.1) h
  replay-append (x ∷ xs) ys db mid h = elim (ran x xs db mid h) [
    | skipped m r ↦ replay-skip x (xs ++ ys) db m ∙ replay-append xs ys db mid r
    | done counts next m a r ↦
        replay-done x (xs ++ ys) db next counts m a
        ∙ replay-append xs ys (record next { applied_seq = x.seq }) mid r
  ]

  -- The watermark of a run stays between where it starts and the last position.
  pub applied-between :
      (n : ℕ) (xs : Log) (db end : Database)
      → ascending n xs ≡ true
      → db.applied_seq ≤ n
      → replay_entries print tenant xs db ≡ (replayed, end)
      → (db.applied_seq ≤ end.applied_seq) × (end.applied_seq ≤ last_seq n xs)
  unfolding replay_entries
  applied-between n [] db end a le h =
      let same = ap (λ d. d.1.applied_seq) h in (omega (arith, same), omega (arith, same, le))
  applied-between n (x ∷ xs) db end a le h = elim (ran x xs db end h) [
    | skipped m r ↦ applied-between x.seq xs db end (ground (arith, a)) (ground (arith, a, le)) r
    | done counts next m e r ↦
        let rest =
          applied-between x.seq xs (record next { applied_seq = x.seq }) end (ground (arith, a))
            (omega arith) r in
        (ground (arith, a, le, rest.0), rest.1)
  ]

  pub replay-nil : (db : Database) → replay_entries print tenant [] db ≡ (replayed, db)
  unfolding replay_entries
  replay-nil db = refl

  -- What is read above the watermark of an interrupted run is what the run had left, but for
  -- markers.
  pub replay-left :
      (n : ℕ) (xs ys : Log) (db mid : Database)
      → ascending n (xs ++ ys) ≡ true
      → db.applied_seq ≤ n
      → replay_entries print tenant xs db ≡ (replayed, mid)
      → replay_entries print tenant (read_from mid.applied_seq (xs ++ ys)) mid
        ≡ replay_entries print tenant ys mid
  unfolding read_from
  replay-left n [] ys db mid a le h =
      ap (λ es. replay_entries print tenant es mid)
        (read_from-all n mid.applied_seq ys (omega (arith, stays, le)) a)
    where
      stays : db.applied_seq ≡ mid.applied_seq
      stays = ap (λ d. d.1.applied_seq) (sym (replay-nil db) ∙ h)
  replay-left n (x ∷ xs) ys db mid a le h = elim (ran x xs db mid h) [
    | skipped m r ↦
        let rest = replay-left x.seq xs ys db mid (ground (arith, a)) (ground (arith, a, le)) r in
        elim (Bool-cases (ltb mid.applied_seq x.seq)) [
          | inl k ↦ rw k (replay-skip x (read_from mid.applied_seq (xs ++ ys)) mid m ∙ rest)
          | inr k ↦ rw k rest
        ]
    | done counts next m e r ↦
        let later =
          replay-left x.seq xs ys (record next { applied_seq = x.seq }) mid (ground (arith, a))
            (omega arith) r in
        let above =
          applied-between x.seq xs (record next { applied_seq = x.seq }) mid
            (ascending-left x.seq xs ys (ground (arith, a))) (omega arith) r in
        rw (below x.seq mid.applied_seq above.0) later
  ]
