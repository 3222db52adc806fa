-- ===== src/Deletion/Resume.antt =====
-- core/replay.py, `reconcile`: an interrupted run is completed by the next one, and a completed run
-- leaves nothing to do.
use mirror_memory.Prelude.{
  ℕ, zero, suc, ◌≤◌, String, true, Option, none, some, [], ◌∷◌, ◌++◌, ◌≡◌, refl, ap, ◌∙◌, sym, ◌==◌,
  ==_iff, ltb, take, drop, if◌then◌else◌, inl, inr, Bool-cases, arith,
}
use mirror_memory.Deletion.{Payload, Log}
use mirror_memory.Deletion.Log.{read_from, head, verify_chain, checkpoint_seq, has_genesis}
use mirror_memory.Deletion.Laws.{
  ascending, last_seq, last_seq-above, tail-ascending, read_from-all, read_from-read_from,
  ascending-read_from,
}
use mirror_memory.Deletion.Chain.{IsWhole}
use mirror_memory.Deletion.Replay.{
  Database, ok, replayed, replay_entries, replay_locked, reconcile_scoped, reconcile,
}
use mirror_memory.Deletion.Recovery.{
  replay-append, replay-left, replay-nil, applied-between, ascending-left, below,
}

take-drop : (k : ℕ) (es : Log) → take k es ++ drop k es ≡ es
take-drop zero es = refl
take-drop (suc k) [] = refl
take-drop (suc k) (e ∷ es) = ap (λ r. e ∷ r) (take-drop k es)

last_seq-append : (n : ℕ) (xs ys : Log) → last_seq n (xs ++ ys) ≡ last_seq (last_seq n xs) ys
last_seq-append n [] ys = refl
last_seq-append n (x ∷ xs) ys = last_seq-append x.seq xs ys

ascending-right :
    (n : ℕ) (xs ys : Log) → ascending n (xs ++ ys) ≡ true → ascending (last_seq n xs) ys ≡ true
ascending-right n [] ys a = a
ascending-right n (x ∷ xs) ys a = ascending-right x.seq xs ys (ground (arith, a))

last-read :
    (n a : ℕ) (es : Log)
    → ascending n es ≡ true
    → n ≤ a
    → a ≤ last_seq n es
    → last_seq a (read_from a es) ≡ last_seq n es
unfolding read_from
last-read n a [] o l u = omega (arith, l, u)
last-read n a (e ∷ es) o l u = elim (Bool-cases (ltb a e.seq)) [
  | inl k ↦ ground (arith, k, o, read_from-all e.seq a es)
  | inr k ↦ ground (arith, k, o, u, last-read e.seq a es)
]

read-none : (n a : ℕ) (es : Log) → ascending n es ≡ true → last_seq n es ≤ a → read_from a es ≡ []
unfolding read_from
read-none n a [] o u = refl
read-none n a (e ∷ es) o u = ground (arith, o, u, last_seq-above e.seq es, read-none e.seq a es)

module _ (digest : Payload → String) (log : Log) (w : IsWhole digest log) where
  head-last : (head log).0 ≡ last_seq w.birth.seq w.rest
  unfolding head
  head-last = rw w.shape (rw (tail-ascending w.birth w.rest w.order) refl)

  pub read-rest : (a : ℕ) → read_from a log ≡ read_from a w.rest
  unfolding read_from
  read-rest a = rw w.shape (rw w.at_zero (ground arith))

  pub pending-ascending : (a : ℕ) → ascending a (read_from a log) ≡ true
  pending-ascending a = rw (read-rest a) (ascending-read_from w.birth.seq a w.rest w.order)

  pub pending-last : (a : ℕ) → a ≤ (head log).0 → last_seq a (read_from a log) ≡ (head log).0
  pending-last a u = rw (read-rest a) (
      last-read w.birth.seq a w.rest w.order (rw w.at_zero (omega arith))
        (omega (arith, u, head-last))
      ∙ sym head-last)

  pending-none : read_from (head log).0 log ≡ []
  pending-none =
      read-rest (head log).0
      ∙ read-none w.birth.seq (head log).0 w.rest w.order (omega (arith, head-last))

  has_genesis-whole : has_genesis log ≡ true
  unfolding has_genesis
  has_genesis-whole = rw w.shape (rw w.genesis refl)

  verify_chain-whole : verify_chain digest log ≡ none
  unfolding verify_chain
  verify_chain-whole = ap (verify_chain digest) w.shape ∙ w.chain

  module _ (print : String → ℕ → Option ℕ → String) (tenant : String × String) where
    -- A whole log that is neither pruned past the watermark nor behind it is admitted.
    pub reconcile-admitted :
        (db : Database)
        → checkpoint_seq log ≤ db.applied_seq
        → db.applied_seq ≤ (head log).0
        → reconcile print digest true tenant (some log) db ≡ (
            if db.applied_seq == (head log).0
            then (ok, db)
            else replay_entries print tenant (read_from db.applied_seq log) db)
    unfolding reconcile reconcile_scoped replay_locked
    reconcile-admitted db low high =
        rw (has_genesis-whole, reconcile, reconcile_scoped)
          (rw verify_chain-whole (
            rw (below (checkpoint_seq log) db.applied_seq low) (
              rw (below db.applied_seq (head log).0 high)
                (elim (Bool-cases (db.applied_seq == (head log).0)) [
                  | inl k ↦ rw k refl
                  | inr k ↦ ground (arith, k, high)
                ]))))

    none-pending :
        (db : Database) → db.applied_seq ≡ (head log).0 → read_from db.applied_seq log ≡ []
    none-pending db e = ap (λ a. read_from a log) e ∙ pending-none

    pub reconcile-replay :
        (db : Database)
        → checkpoint_seq log ≤ db.applied_seq
        → db.applied_seq ≤ (head log).0
        → (reconcile print digest true tenant (some log) db).1
          ≡ (replay_entries print tenant (read_from db.applied_seq log) db).1
    reconcile-replay db low high = ap (λ d. d.1) (reconcile-admitted db low high) ∙ by_end
      where
        by_end :
            (if db.applied_seq == (head log).0
              then (ok, db)
              else replay_entries print tenant (read_from db.applied_seq log) db).1
            ≡ (replay_entries print tenant (read_from db.applied_seq log) db).1
        by_end = elim (Bool-cases (db.applied_seq == (head log).0)) [
          | inr k ↦ rw k refl
          | inl k ↦ rw k (
              ap (λ d. d.1)
                (sym (
                  ap (λ es. replay_entries print tenant es db)
                    (none-pending db ((==_iff db.applied_seq (head log).0).0 k))
                  ∙ replay-nil print tenant db)))
        ]

    -- Where a whole log's checkpoint is not above the watermark and its head not below it, a run that
    -- ends after the first `k` of the missed entries, each committed, then a whole run under the lock,
    -- leave the database that one whole run under the lock leaves.
    pub reconcile-resumes :
        (k : ℕ) (db mid : Database)
        → checkpoint_seq log ≤ db.applied_seq
        → db.applied_seq ≤ (head log).0
        → replay_entries print tenant (take k (read_from db.applied_seq log)) db ≡ (replayed, mid)
        → (reconcile print digest true tenant (some log) mid).1
          ≡ (reconcile print digest true tenant (some log) db).1
    reconcile-resumes k db mid low high h =
        reconcile-replay mid (omega (arith, low, bounds.0)) (omega (arith, bounds.1, reached))
        ∙ ap (λ d. d.1) (again ∙ sym once)
        ∙ sym (reconcile-replay db low high)
      where
        missed : Log
        missed = read_from db.applied_seq log

        parts : take k missed ++ drop k missed ≡ missed
        parts = take-drop k missed

        order : ascending db.applied_seq (take k missed ++ drop k missed) ≡ true
        order = ap (ascending db.applied_seq) parts ∙ pending-ascending db.applied_seq

        bounds :
            (db.applied_seq ≤ mid.applied_seq)
            × (mid.applied_seq ≤ last_seq db.applied_seq (take k missed))
        bounds =
            applied-between print tenant db.applied_seq (take k missed) db mid
              (ascending-left db.applied_seq (take k missed) (drop k missed) order) (omega arith) h

        reached : last_seq db.applied_seq (take k missed) ≤ (head log).0
        reached = omega (
          arith,
          last_seq-above (last_seq db.applied_seq (take k missed)) (drop k missed)
              (ascending-right db.applied_seq (take k missed) (drop k missed) order),
          last_seq-append db.applied_seq (take k missed) (drop k missed),
          ap (last_seq db.applied_seq) parts,
          pending-last db.applied_seq high,
        )

        once :
            replay_entries print tenant missed db ≡ replay_entries print tenant (drop k missed) mid
        once =
            ap (λ es. replay_entries print tenant es db) (sym parts)
            ∙ replay-append print tenant (take k missed) (drop k missed) db mid h

        again :
            replay_entries print tenant (read_from mid.applied_seq log) mid
            ≡ replay_entries print tenant (drop k missed) mid
        again =
            ap (λ es. replay_entries print tenant es mid)
              (sym (read_from-read_from db.applied_seq mid.applied_seq log bounds.0)
                ∙ ap (read_from mid.applied_seq) (sym parts))
            ∙ replay-left print tenant db.applied_seq (take k missed) (drop k missed) db mid order
                (omega arith) h
