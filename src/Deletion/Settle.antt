-- ===== src/Deletion/Settle.antt =====
-- core/replay.py, `reconcile`: a run over entries of the ambient tenant that name handled tables only reaches the end of the
-- log, and the next run finds nothing to do.
use mirror_memory.Prelude.{
  ℕ, ◌≤◌, String, Bool, true, Option, some, [], ◌∷◌, ◌≡◌, refl, ap, ◌∙◌, ==_iff, all, not, inl, inr,
  List, ◌++◌, ◌&&◌, ◌||◌, Bool-cases, and-true, arith,
}
use mirror_memory.Prelude.Text.{eq_iff}
use mirror_memory.Prelude.Dict.{Dict}
use mirror_memory.Deletion.{DeletionEntry, Payload, Log, is_genesis, is_checkpoint}
use mirror_memory.Deletion.Log.{read_from, head, checkpoint_seq}
use mirror_memory.Deletion.Laws.{last_seq, all-read_from}
use mirror_memory.Deletion.Chain.{IsWhole}
use mirror_memory.Deletion.Replay.{
  Database, DeletionGeneration, ok, applied, is_own, align, has_generation, new_generation,
  apply_entry, replay_entries, reconcile, tables_of, is_handled,
}
use mirror_memory.Deletion.Recovery.{replay-nil, replay-done, is_marker}
use mirror_memory.Deletion.Resume.{reconcile-admitted, reconcile-replay, read-rest, pending-last}

abbrev pub names_handled : DeletionEntry → Bool
names_handled e = all is_handled (tables_of e.fingerprints)

-- The entry is a marker, or it is of the ambient tenant and names handled tables only.
abbrev pub applies : String × String → DeletionEntry → Bool
applies tenant e = is_marker e || (is_own tenant e && names_handled e)

-- Above the greatest checkpoint there is none.
no-checkpoints :
    (a : ℕ) (es : Log)
    → checkpoint_seq es ≤ a
    → all (λ e. not (is_checkpoint e)) (read_from a es) ≡ true
unfolding checkpoint_seq read_from
no-checkpoints a [] h = refl
no-checkpoints a (e ∷ es) h = ground (arith, h, no-checkpoints a es)

all-unmarked :
    (es : Log)
    → all (λ e. not (is_checkpoint e)) es ≡ true
    → all (λ e. not (is_genesis e)) es ≡ true
    → all (λ e. not (is_marker e)) es ≡ true
all-unmarked [] c g = refl
all-unmarked (e ∷ es) c g = ground (arith, c, g, all-unmarked es)

applies-unmarked :
    (tenant : String × String) (e : DeletionEntry)
    → not (is_marker e) ≡ true
    → applies tenant e ≡ true
    → (is_own tenant e ≡ true) × (names_handled e ≡ true)
applies-unmarked tenant e m h = (ground (arith, m, h), ground (arith, m, h))

module _ (print : String → ℕ → Option ℕ → String) (tenant : String × String) where
  -- An entry of the ambient tenant finds its generation, or its key free.
  align-own :
      (e : DeletionEntry) (gs : List DeletionGeneration)
      → is_own tenant e ≡ true
      → (next : List DeletionGeneration) × (align tenant e gs ≡ some next)
  unfolding align has_generation
  align-own e gs own =
      let same_tenant = (eq_iff e.tenant_id tenant.0).0 (ground (arith, own)) in
      let same_app = (eq_iff e.app_id tenant.1).0 (ground (arith, own)) in
      let same =
        ap (λ t. has_generation t e.app_id e gs) same_tenant
        ∙ ap (λ a. has_generation tenant.0 a e gs) same_app in
      elim (Bool-cases (has_generation tenant.0 tenant.1 e gs)) [
        | inl y ↦ (gs, rw (own, align) (rw (same ∙ y) refl))
        | inr n ↦ (gs ++ new_generation tenant e ∷ [], rw (own, align) (rw (same ∙ n) (rw n refl)))
      ]

  apply_entry-handled :
      (e : DeletionEntry) (db : Database)
      → is_own tenant e ≡ true
      → names_handled e ≡ true
      → (counts : Dict ℕ) × (next : Database) × (apply_entry print tenant e db
          ≡ some (counts, next))
  unfolding apply_entry
  apply_entry-handled e db own h =
      let (gs, a) = align-own e db.generations own in
      let (counts, next) = applied print tenant e gs db in
      (counts, next, rw (h, apply_entry) (rw a refl))

  replay-reaches :
      (es : Log) (db : Database)
      → all (λ e. not (is_marker e)) es ≡ true
      → all (applies tenant) es ≡ true
      → (replay_entries print tenant es db).1.applied_seq ≡ last_seq db.applied_seq es
  replay-reaches [] db m h = ap (λ d. d.1.applied_seq) (replay-nil print tenant db)
  replay-reaches (e ∷ es) db m h =
      let heads = and-true (applies tenant e) (all (applies tenant) es) h in
      let marks = and-true (not (is_marker e)) (all (λ x. not (is_marker x)) es) m in
      let (own, handled) = applies-unmarked tenant e marks.0 heads.0 in
      let (counts, next, a) = apply_entry-handled e db own handled in
      ap (λ d. d.1.applied_seq)
        (replay-done print tenant e es db next counts (ground (arith, marks.0)) a)
      ∙ replay-reaches es (record next { applied_seq = e.seq }) marks.1 heads.1

module _ (digest : Payload → String) (log : Log) (w : IsWhole digest log)
    (print : String → ℕ → Option ℕ → String) (tenant : String × String) where
  -- Where a whole log's checkpoint is not above the watermark, its head not below it, and its
  -- deletions are of the ambient tenant and name handled tables only, a run under the lock takes the watermark to the head, and the next run
  -- returns "ok" and changes nothing.
  pub reconcile-settles :
      (db : Database)
      → checkpoint_seq log ≤ db.applied_seq
      → db.applied_seq ≤ (head log).0
      → all (applies tenant) log ≡ true
      → ((reconcile print digest true tenant (some log) db).1.applied_seq ≡ (head log).0)
        × (reconcile print digest true tenant
              (some log)
              (reconcile print digest true tenant (some log) db).1
            ≡ (ok, (reconcile print digest true tenant (some log) db).1))
  reconcile-settles db low high h = (reached, again)
    where
      reached : (reconcile print digest true tenant (some log) db).1.applied_seq ≡ (head log).0
      reached =
          ap (λ d. d.applied_seq) (reconcile-replay digest log w print tenant db low high)
          ∙ replay-reaches print tenant (read_from db.applied_seq log) db
              (all-unmarked (read_from db.applied_seq log) (no-checkpoints db.applied_seq log low) (
                rw (read-rest digest log w db.applied_seq)
                  (all-read_from (λ e. not (is_genesis e)) db.applied_seq w.rest w.one_genesis)))
              (all-read_from (applies tenant) db.applied_seq log h)
          ∙ pending-last digest log w db.applied_seq high

      again :
          reconcile print digest true tenant
            (some log)
            (reconcile print digest true tenant (some log) db).1
          ≡ (ok, (reconcile print digest true tenant (some log) db).1)
      again =
          reconcile-admitted digest log w print tenant
            (reconcile print digest true tenant (some log) db).1 (omega (arith, reached, low, high))
            (omega (arith, reached))
          ∙ rw
              ((==_iff (reconcile print digest true tenant (some log) db).1.applied_seq
                  (head log).0).1
                reached)
              refl
