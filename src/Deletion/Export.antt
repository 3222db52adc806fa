-- ===== src/Deletion/Export.antt =====
-- core/tombstones.py, `export_from_log`: between its cursors a batch holds every deletion that can
-- travel.
use mirror_memory.Prelude.{
  ℕ, ◌+◌, ◌≤◌, String, true, false, none, some, List, [], ◌∷◌, ◌++◌, ◌≡◌, refl, ap, ◌∙◌, sym, subst,
  ◌&&◌, not, ◌==◌, ◌⊎◌, ltb, leb, length, inl, inr, Bool-cases, Option-cases, some_eq, arith,
}
use mirror_memory.Deletion.{DeletionEntry, Payload, Log}
use mirror_memory.Deletion.Log.{read_from, checkpoint_seq}
use mirror_memory.Deletion.Laws.{ascending, read_from-all, read_from-read_from}
use mirror_memory.Deletion.Chain.{IsWhole}
use mirror_memory.Deletion.Resume.{pending-ascending}
use mirror_memory.Deletion.Tombstones.{
  TombstonePayload, BatchPayload, TombstoneEntry, TombstoneBatch, Collected, local_only,
  from_deletion_entry, collect, nothing_from, seal_batch, served, served_from, export_from_log,
}

append_nil : {A : Type 0} (xs : List A) → xs ++ [] ≡ xs
append_nil [] = refl
append_nil (x ∷ xs) = ap (λ r. x ∷ r) (append_nil xs)

append_assoc : {A : Type 0} (xs ys zs : List A) → (xs ++ ys) ++ zs ≡ xs ++ (ys ++ zs)
append_assoc [] ys zs = refl
append_assoc (x ∷ xs) ys zs = ap (λ r. x ∷ r) (append_assoc xs ys zs)

onward :
    (n : ℕ) (e : DeletionEntry) (es : Log) → ascending n (e ∷ es) ≡ true → ascending e.seq es ≡ true
onward n e es a = ground (arith, a)

upward : (n : ℕ) (e : DeletionEntry) (es : Log) → ascending n (e ∷ es) ≡ true → n ≤ e.seq
upward n e es a = ground (arith, a)

leave : (a : ℕ) (e : DeletionEntry) (es : Log) → e.seq ≤ a → read_from a (e ∷ es) ≡ read_from a es
unfolding read_from
leave a e es le = ground (arith, le)

module _ (iso : ℕ → String) (entry_digest : TombstonePayload → String) where
  -- The deletions of a log that can travel.
  abbrev pub tombstones_of : Log → List TombstoneEntry
  tombstones_of [] = []
  tombstones_of (e ∷ es) = elim (from_deletion_entry iso entry_digest e) [
    | none ↦ tombstones_of es
    | some t ↦ t ∷ tombstones_of es
  ]

  travels :
      (e : DeletionEntry) (t : TombstoneEntry)
      → from_deletion_entry iso entry_digest e ≡ some t
      → local_only e ≡ false
  unfolding from_deletion_entry
  travels e t h = elim (Bool-cases (local_only e)) [
    | inl l ↦ absurd (ground (arith, l, h))
    | inr l ↦ l
  ]

  module _ (limit : ℕ) (raw : DeletionEntry) (rest : Log) (c : Collected) where
    -- The loop over an entry that cannot travel, with the count of those skipped.
    collect-skip :
        from_deletion_entry iso entry_digest raw ≡ none
        → (skipped : ℕ) × (collect iso entry_digest limit (raw ∷ rest) c
            ≡ collect iso entry_digest limit rest
                (record c { cursor = raw.seq; skipped = skipped }))
    unfolding collect
    collect-skip h = elim (Bool-cases (local_only raw)) [
      | inl l ↦ (c.skipped, rw l refl)
      | inr l ↦ (c.skipped + 1, rw h (rw l refl))
    ]

    taken : TombstoneEntry → Collected
    taken t = record c { cursor = raw.seq; entries = c.entries ++ t ∷ [] }

    collect-take :
        (t : TombstoneEntry)
        → from_deletion_entry iso entry_digest raw ≡ some t
        → (collect iso entry_digest limit (raw ∷ rest) c ≡ taken t)
          ⊎ (collect iso entry_digest limit (raw ∷ rest) c
              ≡ collect iso entry_digest limit rest (taken t))
    unfolding collect taken
    collect-take t h = elim (Bool-cases (leb limit (length (c.entries ++ t ∷ [])))) [
      | inl k ↦ inl (rw h (rw (travels raw t h) (rw k refl)))
      | inr k ↦ inr (rw h (rw (travels raw t h) (rw k refl)))
    ]

  collect-cursor :
      (limit n : ℕ) (es : Log) (c : Collected)
      → ascending n es ≡ true
      → c.cursor ≤ n
      → c.cursor ≤ (collect iso entry_digest limit es c).cursor
  unfolding collect taken
  collect-cursor limit n [] c a le = omega arith
  collect-cursor limit n (raw ∷ rest) c a le =
      elim (Option-cases (from_deletion_entry iso entry_digest raw)) [
        | inl h ↦
            let (skipped, e) = collect-skip limit raw rest c h in
            let next = record c { cursor = raw.seq; skipped = skipped } in
            omega (
              arith,
              ap (λ x. x.cursor) e,
              le,
              upward n raw rest a,
              collect-cursor limit raw.seq rest next (onward n raw rest a) (omega arith),
            )
        | inr (t, h) ↦ elim (collect-take limit raw rest c t h) [
          | inl e ↦ omega (arith, ap (λ x. x.cursor) e, le, upward n raw rest a)
          | inr e ↦ omega (
            arith,
            ap (λ x. x.cursor) e,
            le,
            upward n raw rest a,
            collect-cursor limit raw.seq rest (taken limit raw rest c t) (onward n raw rest a)
                (omega arith),
          )
        ]
      ]

  -- What a loop has collected, and what is left above its cursor, are all of some tombstones.
  abbrev Parted : Collected → Log → List TombstoneEntry → Type 0
  Parted r es all = r.entries ++ tombstones_of (read_from r.cursor es) ≡ all

  tombstones_of-skip :
      (raw : DeletionEntry) (rest : Log)
      → from_deletion_entry iso entry_digest raw ≡ none
      → tombstones_of rest ≡ tombstones_of (raw ∷ rest)
  tombstones_of-skip raw rest h = rw (h, tombstones_of) refl

  tombstones_of-take :
      (raw : DeletionEntry) (rest : Log) (t : TombstoneEntry)
      → from_deletion_entry iso entry_digest raw ≡ some t
      → t ∷ tombstones_of rest ≡ tombstones_of (raw ∷ rest)
  tombstones_of-take raw rest t h = rw (h, tombstones_of) refl

  -- A loop that goes on from an entry parts what is after it.
  collect-Parted :
      (limit : ℕ) (raw : DeletionEntry) (rest : Log) (c : Collected) (all : List TombstoneEntry)
      → c.cursor ≡ raw.seq
      → ascending raw.seq rest ≡ true
      → Parted (collect iso entry_digest limit rest c) rest all
      → Parted (collect iso entry_digest limit rest c) (raw ∷ rest) all
  collect-Parted limit raw rest c all at a h =
      ap (λ es. (collect iso entry_digest limit rest c).entries ++ tombstones_of es)
        (leave (collect iso entry_digest limit rest c).cursor raw rest
          (omega (arith, at, collect-cursor limit raw.seq rest c a (omega (arith, at)))))
      ∙ h

  collect-partition :
      (limit n : ℕ) (es : Log) (c : Collected)
      → ascending n es ≡ true
      → Parted (collect iso entry_digest limit es c) es (c.entries ++ tombstones_of es)
  unfolding collect taken read_from
  collect-partition limit n [] c a = refl
  collect-partition limit n (raw ∷ rest) c a =
      elim (Option-cases (from_deletion_entry iso entry_digest raw)) [
        | inl h ↦
            let (skipped, e) = collect-skip limit raw rest c h in
            let next = record c { cursor = raw.seq; skipped = skipped } in
            subst (λ r. Parted r (raw ∷ rest) (c.entries ++ tombstones_of (raw ∷ rest))) (sym e)
              (collect-Parted limit raw rest next _ refl (onward n raw rest a) (
                collect-partition limit raw.seq rest next (onward n raw rest a)
                ∙ ap (λ ts. c.entries ++ ts) (tombstones_of-skip raw rest h)))
        | inr (t, h) ↦
            let next = taken limit raw rest c t in
            let joined =
              append_assoc c.entries (t ∷ []) (tombstones_of rest)
              ∙ ap (λ ts. c.entries ++ ts) (tombstones_of-take raw rest t h) in
            elim (collect-take limit raw rest c t h) [
              | inl e ↦
                  subst (λ r. Parted r (raw ∷ rest) (c.entries ++ tombstones_of (raw ∷ rest)))
                    (sym e)
                    (ap (λ es. next.entries ++ tombstones_of es)
                        (leave raw.seq raw rest (omega arith)
                          ∙ read_from-all raw.seq raw.seq rest (omega arith) (onward n raw rest a))
                      ∙ joined)
              | inr e ↦
                  subst (λ r. Parted r (raw ∷ rest) (c.entries ++ tombstones_of (raw ∷ rest)))
                    (sym e)
                    (collect-Parted limit raw rest next _ refl (onward n raw rest a)
                      (collect-partition limit raw.seq rest next (onward n raw rest a) ∙ joined))
            ]
      ]

  module _ (batch_digest : BatchPayload → String) (digest : Payload → String) (log : Log)
      (w : IsWhole digest log) where
    served-partition :
        (db : String) (since limit : ℕ)
        → (served iso entry_digest batch_digest db since limit log).0.entries
            ++ tombstones_of (
                read_from (served iso entry_digest batch_digest db since limit log).0.to_cursor log)
          ≡ tombstones_of (
              read_from (served iso entry_digest batch_digest db since limit log).0.from_cursor log)
    unfolding seal_batch
    served-partition db since limit =
        let all = read_from since log in
        let first = nothing_from since in
        let c = collect iso entry_digest limit all first in
        let order = pending-ascending digest log w since in
        ap (λ es. c.entries ++ tombstones_of es)
          (sym (
            read_from-read_from since c.cursor log
              (collect-cursor limit since all first order (omega arith))))
        ∙ collect-partition limit since all first order

    -- For a whole log, an export that is not refused puts into its batch exactly the deletions that can
    -- travel between the batch's two cursors: the batch's entries, followed by what can travel above
    -- its end, are all that can travel above its start.
    pub export_from_log-partition :
        (db : String) (since limit : ℕ) (batch : TombstoneBatch) (cursor skipped : ℕ)
        → export_from_log iso entry_digest batch_digest db since limit log
          ≡ some (batch, cursor, skipped)
        → batch.entries ++ tombstones_of (read_from batch.to_cursor log)
          ≡ tombstones_of (read_from batch.from_cursor log)
    unfolding export_from_log
    export_from_log-partition db since limit batch cursor skipped h =
        elim (Bool-cases (not (checkpoint_seq log == 0) && ltb since (checkpoint_seq log))) [
          | inl k ↦ absurd (ground (arith, k, h))
          | inr k ↦
              subst
                (λ b.
                  b.0.entries ++ tombstones_of (read_from b.0.to_cursor log)
                  ≡ tombstones_of (read_from b.0.from_cursor log))
                (some_eq
                  {x = served iso entry_digest batch_digest db (served_from since log) limit log}
                  {y = (batch, cursor, skipped)} (sym (rw (k, export_from_log) refl) ∙ h))
                (served-partition db (served_from since log) limit)
        ]
