-- ===== src/Deletion/Redelivered.antt =====
-- api.py, `apply_tombstones`: what a batch records, and a batch that is delivered again.
use mirror_memory.Prelude.{
  ℕ, ◌+◌, String, Bool, true, false, Option, some, List, [], ◌∷◌, ◌++◌, ◌||◌, ◌≡◌, refl, sym, ap,
  subst, ◌∙◌, inl, inr, any, length, All, some_eq, Bool-cases, Option-cases, arith,
}
use mathlib.Core.List.{append-nil}
use mirror_memory.Prelude.Text.{str_eq, eq_iff, eq_refl}
use mirror_memory.Deletion.{Log}
use mirror_memory.Deletion.Tombstones.{
  TombstonePayload, TombstoneEntry, TombstoneBatch, BatchPayload, validate_batch,
}
use mirror_memory.Deletion.Receive.{
  TombstoneApplied, Residents, Receiver, Applying, ApplyOutcome, rejected, committed,
  TombstoneApplyResult, is_record_of, is_applied, same_key, applied_row, with_row, skip, see,
  nothing_applied, is_echo, apply_one, apply_entries, apply_valid, recorded, same_tenant,
  apply_tombstones, is_rescan, all_known, read_sync_peer,
}

is_applied-append :
    (e : TombstoneEntry) (xs ys : List TombstoneApplied)
    → is_applied e (xs ++ ys) ≡ (is_applied e xs || is_applied e ys)
is_applied-append e [] ys = refl
is_applied-append e (x ∷ xs) ys = ground (arith, is_applied-append e xs ys)

is_record_of-applied_row :
    (e : TombstoneEntry) (o : Option ℕ) → is_record_of e (applied_row e o) ≡ true
is_record_of-applied_row e o =
    ground (arith, eq_refl e.payload.origin, eq_refl e.payload.origin_hash)

-- Entries with one key have the same records.
is_applied-same_key :
    (e d : TombstoneEntry) (rows : List TombstoneApplied)
    → same_key e d ≡ true
    → is_applied d rows ≡ true
    → is_applied e rows ≡ true
is_applied-same_key e d [] k a = a
is_applied-same_key e d (r ∷ rows) k a = elim (Bool-cases (is_record_of d r)) [
  | inr n ↦ ground (arith, is_applied-same_key e d rows k (ground (arith, n, a)))
  | inl y ↦ ground (
    arith,
    y,
    k,
    eq_iff d.payload.origin e.payload.origin,
    eq_iff d.payload.origin_hash e.payload.origin_hash,
  )
]

module _ {Home : Type 0} (delete_scope : TombstoneEntry → Home → Option (Option ℕ × Home))
    (residents : Home → Residents) (log_of : Home → Option Log) (db : String)
    (existing : List TombstoneApplied) where
  -- A deletion of another device has a record.
  abbrev Recorded : List TombstoneApplied → TombstoneEntry → Type 0
  Recorded rows e = str_eq e.payload.origin db ≡ false → is_applied e rows ≡ true

  seen-Recorded :
      (e : TombstoneEntry) (seen : List TombstoneEntry) (rows : List TombstoneApplied)
      → All (Recorded rows) seen
      → any (same_key e) seen ≡ true
      → Recorded rows e
  seen-Recorded e [] rows a k foreign = absurd (ground (arith, k))
  seen-Recorded e (d ∷ seen) rows (c, cs) k foreign = elim (Bool-cases (same_key e d)) [
    | inl y ↦
        is_applied-same_key e d rows y
          (c (ground (arith, y, foreign, eq_iff d.payload.origin e.payload.origin)))
    | inr n ↦ seen-Recorded e seen rows cs (ground (arith, n, k)) foreign
  ]

  -- What a round has recorded: no less than before, the entries seen, and its own entry.
  abbrev After : TombstoneEntry → Applying Home → Applying Home → Type 0
  After e s t =
      ((d : TombstoneEntry) → is_applied d s.rows ≡ true → is_applied d t.rows ≡ true)
      × All (Recorded t.rows) t.seen
      × Recorded (existing ++ t.rows) e

  seen-grown :
      (xs ys : List TombstoneApplied) (seen : List TombstoneEntry)
      → ((d : TombstoneEntry) → is_applied d xs ≡ true → is_applied d ys ≡ true)
      → All (Recorded xs) seen
      → All (Recorded ys) seen
  seen-grown xs ys [] g a = tt
  seen-grown xs ys (d ∷ seen) g (c, cs) = (λ f. g d (c f), seen-grown xs ys seen g cs)

  skip-After :
      (e : TombstoneEntry) (s : Applying Home)
      → (is_applied e existing || any (same_key e) s.seen) ≡ true
      → All (Recorded s.rows) s.seen
      → After e s (skip s)
  skip-After e s k a = (
    λ d p. p,
    a,
    λ foreign. elim (Bool-cases (is_applied e existing)) [
      | inl y ↦ rw (is_applied-append e existing s.rows) (rw y refl)
      | inr n ↦
          let y = seen-Recorded e s.seen s.rows a (ground (arith, n, k)) foreign in
          rw (is_applied-append e existing s.rows) (ground (arith, y))
    ],
  )

  row-After :
      (e : TombstoneEntry) (s : Applying Home) (local_seq : Option ℕ) (home : Home)
      → All (Recorded s.rows) s.seen
      → After e s (with_row e s local_seq home)
  row-After e s local_seq home a =
      let rows = s.rows ++ applied_row e local_seq ∷ [] in
      let own : is_applied e rows ≡ true = ground (
        arith,
        is_applied-append e s.rows (applied_row e local_seq ∷ []),
        is_record_of-applied_row e local_seq,
      ) in
      let grows : (d : TombstoneEntry) → is_applied d s.rows ≡ true → is_applied d rows ≡ true =
        λ d p. ground (arith, p, is_applied-append d s.rows (applied_row e local_seq ∷ [])) in
      (
        grows,
        (λ f. own, seen-grown s.rows rows s.seen grows a),
        λ f. ground (arith, own, is_applied-append e existing rows),
      )

  apply_one-After :
      (e : TombstoneEntry) (s t : Applying Home)
      → apply_one delete_scope residents log_of db existing e s ≡ some t
      → All (Recorded s.rows) s.seen
      → After e s t
  unfolding apply_one
  apply_one-After e s t h a = elim (Bool-cases (is_applied e existing || any (same_key e) s.seen)) [
    | inl k ↦
        let left : some (skip s) ≡ some t = sym (rw (k, apply_one) refl) ∙ h in
        subst (After e s) (some_eq {x = skip s} {y = t} left) (skip-After e s k a)
    | inr k ↦ elim (Bool-cases (is_echo delete_scope residents log_of db s.home e)) [
      | inl o ↦
          let left : some (skip (see e s)) ≡ some t = sym (rw (k, apply_one) (rw o refl)) ∙ h in
          subst (After e s) (some_eq {x = skip (see e s)} {y = t} left)
            (λ d p. p, (λ f. absurd (ground (arith, o, f)), a), λ f. absurd (ground (arith, o, f)))
      | inr o ↦ elim (Option-cases (delete_scope e s.home)) [
        | inl d ↦ absurd (ground (arith, k, o, d, h))
        | inr ((local_seq, home), d) ↦
            let left : some (with_row e s local_seq home) ≡ some t =
              sym (rw (k, apply_one) (rw o (rw d refl))) ∙ h in
            subst (After e s) (some_eq {x = with_row e s local_seq home} {y = t} left)
              (row-After e s local_seq home a)
      ]
    ]
  ]

  kept_own :
      (e : TombstoneEntry) (u t : Applying Home)
      → is_applied e (existing ++ u.rows) ≡ true
      → (is_applied e u.rows ≡ true → is_applied e t.rows ≡ true)
      → is_applied e (existing ++ t.rows) ≡ true
  kept_own e u t own later = elim (Bool-cases (is_applied e u.rows)) [
    | inl p ↦ ground (arith, later p, is_applied-append e existing t.rows)
    | inr n ↦
        ground
          (arith, own, n, is_applied-append e existing u.rows, is_applied-append e existing t.rows)
  ]

  -- The whole loop.
  apply_entries-Recorded :
      (es : List TombstoneEntry) (s t : Applying Home)
      → apply_entries delete_scope residents log_of db existing es s ≡ some t
      → All (Recorded s.rows) s.seen
      → ((d : TombstoneEntry) → is_applied d s.rows ≡ true → is_applied d t.rows ≡ true)
        × All (Recorded (existing ++ t.rows)) es
  unfolding apply_entries
  apply_entries-Recorded [] s t h a = (
    subst
        (λ (u : Applying Home).
          (d : TombstoneEntry) → is_applied d s.rows ≡ true → is_applied d u.rows ≡ true)
        (some_eq {x = s} {y = t} h) (λ d p. p),
    tt,
  )
  apply_entries-Recorded (e ∷ es) s t h a =
      elim (Option-cases (apply_one delete_scope residents log_of db existing e s)) [
        | inl k ↦ absurd (ground (arith, k, h))
        | inr (u, k) ↦
            let (grows, seen, own) = apply_one-After e s u k a in
            let (later, rest) =
              apply_entries-Recorded es u t (sym (rw (k, apply_entries) refl) ∙ h) seen in
            (λ d p. later d (grows d p), (λ f. kept_own e u t (own f) (later e), rest))
      ]

  all-applied :
      (es : List TombstoneEntry) (rows : List TombstoneApplied)
      → All (λ e. str_eq e.payload.origin db ≡ false) es
      → All (Recorded rows) es
      → All (λ e. is_applied e rows ≡ true) es
  all-applied [] rows f a = tt
  all-applied (e ∷ es) rows (f, fs) (c, cs) = (c f, all-applied es rows fs cs)

  -- A delivery of what is recorded already.
  apply_entries-again :
      (es : List TombstoneEntry) (s : Applying Home)
      → All (λ e. is_applied e existing ≡ true) es
      → apply_entries delete_scope residents log_of db existing es s
        ≡ some (record s { skipped = s.skipped + length es })
  unfolding apply_entries apply_one
  apply_entries-again [] s a = ap (λ n. some (record s { skipped = n })) (ground arith)
  apply_entries-again (e ∷ es) s (c, cs) =
      rw (c, apply_entries, apply_one)
        (apply_entries-again es (skip s) cs
          ∙ ap (λ n. some (record s { skipped = n })) (ground arith))

module _ {Home : Type 0} (delete_scope : TombstoneEntry → Home → Option (Option ℕ × Home))
    (residents : Home → Residents) (log_of : Home → Option Log) (is_iso : String → Bool)
    (entry_digest : TombstonePayload → String) (batch_digest : BatchPayload → String) where
  abbrev apply : Option (String × String) → TombstoneBatch → Receiver Home → ApplyOutcome Home
  apply auth b r =
      apply_tombstones delete_scope residents log_of is_iso entry_digest batch_digest auth b r

  abbrev loop : TombstoneBatch → Receiver Home → Option (Applying Home)
  loop b r =
      apply_entries delete_scope residents log_of r.db_id r.applied b.entries
        (nothing_applied r.home)

  -- A call that is committed has run the loop.
  abbrev Ran : TombstoneBatch → Receiver Home → ApplyOutcome Home → Type 0
  Ran b r (rejected why) = Unit
  Ran b r (committed res t) =
      (s : Applying Home) × (loop b r ≡ some s)
      × (t.applied ≡ r.applied ++ s.rows)
      × (t.home ≡ s.home)
      × (t.db_id ≡ r.db_id)
      × (res.skipped ≡ s.skipped)

  apply_valid-Ran :
      (b : TombstoneBatch) (rescan : Bool) (r : Receiver Home)
      → Ran b r (apply_valid delete_scope residents log_of b rescan r)
  unfolding apply_valid
  apply_valid-Ran b rescan r = elim (Option-cases (loop b r)) [
    | inl e ↦ rw (e, apply_valid) tt
    | inr (s, e) ↦
        let committed_eq : apply_valid delete_scope residents log_of b rescan r
            ≡ recorded delete_scope residents log_of b rescan r s =
          rw (e, apply_valid) refl in
        subst (Ran b r) (sym committed_eq) (s, e, refl, refl, refl, refl)
  ]

  apply-Ran :
      (auth : Option (String × String)) (b : TombstoneBatch) (r : Receiver Home)
      → Ran b r (apply auth b r)
  unfolding apply_tombstones
  apply-Ran auth b r = elim (Bool-cases (same_tenant auth r.tenant)) [
    | inr n ↦ rw (n, apply_tombstones) tt
    | inl y ↦ elim (Option-cases (validate_batch is_iso entry_digest batch_digest r.tenant b)) [
      | inr (why, e) ↦ rw (y, apply_tombstones) (rw e tt)
      | inl e ↦ elim (Bool-cases (all_known delete_scope residents log_of r b)) [
        | inr k ↦ rw (y, apply_tombstones) (rw e (rw k tt))
        | inl k ↦
            rw (y, apply_tombstones)
              (rw e (rw k (apply_valid-Ran b (is_rescan b (read_sync_peer b.sender r.peers)) r)))
      ]
    ]
  ]

-- After a batch has been applied, a batch with the same entries, whatever its sender and its cursors,
-- deletes nothing and records nothing where it is accepted, and all its entries count as skipped;
-- this for entries that come from other devices.
pub apply_tombstones-redelivered :
    {Home : Type 0} (delete_scope : TombstoneEntry → Home → Option (Option ℕ × Home))
    (residents : Home → Residents) (log_of : Home → Option Log) (is_iso : String → Bool)
    (entry_digest : TombstonePayload → String) (batch_digest : BatchPayload → String)
    (auth again : Option (String × String)) (b c : TombstoneBatch) (r s t : Receiver Home)
    (first second : TombstoneApplyResult)
    → apply_tombstones delete_scope residents log_of is_iso entry_digest batch_digest auth b r
      ≡ committed first s
    → All (λ e. str_eq e.payload.origin r.db_id ≡ false) b.entries
    → c.entries ≡ b.entries
    → apply_tombstones delete_scope residents log_of is_iso entry_digest batch_digest again c s
      ≡ committed second t
    → (t.home ≡ s.home) × (t.applied ≡ s.applied) × (second.skipped ≡ length b.entries)
apply_tombstones-redelivered {Home} delete_scope residents log_of is_iso entry_digest batch_digest
      auth again b c r s t first second h foreign same g =
    let (u, run, kept, home, db, skipped) =
      subst (Ran delete_scope residents log_of is_iso entry_digest batch_digest b r) h
        (apply-Ran delete_scope residents log_of is_iso entry_digest batch_digest auth b r) in
    let records =
      (apply_entries-Recorded delete_scope residents log_of r.db_id r.applied b.entries
        (nothing_applied r.home) u run tt).1 in
    let present =
      all-applied delete_scope residents log_of r.db_id r.applied b.entries (r.applied ++ u.rows)
        foreign records in
    let (v, rerun, kept_again, home_again, db_again, skipped_again) =
      subst (Ran delete_scope residents log_of is_iso entry_digest batch_digest c s) g
        (apply-Ran delete_scope residents log_of is_iso entry_digest batch_digest again c s) in
    let skips =
      apply_entries-again delete_scope residents log_of s.db_id s.applied b.entries
        (nothing_applied s.home)
        (subst (λ (rows : List TombstoneApplied). All (λ e. is_applied e rows ≡ true) b.entries)
          (sym kept) present) in
    let left : some (record (nothing_applied s.home) { skipped = 0 + length b.entries }) ≡ some v =
      sym skips
      ∙ subst
          (λ (es : List TombstoneEntry).
            apply_entries delete_scope residents log_of s.db_id s.applied es
              (nothing_applied s.home)
            ≡ some v)
          same rerun in
    let end =
      some_eq {x = record (nothing_applied s.home) { skipped = 0 + length b.entries }} {y = v}
        left in
    (
      home_again ∙ sym (ap (λ w. w.home) end),
      kept_again ∙ sym (ap (λ w. s.applied ++ w.rows) end) ∙ append-nil s.applied,
      skipped_again ∙ sym (ap (λ w. w.skipped) end) ∙ ground arith,
    )
