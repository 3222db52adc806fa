-- ===== src/Deletion/Accepted.antt =====
-- core/tombstones.py, `validate_batch`: what a batch that passes is.
use mirror_memory.Prelude.{
  ◌≤◌, String, Bool, true, false, none, List, [], ◌∷◌, ◌≡◌, refl, ap, ◌∙◌, sym, ◌&&◌, ltb, any, All,
  In, here, there, inl, inr, Bool-cases, Option-cases, arith,
}
use mirror_memory.Prelude.Text.{str_eq, eq_iff}
use mirror_memory.Deletion.Tombstones.{
  TombstonePayload, TombstoneEntry, BatchPayload, TombstoneBatch, batch_payload, is_hex,
  same_deletion, validate_entry_format, validate_entries, validate_batch,
}

module _ (is_iso : String → Bool) (entry_digest : TombstonePayload → String)
    (expected : String × String) where
  -- One entry: well formed, with the hash of its payload, of the receiver's tenant.
  pub record IsSound (e : TombstoneEntry) : Type 0 where
    pub formed : validate_entry_format is_iso e ≡ none
    pub hashed : entry_digest e.payload ≡ e.hash
    pub own_tenant : e.payload.tenant_id ≡ expected.0
    pub own_app : e.payload.app_id ≡ expected.1

  -- No deletion stands twice in a list.
  abbrev pub Apart : List TombstoneEntry → Type 0
  Apart [] = Unit
  Apart (e ∷ es) = All (λ d. same_deletion d e ≡ false) es × Apart es

  -- One turn of the loop.
  record Passed (e : TombstoneEntry) (seen es : List TombstoneEntry) : Type 0 where
    sound : IsSound e
    new : any (same_deletion e) seen ≡ false
    others : validate_entries is_iso entry_digest expected (e ∷ seen) es ≡ none

  passed :
      (e : TombstoneEntry) (seen es : List TombstoneEntry)
      → validate_entries is_iso entry_digest expected seen (e ∷ es) ≡ none
      → Passed e seen es
  unfolding validate_entries
  passed e seen es h = elim (Option-cases (validate_entry_format is_iso e)) [
    | inr (r, f) ↦ absurd (ground (arith, f, h))
    | inl f ↦ elim (Bool-cases (str_eq (entry_digest e.payload) e.hash)) [
      | inr k ↦ absurd (ground (arith, f, k, h))
      | inl k ↦ elim (Bool-cases (str_eq e.payload.tenant_id expected.0)) [
        | inr t ↦ absurd (ground (arith, f, k, t, h))
        | inl t ↦ elim (Bool-cases (str_eq e.payload.app_id expected.1)) [
          | inr a ↦ absurd (ground (arith, f, k, t, a, h))
          | inl a ↦ elim (Bool-cases (any (same_deletion e) seen)) [
            | inl n ↦ absurd (ground (arith, f, k, t, a, n, h))
            | inr n ↦ record {
              sound = record {
                formed = f;
                hashed = (eq_iff (entry_digest e.payload) e.hash).0 k;
                own_tenant = (eq_iff e.payload.tenant_id expected.0).0 t;
                own_app = (eq_iff e.payload.app_id expected.1).0 a;
              };
              new = n;
              others = ground (arith, f, k, t, a, n, h);
            }
          ]
        ]
      ]
    ]
  ]

  any-none :
      (p : TombstoneEntry → Bool) (x : TombstoneEntry) (xs : List TombstoneEntry)
      → In x xs
      → any p xs ≡ false
      → p x ≡ false
  any-none p x [] i h = elim i [ ]
  any-none p x (y ∷ ys) (here e) h = ground (arith, h, ap p e)
  any-none p x (y ∷ ys) (there i) h = any-none p x ys i (ground (arith, h))

  differs :
      (seen es : List TombstoneEntry) (x : TombstoneEntry)
      → In x seen
      → validate_entries is_iso entry_digest expected seen es ≡ none
      → All (λ d. same_deletion d x ≡ false) es
  differs seen [] x i h = tt
  differs seen (e ∷ es) x i h =
      let step = passed e seen es h in
      (any-none (same_deletion e) x seen i step.new, differs (e ∷ seen) es x (there i) step.others)

  entries-IsSound :
      (seen es : List TombstoneEntry)
      → validate_entries is_iso entry_digest expected seen es ≡ none
      → All IsSound es × Apart es
  entries-IsSound seen [] h = (tt, tt)
  entries-IsSound seen (e ∷ es) h =
      let step = passed e seen es h in
      let rest = entries-IsSound (e ∷ seen) es step.others in
      ((step.sound, rest.0), (differs (e ∷ seen) es e (here refl) step.others, rest.1))

  module _ (batch_digest : BatchPayload → String) where
    pub record IsAccepted (b : TombstoneBatch) : Type 0 where
      pub sender : is_hex 32 b.sender ≡ true
      pub cursors : b.from_cursor ≤ b.to_cursor
      pub hashed : batch_digest (batch_payload b) ≡ b.hash
      pub sound : All IsSound b.entries
      pub apart : Apart b.entries

    -- A batch that `validate_batch` does not reject names its sender by 32 hexadecimal digits, has its
    -- cursors in order and the hash of its envelope, and holds only entries that are well formed, have
    -- the hash of their payload and are of the receiver's tenant, no deletion twice.
    pub validate_batch-IsAccepted :
        (b : TombstoneBatch)
        → validate_batch is_iso entry_digest batch_digest expected b ≡ none
        → IsAccepted b
    unfolding validate_batch
    validate_batch-IsAccepted b h = elim (Bool-cases (is_hex 32 b.sender)) [
      | inr s ↦ absurd (ground (arith, s, h))
      | inl s ↦ elim (Bool-cases (ltb b.to_cursor b.from_cursor)) [
        | inl c ↦ absurd (ground (arith, s, c, h))
        | inr c ↦ elim (Bool-cases (is_hex 64 b.from_chain_hash && is_hex 64 b.to_chain_hash)) [
          | inr x ↦ absurd (ground (arith, s, c, x, h))
          | inl x ↦ elim (Bool-cases (str_eq (batch_digest (batch_payload b)) b.hash)) [
            | inr k ↦ absurd (ground (arith, s, c, x, k, h))
            | inl k ↦
                let inner =
                  entries-IsSound [] b.entries
                    (sym (rw (s, validate_batch) (rw c (rw x (rw k refl)))) ∙ h) in
                record {
                  sender = s;
                  cursors = ground (arith, c);
                  hashed = (eq_iff (batch_digest (batch_payload b)) b.hash).0 k;
                  sound = inner.0;
                  apart = inner.1;
                }
          ]
        ]
      ]
    ]
