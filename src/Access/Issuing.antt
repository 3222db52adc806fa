-- ===== src/Access/Issuing.antt =====
-- core/authorization.py, `grant_purpose`: the row that an accepted grant leaves.
use mirror_memory.Prelude.{
  ℕ, ◌+◌, String, false, Option, none, some, List, ◌≡◌, refl, ap, ◌∙◌, sym, subst, inl, inr,
  Bool-cases, Option-cases, ==_iff, ◌==◌, arith,
}
use mirror_memory.Access.{PurposeGrant, Tables, find_grant, returned, returned_eq}
use mirror_memory.Access.Authorize.{blank}
use mirror_memory.Access.Grants.{
  GrantRequest, Terms, issued, swapped, reissue_event, first_grant, regrant, terms_of,
  operations_json, issue, reissue, swap_grant, grant_seen, grant_purpose_on,
}
use mirror_memory.Access.Laws.{
  find_grant-key, find_grant-snoc, find_grant-update_grant, same_key_refl,
}

-- The version that an accepted grant gets.
abbrev pub next : Option ℕ → ℕ
next none = 1
next (some v) = v + 1

-- The version of the row of a key, if it has one.
abbrev pub version_of : Option PurposeGrant → Option ℕ
version_of none = none
version_of (some g) = some g.version

-- What an accepted grant has found and what it leaves.
pub record IsIssued (t : Terms) (expected : Option ℕ) (s u : Tables) (g : PurposeGrant)
    : Type 0 where
  pub held : version_of (find_grant t.user_id t.purpose s.grants) ≡ expected
  pub found : find_grant t.user_id t.purpose u.grants ≡ some g
  pub version : g.version ≡ next expected
  pub operations : g.allowed_operations ≡ t.operations
  pub expiry : g.expires_at ≡ t.expires_at
  pub live : g.revoked_at ≡ none
  pub switches : (u.consents ≡ s.consents) × (u.preferences ≡ s.preferences)

-- The same of the pair that the call returns.
abbrev Issued : Terms → Option ℕ → Tables → PurposeGrant × Tables → Type 0
Issued t expected s x = IsIssued t expected s x.1 x.0

module _ (t : Terms) (s u : Tables) (g : PurposeGrant) where
  issue-IsIssued : issue t s ≡ returned (g, u) → IsIssued t none s u g
  unfolding issue
  issue-IsIssued h = elim (Option-cases (find_grant t.user_id t.purpose s.grants)) [
    | inr (x, e) ↦ absurd (ground (arith, e, h))
    | inl e ↦
        let new = first_grant t in
        subst (Issued t none s) (returned_eq {x = issued t s} (sym (rw (e, issue) refl) ∙ h))
          (record {
            held = rw e refl;
            found =
                rw (find_grant-snoc t.user_id t.purpose s.grants new)
                  (rw e (rw (same_key_refl new) refl));
            version = refl;
            operations = refl;
            expiry = refl;
            live = refl;
            switches = (refl, refl);
          })
  ]

  reissue-IsIssued : (v : ℕ) → reissue t v s ≡ returned (g, u) → IsIssued t (some v) s u g
  unfolding reissue swap_grant
  reissue-IsIssued v h = elim (Option-cases (find_grant t.user_id t.purpose s.grants)) [
    | inl e ↦ absurd (ground (arith, e, h))
    | inr (x, e) ↦ elim (Bool-cases (x.version == v)) [
      | inr k ↦ absurd (ground (arith, e, k, h))
      | inl k ↦
          subst (Issued t (some v) s)
            (returned_eq {x = swapped t.user_id t.purpose (regrant t) (reissue_event t v x) s x}
              (sym (rw (e, reissue, swap_grant) (rw k refl)) ∙ h))
            (record {
              held = rw e (ap some ((==_iff x.version v).0 k));
              found =
                  find_grant-update_grant t.user_id t.purpose (regrant t) s.grants x e
                    (find_grant-key t.user_id t.purpose s.grants x e);
              version = omega (arith, (==_iff x.version v).0 k);
              operations = refl;
              expiry = refl;
              live = refl;
              switches = (refl, refl);
            })
    ]
  ]

  grant_seen-IsIssued :
      (seen : Option PurposeGrant) (expected : Option ℕ)
      → grant_seen seen expected t s ≡ returned (g, u)
      → IsIssued t expected s u g
  unfolding grant_seen
  grant_seen-IsIssued none none h = issue-IsIssued h
  grant_seen-IsIssued none (some v) h = absurd (ground (arith, h))
  grant_seen-IsIssued (some x) none h = absurd (ground (arith, h))
  grant_seen-IsIssued (some x) (some v) h = reissue-IsIssued v h

module _ (seen : Option PurposeGrant) (r : GrantRequest) (s u : Tables) (g : PurposeGrant) where
  -- A grant that is accepted has passed the checks of its arguments.
  pub grant_purpose_on-IsIssued :
      grant_purpose_on seen r s ≡ returned (g, u)
      → (blank r.purpose ≡ false)
        × (ops : List String) × (operations_json r.operations ≡ some ops)
        × IsIssued (terms_of r ops) r.expected_version s u g
  unfolding grant_purpose_on
  grant_purpose_on-IsIssued h = elim (Bool-cases (blank r.purpose)) [
    | inl b ↦ absurd (ground (arith, b, h))
    | inr b ↦ elim (Bool-cases (blank r.user_id)) [
      | inl c ↦ absurd (ground (arith, b, c, h))
      | inr c ↦ elim (Option-cases (operations_json r.operations)) [
        | inl o ↦ absurd (ground (arith, b, c, o, h))
        | inr (ops, o) ↦ elim (Bool-cases (blank r.issuer)) [
          | inl i ↦ absurd (ground (arith, b, c, o, i, h))
          | inr i ↦ (
            b,
            ops,
            o,
            grant_seen-IsIssued (terms_of r ops) s u g seen r.expected_version
                (sym (rw (b, grant_purpose_on) (rw c (rw o (rw i refl)))) ∙ h),
          )
        ]
      ]
    ]
  ]
