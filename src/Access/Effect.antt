-- ===== src/Access/Effect.antt =====
-- What the calls of core/authorization.py that change a grant mean for the checks after them.
use mirror_memory.Prelude.{
  ℕ, String, true, false, Option, none, some, List, ◌≡◌, ◌≢◌, ◌↔◌, refl, ap, ◌∙◌, sym, subst,
  is_some, inl, inr, Bool-cases, all, some_eq, ◌||◌, ==_iff, arith,
}
use mirror_memory.Prelude.Text.{one_of, strip}
use mirror_memory.Access.{
  PurposeGrant, Tables, Failure, find_grant, Result, returned, raised, returned_eq,
}
use mirror_memory.Access.Authorize.{
  Scope, is_operation, expired, blank, authorize, feature_enabled, consent_of, preference_of,
}
use mirror_memory.Access.Grants.{GrantRequest, terms_of, swap_grant, swapped, grant_purpose_on}
use mirror_memory.Access.Revocation.{
  RevokeRequest, revoke_row, revoke_event, revoke_version, revoke_seen, revoke_purpose_on,
  revoke_purpose, unexpected,
}
use mirror_memory.Access.Laws.{find_grant-key, find_grant-update_grant}
use mirror_memory.Access.Permission.{admits, FeatureOn, authorize-IsPermitted}
use mirror_memory.Access.Issuing.{IsIssued, next, version_of, grant_purpose_on-IsIssued}
use mirror_memory.Access.Vocabulary.{operations_json-names, one_of-all}

module _ (r : GrantRequest) (s u : Tables) (g : PurposeGrant) where
  -- After a grant has been accepted, under whatever row its call had seen, a call of `authorize` for
  -- that user and purpose, in a tenant and outside the system scope, before the expiry asked for and
  -- with the operation's feature on, allows exactly the operations asked for.
  pub authorize-grant_purpose_on :
      (seen : Option PurposeGrant) (scope : Scope) (now : ℕ) (op : String)
      → grant_purpose_on seen r s ≡ returned (g, u)
      → scope.in_system_scope ≡ false
      → is_some scope.tenant ≡ true
      → expired now r.expires_at ≡ false
      → FeatureOn s r.user_id op
      → (admits (authorize scope now u r.user_id (some r.purpose) op) ≡ true)
        ↔ (one_of op r.operations ≡ true)
  authorize-grant_purpose_on seen scope now op h system tenant live on = (to, from)
    where
      stored : List String
      stored = (grant_purpose_on-IsIssued seen r s u g h).1

      issued : IsIssued (terms_of r stored) r.expected_version s u g
      issued = (grant_purpose_on-IsIssued seen r s u g h).3

      names :
          (all is_operation r.operations ≡ true)
          × ((op : String) → one_of op stored ≡ one_of op r.operations)
      names = operations_json-names r.operations stored (grant_purpose_on-IsIssued seen r s u g h).2

      to :
          admits (authorize scope now u r.user_id (some r.purpose) op) ≡ true
          → one_of op r.operations ≡ true
      to a =
          let p = (authorize-IsPermitted scope now u r.user_id r.purpose op).0 a in
          sym (names.1 op)
          ∙ sym (ap (one_of op) issued.operations)
          ∙ ap (λ x. one_of op x.allowed_operations) (some_eq (sym issued.found ∙ p.granted))
          ∙ p.open_grant.names_operation

      from :
          one_of op r.operations ≡ true
          → admits (authorize scope now u r.user_id (some r.purpose) op) ≡ true
      from m = (authorize-IsPermitted scope now u r.user_id r.purpose op).1 (record {
        in_vocabulary = one_of-all is_operation op r.operations names.0 m;
        outside_system = system;
        in_tenant = tenant;
        named_purpose = (grant_purpose_on-IsIssued seen r s u g h).0;
        grant = g;
        granted = issued.found;
        open_grant = record {
          not_revoked = issued.live;
          not_expired = ap (expired now) issued.expiry ∙ live;
          names_operation = ap (one_of op) issued.operations ∙ names.1 op ∙ m;
        };
        feature_on = (
          on.0,
          on.1,
          ap
                (λ c.
                  feature_enabled (consent_of r.user_id on.0 c)
                    (preference_of r.user_id u.preferences))
                issued.switches.0
              ∙ ap
                  (λ c.
                    feature_enabled (consent_of r.user_id on.0 s.consents)
                      (preference_of r.user_id c))
                  issued.switches.1
              ∙ on.2,
        );
      })

moved : (expected : Option ℕ) → some (next expected) ≢ expected
moved none e = ground (arith, e)
moved (some v) e = ground (arith, e)

module _ (s u : Tables) (g : PurposeGrant) (r q : GrantRequest) where
  -- Of two grants for the same user and purpose with the same expected version, also of two first
  -- issuances, the second one raises once the first has been accepted, whatever rows the two calls
  -- had seen.
  pub grant_purpose_on-exclusive :
      (seen late : Option PurposeGrant)
      → q.user_id ≡ r.user_id
      → q.purpose ≡ r.purpose
      → q.expected_version ≡ r.expected_version
      → grant_purpose_on seen r s ≡ returned (g, u)
      → (e : Failure) × (grant_purpose_on late q u ≡ raised e)
  grant_purpose_on-exclusive seen late user purpose version h =
      by_result (grant_purpose_on late q u) refl
    where
      by_result :
          (x : Result (PurposeGrant × Tables))
          → grant_purpose_on late q u ≡ x
          → (e : Failure) × (grant_purpose_on late q u ≡ raised e)
      by_result (raised e) eq = (e, eq)
      by_result (returned (k, w)) eq =
          let (_, _, _, first) = grant_purpose_on-IsIssued seen r s u g h in
          let (_, _, _, second) = grant_purpose_on-IsIssued late q u w k eq in
          absurd (
            moved r.expected_version (
              sym (ap some first.version)
              ∙ sym (ap version_of first.found)
              ∙ ap (λ x. version_of (find_grant x (strip r.purpose) u.grants)) (sym user)
              ∙ ap (λ x. version_of (find_grant q.user_id (strip x) u.grants)) (sym purpose)
              ∙ second.held
              ∙ version))

-- The row of the key, if there is one, is revoked.
abbrev IsRevoked : String → String → Tables → Type 0
IsRevoked user purpose s =
    (g : PurposeGrant) → find_grant user purpose s.grants ≡ some g → is_some g.revoked_at ≡ true

module _ (now : ℕ) (r : RevokeRequest) (s u : Tables) (o : Option PurposeGrant) where
  -- A revocation of the row as it stands is accepted.
  abbrev left : PurposeGrant → PurposeGrant × Tables
  left x =
      swapped r.user_id (strip r.purpose) (revoke_row now x.version) (revoke_event r x.version x) s
        x

  revoke_version-left :
      (x : PurposeGrant)
      → find_grant r.user_id (strip r.purpose) s.grants ≡ some x
      → revoke_version now x.version r s ≡ returned (some (left x).0, (left x).1)
  unfolding revoke_version swap_grant
  revoke_version-left x e = rw (e, revoke_version) (rw ((==_iff x.version x.version).1 refl) refl)

  revoke_version-IsRevoked :
      (x : PurposeGrant)
      → find_grant r.user_id (strip r.purpose) s.grants ≡ some x
      → revoke_version now x.version r s ≡ returned (o, u)
      → IsRevoked r.user_id (strip r.purpose) u
  revoke_version-IsRevoked x e h g f =
      let after = ap (λ p. p.1) (returned_eq (sym (revoke_version-left x e) ∙ h)) in
      let row =
        find_grant-update_grant r.user_id (strip r.purpose) (revoke_row now x.version) s.grants x e
          (find_grant-key r.user_id (strip r.purpose) s.grants x e) in
      let now_revoked =
        some_eq (sym row ∙ ap (λ t. find_grant r.user_id (strip r.purpose) t.grants) after ∙ f) in
      sym (ap (λ y. is_some y.revoked_at) now_revoked)

  revoke_seen-IsRevoked :
      (seen : Option PurposeGrant)
      → find_grant r.user_id (strip r.purpose) s.grants ≡ seen
      → revoke_seen now seen r s ≡ returned (o, u)
      → IsRevoked r.user_id (strip r.purpose) u
  unfolding revoke_seen
  revoke_seen-IsRevoked none e k =
      subst (IsRevoked r.user_id (strip r.purpose)) (ap (λ p. p.1) (returned_eq {x = (none, s)} k))
        (λ g f. absurd (ground (arith, e, f)))
  revoke_seen-IsRevoked (some x) e k = elim (Bool-cases (is_some x.revoked_at)) [
    | inl v ↦
        subst (IsRevoked r.user_id (strip r.purpose))
          (ap (λ p. p.1) (returned_eq {x = (some x, s)} (sym (rw (v, revoke_seen) refl) ∙ k)))
          (λ g f. ap (λ y. is_some y.revoked_at) (some_eq (sym f ∙ e)) ∙ v)
    | inr v ↦ elim (Bool-cases (unexpected r.expected_version x.version)) [
      | inl w ↦ absurd (ground (arith, v, w, k))
      | inr w ↦ revoke_version-IsRevoked x e (sym (rw (v, revoke_seen) (rw w refl)) ∙ k)
    ]
  ]

  revoke_purpose-IsRevoked :
      revoke_purpose now r s ≡ returned (o, u) → IsRevoked r.user_id (strip r.purpose) u
  unfolding revoke_purpose revoke_purpose_on
  revoke_purpose-IsRevoked h = elim (Bool-cases (blank r.actor || blank r.purpose)) [
    | inl b ↦ absurd (ground (arith, b, h))
    | inr b ↦
        revoke_seen-IsRevoked (find_grant r.user_id (strip r.purpose) s.grants) refl
          (sym (rw (b, revoke_purpose) refl) ∙ h)
  ]

-- Once `revoke_purpose` has returned, no call of `authorize` on the tables that it leaves allows an
-- operation to that user under that purpose, at any instant and in any scope.
pub authorize-revoke_purpose :
    (now : ℕ) (r : RevokeRequest) (s u : Tables) (o : Option PurposeGrant)
    → revoke_purpose now r s ≡ returned (o, u)
    → (scope : Scope) (later : ℕ) (op : String)
    → admits (authorize scope later u r.user_id (some r.purpose) op) ≡ false
authorize-revoke_purpose now r s u o h scope later op =
    elim (Bool-cases (admits (authorize scope later u r.user_id (some r.purpose) op))) [
      | inr a ↦ a
      | inl a ↦
          let p = (authorize-IsPermitted scope later u r.user_id r.purpose op).0 a in
          let gone = revoke_purpose-IsRevoked now r s u o h p.grant p.granted in
          absurd (ground (arith, gone, p.open_grant.not_revoked))
    ]
