-- ===== src/Access/Permission.antt =====
-- What `authorize` admits.
use mirror_memory.Prelude.{
  ℕ, String, Bool, true, false, Option, none, some, ◌≡◌, ◌↔◌, is_some, inl, inr, Bool-cases,
  Option-cases, arith,
}
use mirror_memory.Prelude.Text.{one_of, strip}
use mirror_memory.Access.{PurposeGrant, Tables, find_grant, Result, returned, raised}
use mirror_memory.Access.Authorize.{
  Decision, Scope, is_operation, feature_of, expired, feature_enabled, consent_of, preference_of,
  decide_row, load_decision_row, blank, authorize_purpose, authorize,
}

-- The call returns a decision that admits.
abbrev pub admits : Result Decision → Bool
admits (returned d) = d.allowed
admits (raised e) = false

-- What a grant has to satisfy for an operation at an instant.
pub record IsOpen (now : ℕ) (op : String) (g : PurposeGrant) : Type 0 where
  pub not_revoked : g.revoked_at ≡ none
  pub not_expired : expired now g.expires_at ≡ false
  pub names_operation : one_of op g.allowed_operations ≡ true

-- The switch of the operation's feature is on for the user, or else the user's preference, or else
-- neither is recorded.
abbrev pub FeatureOn : Tables → String → String → Type 0
FeatureOn s user op =
    (feature : String) × (feature_of op ≡ some feature)
    × (feature_enabled (consent_of user feature s.consents) (preference_of user s.preferences)
        ≡ true)

pub record IsPermitted (scope : Scope) (now : ℕ) (s : Tables) (user purpose op : String)
    : Type 0 where
  pub in_vocabulary : is_operation op ≡ true
  pub outside_system : scope.in_system_scope ≡ false
  pub in_tenant : is_some scope.tenant ≡ true
  pub named_purpose : blank purpose ≡ false
  pub grant : PurposeGrant
  pub granted : find_grant user (strip purpose) s.grants ≡ some grant
  pub open_grant : IsOpen now op grant
  pub feature_on : FeatureOn s user op

module _ (now : ℕ) (s : Tables) (user purpose op : String) where
  grant-decide_row :
      (feature : String)
      → (decide_row now purpose op (load_decision_row s user purpose feature)).allowed ≡ true
      → (g : PurposeGrant) × (find_grant user purpose s.grants ≡ some g)
        × IsOpen now op g
        × (feature_enabled (consent_of user feature s.consents) (preference_of user s.preferences)
            ≡ true)
  unfolding decide_row load_decision_row
  grant-decide_row feature h = elim (Option-cases (find_grant user purpose s.grants)) [
    | inl e ↦ absurd (ground (arith, e, h))
    | inr (g, e) ↦ (
      g,
      e,
      record {
        not_revoked = ground (arith, e, h);
        not_expired = ground (arith, e, h);
        names_operation = ground (arith, e, h);
      },
      ground (arith, e, h),
    )
  ]

  decide_row-grant :
      (feature : String) (g : PurposeGrant)
      → find_grant user purpose s.grants ≡ some g
      → IsOpen now op g
      → feature_enabled (consent_of user feature s.consents) (preference_of user s.preferences)
        ≡ true
      → (decide_row now purpose op (load_decision_row s user purpose feature)).allowed ≡ true
  unfolding decide_row load_decision_row
  decide_row-grant feature g e o f =
      ground (arith, e, o.not_revoked, o.not_expired, o.names_operation, f)

module _ (now : ℕ) (s : Tables) (user purpose op : String) where
  -- The part of the check after the ambient context.
  abbrev AdmitsPurpose : Type 0
  AdmitsPurpose =
      (blank purpose ≡ false)
      × (feature : String) × (feature_of op ≡ some feature)
      × ((decide_row now (strip purpose) op
            (load_decision_row s user (strip purpose) feature)).allowed
          ≡ true)

  admits-authorize_purpose :
      (admits (authorize_purpose now s user (some purpose) op) ≡ true) ↔ AdmitsPurpose
  unfolding authorize_purpose
  admits-authorize_purpose = (to, from)
    where
      to : admits (authorize_purpose now s user (some purpose) op) ≡ true → AdmitsPurpose
      to h = elim (Bool-cases (blank purpose)) [
        | inl b ↦ absurd (ground (arith, b, h))
        | inr b ↦ elim (Option-cases (feature_of op)) [
          | inl e ↦ absurd (ground (arith, b, e, h))
          | inr (feature, e) ↦ (b, feature, e, ground (arith, b, e, h))
        ]
      ]

      from : AdmitsPurpose → admits (authorize_purpose now s user (some purpose) op) ≡ true
      from (b, feature, e, d) = rw b (rw e d)

module _ (scope : Scope) (now : ℕ) (s : Tables) (user : String) (o : Option String)
    (op : String) where
  admits-authorize : (admits (authorize scope now s user o op) ≡ true) ↔ (
      (is_operation op ≡ true)
      × (scope.in_system_scope ≡ false)
      × (is_some scope.tenant ≡ true)
      × (admits (authorize_purpose now s user o op) ≡ true))
  unfolding authorize
  admits-authorize = (to, from)
    where
      to :
          admits (authorize scope now s user o op) ≡ true
          → ((is_operation op ≡ true)
              × (scope.in_system_scope ≡ false)
              × (is_some scope.tenant ≡ true)
              × (admits (authorize_purpose now s user o op) ≡ true))
      to h = elim (Bool-cases (is_operation op)) [
        | inr v ↦ absurd (ground (arith, v, h))
        | inl v ↦ elim (Bool-cases scope.in_system_scope) [
          | inl n ↦ absurd (ground (arith, v, n, h))
          | inr n ↦ elim (Option-cases scope.tenant) [
            | inl e ↦ absurd (ground (arith, v, n, e, h))
            | inr (k, e) ↦ (v, n, ground (arith, e), ground (arith, v, n, e, h))
          ]
        ]
      ]

      from :
          ((is_operation op ≡ true)
            × (scope.in_system_scope ≡ false)
            × (is_some scope.tenant ≡ true)
            × (admits (authorize_purpose now s user o op) ≡ true))
          → admits (authorize scope now s user o op) ≡ true
      from (v, n, t, a) = elim (Option-cases scope.tenant) [
        | inl e ↦ absurd (ground (arith, e, t))
        | inr (k, e) ↦ rw v (rw n (rw e a))
      ]

-- `authorize` returns a decision that allows exactly when the operation is of the vocabulary, the
-- call is outside the system scope and inside a tenant, the purpose is not blank, the user has a
-- grant for the stripped purpose that is not revoked, has not expired and names the operation, and
-- the feature of the operation is on.
pub authorize-IsPermitted :
    (scope : Scope) (now : ℕ) (s : Tables) (user purpose op : String)
    → (admits (authorize scope now s user (some purpose) op) ≡ true)
      ↔ IsPermitted scope now s user purpose op
authorize-IsPermitted scope now s user purpose op = (to, from)
  where
    outer : (admits (authorize scope now s user (some purpose) op) ≡ true) ↔ (
        (is_operation op ≡ true)
        × (scope.in_system_scope ≡ false)
        × (is_some scope.tenant ≡ true)
        × (admits (authorize_purpose now s user (some purpose) op) ≡ true))
    outer = admits-authorize scope now s user (some purpose) op

    inner :
        (admits (authorize_purpose now s user (some purpose) op) ≡ true)
        ↔ AdmitsPurpose now s user purpose op
    inner = admits-authorize_purpose now s user purpose op

    to :
        admits (authorize scope now s user (some purpose) op) ≡ true
        → IsPermitted scope now s user purpose op
    to h =
        let (v, n, t, a) = outer.0 h in
        let (b, feature, e, d) = inner.0 a in
        let (g, f, o, on) = grant-decide_row now s user (strip purpose) op feature d in
        record {
          in_vocabulary = v;
          outside_system = n;
          in_tenant = t;
          named_purpose = b;
          grant = g;
          granted = f;
          open_grant = o;
          feature_on = (feature, e, on);
        }

    from :
        IsPermitted scope now s user purpose op
        → admits (authorize scope now s user (some purpose) op) ≡ true
    from p =
        let (feature, e, on) = p.feature_on in
        let d =
          decide_row-grant now s user (strip purpose) op feature p.grant p.granted p.open_grant
            on in
        outer.1
          (p.in_vocabulary, p.outside_system, p.in_tenant, inner.1 (p.named_purpose, feature, e, d))
