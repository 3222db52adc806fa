-- ===== src/Access/Authorize.antt =====
-- core/authorization.py, `authorize`: the check before every operation. What the ambient context
-- holds is an argument, and so is the present instant.
use mirror_memory.Prelude.{
  ℕ, String, Bool, true, false, Option, none, some, List, [], ◌∷◌, leb, is_some, if◌then◌else◌,
}
use mirror_memory.Prelude.Text.{str_eq, one_of, strip}
use mirror_memory.Prelude.Dict.{Dict, get}
use mirror_memory.Core.Rows.{MemoryPreference}
use mirror_memory.Access.{
  PurposeGrant, ConsentGrant, Tables, find_grant, Result, returned, raised, unknown_operation,
  runtime_error, tenant_context_missing, key_error, purpose_denied,
}

abbrev pub operations : List String
operations = "observe" ∷ "recall" ∷ "correct" ∷ "forget" ∷ "export" ∷ "explain" ∷ "extract" ∷ []

abbrev pub operation_feature : Dict String
operation_feature =
    ("observe", "extraction")
    ∷ ("extract", "extraction")
    ∷ ("recall", "recall")
    ∷ ("correct", "correct")
    ∷ ("forget", "forget")
    ∷ ("export", "export")
    ∷ ("explain", "explain")
    ∷ []

-- `operation in OPERATIONS` and `OPERATION_FEATURE.get(operation)`
unfoldable pub is_operation : String → Bool
is_operation op = one_of op operations

unfoldable pub feature_of : String → Option String
feature_of op = get operation_feature op

pub record Decision : Type 0 where
  pub allowed : Bool
  pub reason : String
  pub grant_version : Option ℕ
  pub purpose : String

-- The ambient context: `in_system_scope()` and what `current_tenant()` reads.
pub record Scope : Type 0 where
  pub in_system_scope : Bool
  pub tenant : Option (String × String)

abbrev pub consent_of : String → String → List ConsentGrant → Option Bool
consent_of user feature [] = none
consent_of user feature (c ∷ cs) =
    if str_eq c.user_id user
    then if str_eq c.feature feature then some c.granted else consent_of user feature cs
    else consent_of user feature cs

abbrev pub preference_of : String → List MemoryPreference → Option Bool
preference_of user [] = none
preference_of user (p ∷ ps) =
    if str_eq p.user_id user then some p.enabled else preference_of user ps

pub record DecisionRow : Type 0 where
  pub version : ℕ
  pub allowed_operations : List String
  pub revoked_at : Option ℕ
  pub expires_at : Option ℕ
  pub feature_granted : Option Bool
  pub pref_enabled : Option Bool

-- The joined row of a grant: the two switches are outer joins.
abbrev pub row_of : Tables → String → String → PurposeGrant → DecisionRow
row_of s user feature g = record {
  version = g.version;
  allowed_operations = g.allowed_operations;
  revoked_at = g.revoked_at;
  expires_at = g.expires_at;
  feature_granted = consent_of user feature s.consents;
  pref_enabled = preference_of user s.preferences;
}

unfoldable pub load_decision_row : Tables → String → String → String → Option DecisionRow
load_decision_row s user purpose feature = elim (find_grant user purpose s.grants) [
  | none ↦ none
  | some g ↦ some (row_of s user feature g)
]

abbrev pub expired : ℕ → Option ℕ → Bool
expired now none = false
expired now (some e) = leb e now

abbrev pub feature_enabled : Option Bool → Option Bool → Bool
feature_enabled (some granted) preference = granted
feature_enabled none (some enabled) = enabled
feature_enabled none none = true

abbrev refusal : String → Option ℕ → String → Decision
refusal reason version purpose = record {
  allowed = false;
  reason = reason;
  grant_version = version;
  purpose = purpose;
}

abbrev admission : ℕ → String → Decision
admission version purpose = record {
  allowed = true;
  reason = "granted";
  grant_version = some version;
  purpose = purpose;
}

unfoldable pub decide_row : ℕ → String → String → Option DecisionRow → Decision
decide_row now purpose op none = refusal "no_grant" none purpose
decide_row now purpose op (some r) =
    if is_some r.revoked_at
    then refusal "revoked" (some r.version) purpose
    else if expired now r.expires_at
    then refusal "expired" (some r.version) purpose
    else if one_of op r.allowed_operations
    then if feature_enabled r.feature_granted r.pref_enabled
      then admission r.version purpose
      else refusal "feature_disabled" (some r.version) purpose
    else refusal "operation_not_allowed" (some r.version) purpose

-- `not purpose or not str(purpose).strip()`
abbrev pub blank : String → Bool
blank text = str_eq (strip text) ""

-- The purpose given, the decision on its row, and `OPERATION_FEATURE[operation]` before it.
unfoldable pub authorize_purpose : ℕ → Tables → String → Option String → String → Result Decision
unfolding decide_row load_decision_row feature_of
authorize_purpose now s user none op = returned (refusal "missing_purpose" none "")
authorize_purpose now s user (some purpose) op =
    if blank purpose then returned (refusal "missing_purpose" none "") else elim (feature_of op) [
      | none ↦ raised key_error
      | some feature ↦
          returned
            (decide_row now (strip purpose) op (load_decision_row s user (strip purpose) feature))
    ]

unfoldable pub authorize : Scope → ℕ → Tables → String → Option String → String → Result Decision
unfolding authorize_purpose is_operation
authorize scope now s user purpose op =
    if is_operation op
    then if scope.in_system_scope then raised runtime_error else elim scope.tenant [
      | none ↦ raised tenant_context_missing
      | some _ ↦ authorize_purpose now s user purpose op
    ]
    else raised unknown_operation

-- `Decision.require`
unfoldable pub require : Decision → Result Decision
require d = if d.allowed then returned d else raised purpose_denied

unfoldable pub authorize_or_raise :
    Scope → ℕ → Tables → String → Option String → String → Result Decision
unfolding authorize require
authorize_or_raise scope now s user purpose op = elim (authorize scope now s user purpose op) [
  | returned d ↦ require d
  | raised e ↦ raised e
]
