-- ===== src/Access/Revocation.antt =====
-- core/authorization.py, `revoke_purpose` and `record_purpose_invocation`. As in a grant, `seen` is
-- the row that the call has read.
use mirror_memory.Prelude.{
  ℕ, ◌+◌, String, Bool, false, Option, none, some, ◌||◌, not, ◌==◌, is_some, if◌then◌else◌,
}
use mirror_memory.Prelude.Text.{strip, str_take}
use mirror_memory.Access.{
  PurposeGrant, PurposeGrantEvent, revoked, invoked, Tables, find_grant, Result, returned, raised,
  unknown_operation, stale_grant_version, value_error,
}
use mirror_memory.Access.Authorize.{is_operation, blank}
use mirror_memory.Access.Grants.{swap_grant, change, log}

-- The arguments of `revoke_purpose`, as given.
pub record RevokeRequest : Type 0 where
  pub user_id : String
  pub purpose : String
  pub actor : String
  pub reason : String
  pub expected_version : Option ℕ

abbrev pub revoke_row : ℕ → ℕ → PurposeGrant → PurposeGrant
revoke_row now version g = record g { revoked_at = some now; version = version + 1 }

abbrev pub revoke_event : RevokeRequest → ℕ → PurposeGrant → PurposeGrantEvent
revoke_event r version g =
    change r.user_id (strip r.purpose) revoked (some version) (version + 1) r.actor r.reason

unfoldable pub revoke_version :
    ℕ → ℕ → RevokeRequest → Tables → Result (Option PurposeGrant × Tables)
unfolding swap_grant
revoke_version now version r s =
    elim (swap_grant r.user_id (strip r.purpose) version (revoke_row now version)
      (revoke_event r version) s) [ returned (g, t) ↦ returned (some g, t) | raised e ↦ raised e ]

-- `expected_version is not None and expected_version != version`
abbrev pub unexpected : Option ℕ → ℕ → Bool
unexpected none version = false
unexpected (some expected) version = not (expected == version)

unfoldable pub revoke_seen :
    ℕ → Option PurposeGrant → RevokeRequest → Tables → Result (Option PurposeGrant × Tables)
unfolding revoke_version
revoke_seen now none r s = returned (none, s)
revoke_seen now (some g) r s =
    if is_some g.revoked_at
    then returned (some g, s)
    else if unexpected r.expected_version g.version
    then raised stale_grant_version
    else revoke_version now g.version r s

unfoldable pub revoke_purpose_on :
    ℕ → Option PurposeGrant → RevokeRequest → Tables → Result (Option PurposeGrant × Tables)
unfolding revoke_seen
revoke_purpose_on now seen r s =
    if blank r.actor || blank r.purpose then raised value_error else revoke_seen now seen r s

unfoldable pub revoke_purpose : ℕ → RevokeRequest → Tables → Result (Option PurposeGrant × Tables)
unfolding revoke_purpose_on
revoke_purpose now r s = revoke_purpose_on now (find_grant r.user_id (strip r.purpose) s.grants) r s

abbrev pub invocation : String → String → String → String → String → String → PurposeGrantEvent
invocation user purpose op decision actor reason = record {
  user_id = user;
  purpose = strip purpose;
  action = invoked;
  operation = op;
  decision = decision;
  old_version = none;
  new_version = none;
  actor = actor;
  reason = str_take 200 reason;
}

unfoldable pub record_purpose_invocation :
    String → String → String → String → String → String → Tables → Result Tables
unfolding is_operation
record_purpose_invocation user purpose op decision actor reason s =
    if is_operation op
    then returned (log (invocation user purpose op decision actor reason) s)
    else raised unknown_operation
