-- ===== src/Access/History.antt =====
-- core/authorization.py and core/models.py: the append-only events of the grants as the history of
-- the grants table.
use mirror_memory.Prelude.{
  ℕ, ◌+◌, String, Bool, true, false, Option, none, some, List, [], ◌∷◌, ◌≡◌, ◌&&◌, ◌==◌,
  if◌then◌else◌,
}
use mirror_memory.Prelude.Text.{str_eq}
use mirror_memory.Core.Rows.{MemoryPreference}
use mirror_memory.Access.{
  PurposeGrant, PurposeGrantEvent, granted, updated, revoked, invoked, ConsentGrant, Tables,
  returned,
}
use mirror_memory.Access.Grants.{GrantRequest, grant_purpose_on}
use mirror_memory.Access.Revocation.{RevokeRequest, revoke_purpose_on, record_purpose_invocation}

-- What a key holds, for its history: a version and whether the grant is live.
abbrev pub Standing : Type 0
Standing = Option (ℕ × Bool)

abbrev pub standing : Option PurposeGrant → Standing
standing none = none
standing (some g) = some (g.version, elim g.revoked_at [ none ↦ true | some _ ↦ false ])

-- A change of a key, from the version before to the one after it: refused where the versions do not
-- continue the history.
abbrev pub continue_from : Standing → Option ℕ → Option ℕ → Bool → Option Standing
continue_from (some (v, _)) (some old) (some new) live =
    if (old == v) && (new == v + 1) then some (some (new, live)) else none
continue_from (some _) (some _) none live = none
continue_from (some _) none new live = none
continue_from none old new live = none

abbrev pub begin : Standing → Option ℕ → Option ℕ → Option Standing
begin none none (some new) = if new == 1 then some (some (new, true)) else none
begin none none none = none
begin none (some _) new = none
begin (some _) old new = none

unfoldable pub apply_event : Standing → PurposeGrantEvent → Option Standing
apply_event st e = elim e.action [
  | granted ↦ begin st e.old_version e.new_version
  | updated ↦ continue_from st e.old_version e.new_version true
  | revoked ↦ continue_from st e.old_version e.new_version false
  | invoked ↦ some st
]

abbrev pub concerns : String → String → PurposeGrantEvent → Bool
concerns user purpose e = str_eq e.user_id user && str_eq e.purpose purpose

-- The events of one key, read in order.
unfoldable pub replay : String → String → List PurposeGrantEvent → Standing → Option Standing
replay user purpose [] st = some st
replay user purpose (e ∷ es) st =
    if concerns user purpose e
    then (elim (apply_event st e) [ none ↦ none | some next ↦ replay user purpose es next ])
    else replay user purpose es st

-- One committed call, of a session that may have read the grant at any time before, or a write of
-- the switches by other code.
pub data Step : Tables → Tables → Type 0 where
  granting :
      {s t : Tables} (seen : Option PurposeGrant) (r : GrantRequest) (g : PurposeGrant)
      → grant_purpose_on seen r s ≡ returned (g, t)
      → Step s t
  revoking :
      {s t : Tables} (now : ℕ) (seen : Option PurposeGrant) (r : RevokeRequest)
      (o : Option PurposeGrant)
      → revoke_purpose_on now seen r s ≡ returned (o, t)
      → Step s t
  invoking :
      {s t : Tables} (user purpose op decision actor reason : String)
      → record_purpose_invocation user purpose op decision actor reason s ≡ returned t
      → Step s t
  switching :
      {s : Tables} (cs : List ConsentGrant) (ps : List MemoryPreference)
      → Step s (record s { consents = cs; preferences = ps })

abbrev pub no_tables : Tables
no_tables = record { grants = []; grant_events = []; consents = []; preferences = [] }

pub data Reachable : Tables → Type 0 where
  start : Reachable no_tables
  next_step : {s t : Tables} → Reachable s → Step s t → Reachable t
