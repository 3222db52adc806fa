-- ===== src/Examples/Granting.antt =====
-- A purpose that is granted, changed and revoked, and what it shows.
use mirror_memory.Prelude.{true, false, none, some, [], ◌∷◌, ◌≡◌, ◌↔◌, refl}
use mirror_memory.Prelude.Text.{one_of, strip}
use mirror_memory.Prelude.Sort.{sort}
use mirror_memory.Core.Store.{find_evidence}
use mirror_memory.Access.{PurposeGrant, Tables, Failure, find_grant, raised}
use mirror_memory.Access.Authorize.{Scope, authorize, feature_of}
use mirror_memory.Access.Grants.{GrantRequest, terms_of, issued, swapped, grant_purpose_on}
use mirror_memory.Access.Revocation.{RevokeRequest, revoke_row, revoke_event, revoke_purpose}
use mirror_memory.Access.Visibility.{VisibilityRule, visibility_sql_predicate, belief_is_visible}
use mirror_memory.Access.Permission.{admits, IsPermitted, authorize-IsPermitted}
use mirror_memory.Access.Effect.{
  authorize-grant_purpose_on, grant_purpose_on-exclusive, authorize-revoke_purpose,
}
use mirror_memory.Access.History.{replay, standing, no_tables, start, next_step, granting}
use mirror_memory.Access.Agreement.{Reachable-replay}
use mirror_memory.Access.Clause.{visibility_sql_predicate-belief_is_visible}
use mirror_memory.Examples.Tables.{bulk}

abbrev scope : Scope
scope = record { in_system_scope = false; tenant = some ("local", "app") }

abbrev request : GrantRequest
request = record {
  user_id = "ada";
  purpose = " chat ";
  operations = "recall" ∷ "observe" ∷ [];
  issuer = "host";
  expires_at = none;
  expected_version = none;
  reason = "";
}

abbrev after_grant : PurposeGrant × Tables
after_grant = issued (terms_of request ("observe" ∷ "recall" ∷ [])) no_tables

abbrev revocation : RevokeRequest
revocation = record {
  user_id = "ada";
  purpose = "chat";
  actor = "ada";
  reason = "";
  expected_version = none;
}

abbrev chat : PurposeGrant
chat = record {
  user_id = "ada";
  purpose = "chat";
  version = 1;
  allowed_operations = "observe" ∷ "recall" ∷ [];
  issuer = "host";
  expires_at = none;
  revoked_at = none;
}

abbrev granted_tables : Tables
granted_tables = record no_tables { grants = chat ∷ [] }

abbrev after_revocation : PurposeGrant × Tables
after_revocation =
    swapped "ada" "chat" (revoke_row 7 1) (revoke_event revocation 1 chat) granted_tables chat

authorize-IsPermitted_example :
    (admits (authorize scope 5 granted_tables "ada" (some "chat") "recall") ≡ true)
    ↔ IsPermitted scope 5 granted_tables "ada" "chat" "recall"
authorize-IsPermitted_example = authorize-IsPermitted scope 5 granted_tables "ada" "chat" "recall"

authorize-revoke_purpose_example :
    admits (authorize scope 9 after_revocation.1 "ada" (some "chat") "recall") ≡ false
unfolding revoke_purpose strip find_grant
authorize-revoke_purpose_example =
    authorize-revoke_purpose 7 revocation granted_tables after_revocation.1
      (some after_revocation.0) refl scope 9 "recall"

authorize-grant_purpose_on_example :
    (admits (authorize scope 5 after_grant.1 "ada" (some " chat ") "recall") ≡ true)
    ↔ (one_of "recall" request.operations ≡ true)
unfolding grant_purpose_on feature_of strip find_grant sort
authorize-grant_purpose_on_example =
    authorize-grant_purpose_on request no_tables after_grant.1 after_grant.0 none scope 5 "recall"
      refl refl refl refl ("recall", refl, refl)

grant_purpose_on-exclusive_example :
    (e : Failure) × (grant_purpose_on none request after_grant.1 ≡ raised e)
unfolding grant_purpose_on strip find_grant sort
grant_purpose_on-exclusive_example =
    grant_purpose_on-exclusive no_tables after_grant.1 after_grant.0 request request none none refl
      refl refl refl

Reachable-replay_example :
    replay "ada" "chat" after_grant.1.grant_events none
    ≡ some (standing (find_grant "ada" "chat" after_grant.1.grants))
unfolding grant_purpose_on strip find_grant sort
Reachable-replay_example =
    Reachable-replay after_grant.1
      (next_step start
        (granting {s = no_tables} {t = after_grant.1} none request after_grant.0 refl))
      "ada" "chat"

abbrev rule : VisibilityRule
rule = record { live = "chat" ∷ []; unknown_visible = true }

visibility_sql_predicate-belief_is_visible_example :
    visibility_sql_predicate rule bulk 1 ≡ belief_is_visible bulk "ada" rule 1
unfolding find_evidence
visibility_sql_predicate-belief_is_visible_example =
    visibility_sql_predicate-belief_is_visible bulk "ada" rule 1
      (refl, (refl, (refl, (refl, (refl, tt))))) refl refl refl
