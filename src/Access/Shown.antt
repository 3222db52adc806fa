-- ===== src/Access/Shown.antt =====
-- core/provenance.py: what a rule of visibility shows, after an event and after an authorization.
use mirror_memory.Prelude.{
  ℕ, String, true, false, some, List, [], ◌∷◌, ◌++◌, ◌≡◌, refl, ap, ◌∙◌, sym, inl, inr, Bool-cases,
  arith, some_eq, and-true, is_some,
}
use mirror_memory.Prelude.Text.{str_eq, one_of, eq_iff, eq_refl, strip}
use mirror_memory.Access.{PurposeGrant, Tables, find_grant, same_key}
use mirror_memory.Access.Authorize.{Scope, authorize, expired}
use mirror_memory.Access.Permission.{admits, IsOpen, authorize-IsPermitted}
use mirror_memory.Core.Rows.{Belief, BeliefEvent}
use mirror_memory.Core.Store.{Store, append_event}
use mirror_memory.Access.Visibility.{
  VisibilityRule, purpose_visible, link_purposes, event_purposes, rule_passes, belief_is_visible,
  provenance_event_types, live_purposes, rule_of,
}

event_purposes-append :
    (user : String) (id : ℕ) (es : List BeliefEvent) (e : BeliefEvent)
    → one_of e.event_type provenance_event_types ≡ false
    → event_purposes user id (es ++ e ∷ []) ≡ event_purposes user id es
unfolding event_purposes
event_purposes-append user id [] e h = ground (arith, h)
event_purposes-append user id (x ∷ xs) e h = ground (arith, event_purposes-append user id xs e h)

-- The open grant of a purpose that is not blank puts the purpose among the live ones.
live_purposes-open :
    (now : ℕ) (user purpose op : String) (gs : List PurposeGrant) (g : PurposeGrant)
    → find_grant user purpose gs ≡ some g
    → IsOpen now op g
    → str_eq purpose "" ≡ false
    → one_of purpose (live_purposes now user gs) ≡ true
unfolding find_grant live_purposes
live_purposes-open now user purpose op [] g f o n = absurd (ground (arith, f))
live_purposes-open now user purpose op (x ∷ xs) g f o n =
    elim (Bool-cases (same_key user purpose x)) [
      | inr k ↦ ground (arith, k, f, n, live_purposes-open now user purpose op xs g)
      | inl k ↦
          let both = and-true (str_eq x.user_id user) (str_eq x.purpose purpose) k in
          let name = (eq_iff x.purpose purpose).0 both.1 in
          let row = some_eq {x = x} {y = g} (sym (rw (k, find_grant) refl) ∙ f) in
          ground (
            arith,
            both.0,
            ap (λ y. is_some y.revoked_at) row ∙ ap is_some o.not_revoked,
            ap (λ y. expired now y.expires_at) row ∙ o.not_expired,
            ap (λ y. str_eq y "") name ∙ n,
            ap (λ y. str_eq purpose y) name ∙ eq_refl purpose,
          )
    ]

-- An event of another type than a creation or a correction, written under whatever purpose, changes
-- for no user, rule and belief whether the belief is visible.
pub belief_is_visible-append_event :
    (s : Store) (b : Belief) (kind : String)
    → one_of kind provenance_event_types ≡ false
    → (user : String) (rule : VisibilityRule) (id : ℕ)
    → belief_is_visible (append_event b kind s) user rule id ≡ belief_is_visible s user rule id
unfolding belief_is_visible
belief_is_visible-append_event s b kind h user rule id =
    ap (rule_passes rule (link_purposes user id s.evidence s.links))
      (event_purposes-append user id s.events _ h)

-- A purpose that `authorize` admits is live for the rule that the same request reads with.
authorize-visibility :
    (scope : Scope) (now : ℕ) (s : Tables) (user purpose op : String)
    → admits (authorize scope now s user (some purpose) op) ≡ true
    → purpose_visible (rule_of now s user) (strip purpose) ≡ true
unfolding purpose_visible rule_of
authorize-visibility scope now s user purpose op h =
    let p = (authorize-IsPermitted scope now s user purpose op).0 h in
    rw p.named_purpose (
      live_purposes-open now user (strip purpose) op s.grants p.grant p.granted p.open_grant
        p.named_purpose)
