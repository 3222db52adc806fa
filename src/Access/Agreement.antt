-- ===== src/Access/Agreement.antt =====
-- core/authorization.py: what the calls append agrees with what they leave in the grants table.
use mirror_memory.Prelude.{
  ℕ, String, true, false, Option, none, some, [], ◌∷◌, ◌++◌, ◌≡◌, refl, ap, ◌∙◌, sym, subst, inl,
  inr, Bool-cases, Option-cases, ◌||◌, ◌&&◌, ◌==◌, is_some, arith,
}
use mirror_memory.Prelude.Text.{strip, str_eq}
use mirror_memory.Access.{
  PurposeGrant, PurposeGrantEvent, granted, Tables, find_grant, same_key, Result, returned, raised,
  returned_eq,
}
use mirror_memory.Access.Authorize.{blank, is_operation}
use mirror_memory.Access.Grants.{
  GrantRequest, Terms, terms_of, operations_json, first_grant, regrant, issue, reissue,
  reissue_event, swap_grant, swapped, grant_seen, grant_purpose_on, log, change, update_grant,
}
use mirror_memory.Access.Revocation.{
  RevokeRequest, revoke_row, revoke_event, revoke_version, revoke_seen, revoke_purpose_on,
  unexpected, invocation, record_purpose_invocation,
}
use mirror_memory.Access.Laws.{
  find_grant-key, find_grant-snoc, find_grant-update_grant, find_grant-update_grant_other,
  same_key_refl,
}
use mirror_memory.Access.History.{
  standing, apply_event, replay, Step, granting, revoking, invoking, switching, Reachable, start,
  next_step,
}
use mirror_memory.Access.Ledger.{Agrees, Agrees-log}

-- Every call that returns keeps the agreement.
abbrev AgreesAfter {ℓ} : {A : Type ℓ} → Result (A × Tables) → Type 0
AgreesAfter (returned (a, t)) = Agrees t
AgreesAfter (raised e) = Unit

module _ (s : Tables) (agrees : Agrees s) where
  issue-Agrees : (t : Terms) → AgreesAfter (issue t s)
  unfolding issue apply_event
  issue-Agrees t = elim (Option-cases (find_grant t.user_id t.purpose s.grants)) [
    | inr (x, e) ↦ rw (e, issue) tt
    | inl e ↦
        rw (e, issue)
          (Agrees-log s (s.grants ++ first_grant t ∷ [])
            (change t.user_id t.purpose granted none 1 t.issuer t.reason) agrees
            (rw (find_grant-snoc t.user_id t.purpose s.grants (first_grant t))
              (rw e (rw (same_key_refl (first_grant t)) refl)))
            (λ v q c.
              find_grant-snoc v q s.grants (first_grant t) ∙ kept v q c (find_grant v q s.grants)))
  ]
    where
      kept :
          (v q : String)
          → (str_eq t.user_id v && str_eq t.purpose q) ≡ false
          → (o : Option PurposeGrant)
          → elim o [
            | some x ↦ some x
            | none ↦ elim (same_key v q (first_grant t)) [
              | true ↦ some (first_grant t)
              | false ↦ none
            ]
          ]
            ≡ o
      kept v q c none = rw c refl
      kept v q c (some x) = refl

  -- The UPDATE of a row with the event of its key.
  swapped-Agrees :
      (f : PurposeGrant → PurposeGrant) (e : PurposeGrantEvent) (x : PurposeGrant)
      → find_grant e.user_id e.purpose s.grants ≡ some x
      → ((g : PurposeGrant)
          → same_key e.user_id e.purpose g ≡ true
          → same_key e.user_id e.purpose (f g) ≡ true)
      → apply_event (standing (some x)) e ≡ some (standing (some (f x)))
      → Agrees (swapped e.user_id e.purpose f e s x).1
  swapped-Agrees f e x found keeps follows =
      Agrees-log s (update_grant e.user_id e.purpose f s.grants) e agrees
        (rw found follows
          ∙ ap (λ o. some (standing o))
              (sym (
                find_grant-update_grant e.user_id e.purpose f s.grants x found
                  (keeps x (find_grant-key e.user_id e.purpose s.grants x found)))))
        (λ v q c. find_grant-update_grant_other e.user_id e.purpose f v q c keeps s.grants)

  reissue-Agrees : (t : Terms) (v : ℕ) → AgreesAfter (reissue t v s)
  unfolding apply_event reissue
  reissue-Agrees t v = elim (Option-cases (find_grant t.user_id t.purpose s.grants)) [
    | inl e ↦ rw (e, reissue, swap_grant) tt
    | inr (x, e) ↦ elim (Bool-cases (x.version == v)) [
      | inr k ↦ rw (e, reissue, swap_grant) (rw k tt)
      | inl k ↦
          rw (e, reissue, swap_grant)
            (rw k
              (swapped-Agrees (regrant t) (reissue_event t v x) x e (λ g h. h) (ground (arith, k))))
    ]
  ]

  revoke_version-Agrees : (now v : ℕ) (r : RevokeRequest) → AgreesAfter (revoke_version now v r s)
  unfolding apply_event revoke_version
  revoke_version-Agrees now v r =
      elim (Option-cases (find_grant r.user_id (strip r.purpose) s.grants)) [
        | inl e ↦ rw (e, revoke_version, swap_grant) tt
        | inr (x, e) ↦ elim (Bool-cases (x.version == v)) [
          | inr k ↦ rw (e, revoke_version, swap_grant) (rw k tt)
          | inl k ↦
              rw (e, revoke_version, swap_grant)
                (rw k (
                  swapped-Agrees (revoke_row now v) (revoke_event r v x) x e (λ g h. h)
                    (ground (arith, k))))
        ]
      ]

  grant_seen-Agrees :
      (seen : Option PurposeGrant) (expected : Option ℕ) (t : Terms)
      → AgreesAfter (grant_seen seen expected t s)
  unfolding grant_seen
  grant_seen-Agrees none none t = issue-Agrees t
  grant_seen-Agrees none (some v) t = tt
  grant_seen-Agrees (some x) none t = tt
  grant_seen-Agrees (some x) (some v) t = reissue-Agrees t v

  revoke_seen-Agrees :
      (now : ℕ) (seen : Option PurposeGrant) (r : RevokeRequest)
      → AgreesAfter (revoke_seen now seen r s)
  unfolding revoke_seen
  revoke_seen-Agrees now none r = agrees
  revoke_seen-Agrees now (some x) r = elim (Bool-cases (is_some x.revoked_at)) [
    | inl v ↦ rw v agrees
    | inr v ↦ elim (Bool-cases (unexpected r.expected_version x.version)) [
      | inl w ↦ rw v (rw w tt)
      | inr w ↦ rw v (rw w (revoke_version-Agrees now x.version r))
    ]
  ]

  grant_purpose_on-Agrees :
      (seen : Option PurposeGrant) (r : GrantRequest) → AgreesAfter (grant_purpose_on seen r s)
  unfolding grant_purpose_on
  grant_purpose_on-Agrees seen r = elim (Bool-cases (blank r.purpose)) [
    | inl b ↦ rw b tt
    | inr b ↦ elim (Bool-cases (blank r.user_id)) [
      | inl c ↦ rw b (rw c tt)
      | inr c ↦ elim (Option-cases (operations_json r.operations)) [
        | inl o ↦ rw b (rw c (rw o tt))
        | inr (ops, o) ↦ elim (Bool-cases (blank r.issuer)) [
          | inl i ↦ rw b (rw c (rw o (rw i tt)))
          | inr i ↦
              rw b (rw c (rw o (rw i (grant_seen-Agrees seen r.expected_version (terms_of r ops)))))
        ]
      ]
    ]
  ]

  revoke_purpose_on-Agrees :
      (now : ℕ) (seen : Option PurposeGrant) (r : RevokeRequest)
      → AgreesAfter (revoke_purpose_on now seen r s)
  unfolding revoke_purpose_on
  revoke_purpose_on-Agrees now seen r = elim (Bool-cases (blank r.actor || blank r.purpose)) [
    | inl b ↦ rw b tt
    | inr b ↦ rw b (revoke_seen-Agrees now seen r)
  ]

  record_purpose_invocation-Agrees :
      (user purpose op decision actor reason : String) (t : Tables)
      → record_purpose_invocation user purpose op decision actor reason s ≡ returned t
      → Agrees t
  unfolding record_purpose_invocation apply_event
  record_purpose_invocation-Agrees user purpose op decision actor reason t h =
      elim (Bool-cases (is_operation op)) [
        | inr o ↦ absurd (ground (arith, o, h))
        | inl o ↦
            subst Agrees
              (returned_eq {x = log (invocation user purpose op decision actor reason) s}
                (sym (rw (o, record_purpose_invocation) refl) ∙ h))
              (Agrees-log s s.grants (invocation user purpose op decision actor reason) agrees refl
                (λ v q c. refl))
      ]

Step-Agrees : (s t : Tables) → Step s t → Agrees s → Agrees t
Step-Agrees s t (granting seen r g h) a = subst AgreesAfter h (grant_purpose_on-Agrees s a seen r)
Step-Agrees s t (revoking now seen r o h) a =
    subst AgreesAfter h (revoke_purpose_on-Agrees s a now seen r)
Step-Agrees s t (invoking user purpose op decision actor reason h) a =
    record_purpose_invocation-Agrees s a user purpose op decision actor reason t h
Step-Agrees s t (switching cs ps) a = a

-- In every state that any sequence of returned calls reaches, whatever rows the calls had seen, the
-- events of a user and a purpose replay, each from the version that the one before it left to the
-- next version, to the version and the revocation of the row in the grants table, or to no row.
pub Reachable-replay :
    (s : Tables)
    → Reachable s
    → (user purpose : String)
    → replay user purpose s.grant_events none ≡ some (standing (find_grant user purpose s.grants))
unfolding replay find_grant
Reachable-replay s start user purpose = refl
Reachable-replay s (next_step {s = before} r step) user purpose =
    Step-Agrees before s step (Reachable-replay before r) user purpose
