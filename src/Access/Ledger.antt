-- ===== src/Access/Ledger.antt =====
-- The history of a key as events are appended: a change that the history admits is one of the row.
use mirror_memory.Prelude.{
  String, true, false, none, some, List, [], ◌∷◌, ◌++◌, ◌≡◌, refl, ap, ◌∙◌, sym, subst, inl, inr,
  Bool-cases, ◌⊎◌, and-true, Option-cases, some_eq, ◌&&◌, arith,
}
use mirror_memory.Prelude.Text.{str_eq, eq_iff}
use mirror_memory.Access.{PurposeGrant, PurposeGrantEvent, Tables, find_grant}
use mirror_memory.Access.Grants.{log}
use mirror_memory.Access.History.{Standing, standing, apply_event, concerns, replay}

-- The events of every key replay to the row of the key.
abbrev pub Agrees : Tables → Type 0
Agrees s =
    (user purpose : String)
    → replay user purpose s.grant_events none ≡ some (standing (find_grant user purpose s.grants))

module _ (user purpose : String) (e : PurposeGrantEvent) where
  replay-snoc :
      (es : List PurposeGrantEvent) (st end : Standing)
      → replay user purpose es st ≡ some end
      → replay user purpose (es ++ e ∷ []) st ≡ replay user purpose (e ∷ []) end
  unfolding replay
  replay-snoc [] st end h = ap (λ y. replay user purpose (e ∷ []) y) (some_eq h)
  replay-snoc (x ∷ xs) st end h = elim (Bool-cases (concerns user purpose x)) [
    | inr c ↦ rw c (replay-snoc xs st end (sym (rw (c, replay) refl) ∙ h))
    | inl c ↦ elim (Option-cases (apply_event st x)) [
      | inl a ↦ absurd (ground (arith, c, a, h))
      | inr (next, a) ↦ rw c (rw a (replay-snoc xs next end (sym (rw (c, replay) (rw a refl)) ∙ h)))
    ]
  ]

pub Agrees-log :
    (s : Tables) (gs : List PurposeGrant) (e : PurposeGrantEvent)
    → Agrees s
    → apply_event (standing (find_grant e.user_id e.purpose s.grants)) e
      ≡ some (standing (find_grant e.user_id e.purpose gs))
    → ((v q : String)
        → (str_eq e.user_id v && str_eq e.purpose q) ≡ false
        → find_grant v q gs ≡ find_grant v q s.grants)
    → Agrees (log e (record s { grants = gs }))
unfolding replay
Agrees-log s gs e agrees own other v q =
    replay-snoc v q e s.grant_events none (standing (find_grant v q s.grants)) (agrees v q)
    ∙ by_key (Bool-cases (concerns v q e))
  where
    by_key :
        ((concerns v q e ≡ true) ⊎ (concerns v q e ≡ false))
        → replay v q (e ∷ []) (standing (find_grant v q s.grants))
          ≡ some (standing (find_grant v q gs))
    by_key (inr c) = rw c (ap (λ o. some (standing o)) (sym (other v q c)))
    by_key (inl c) =
        let both = and-true (str_eq e.user_id v) (str_eq e.purpose q) c in
        let at_v =
          subst
            (λ w.
              apply_event (standing (find_grant w e.purpose s.grants)) e
              ≡ some (standing (find_grant w e.purpose gs)))
            ((eq_iff e.user_id v).0 both.0) own in
        let at_key =
          subst
            (λ w.
              apply_event (standing (find_grant v w s.grants)) e
              ≡ some (standing (find_grant v w gs)))
            ((eq_iff e.purpose q).0 both.1) at_v in
        rw c (rw at_key refl)
