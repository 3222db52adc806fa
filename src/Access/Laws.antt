-- ===== src/Access/Laws.antt =====
-- The grants table under the INSERT of a row and the UPDATE of the row of a key.
use mirror_memory.Prelude.{
  String, true, false, none, some, List, [], ◌∷◌, ◌++◌, ◌≡◌, refl, ◌∙◌, inl, inr, Bool-cases,
  and-true, ◌&&◌, arith,
}
use mirror_memory.Prelude.Text.{str_eq, eq_iff, eq_refl}
use mirror_memory.Access.{PurposeGrant, same_key, find_grant}
use mirror_memory.Access.Grants.{update_grant}

pub same_key_refl : (g : PurposeGrant) → same_key g.user_id g.purpose g ≡ true
same_key_refl g = ground (arith, eq_refl g.user_id, eq_refl g.purpose)

-- A row has one key.
same_key-other :
    (u p v q : String) (g : PurposeGrant)
    → same_key u p g ≡ true
    → same_key v q g ≡ (str_eq u v && str_eq p q)
same_key-other u p v q g h =
    let both = and-true (str_eq g.user_id u) (str_eq g.purpose p) h in
    rw ((eq_iff g.user_id u).0 both.0) (rw ((eq_iff g.purpose p).0 both.1) refl)

pub find_grant-key :
    (u p : String) (gs : List PurposeGrant) (g : PurposeGrant)
    → find_grant u p gs ≡ some g
    → same_key u p g ≡ true
unfolding find_grant
find_grant-key u p [] g e = cc
find_grant-key u p (x ∷ xs) g e = elim (Bool-cases (same_key u p x)) [
  | inl h ↦ ground (arith, h, e)
  | inr h ↦ ground (arith, h, e, find_grant-key u p xs g)
]

pub find_grant-snoc :
    (u p : String) (gs : List PurposeGrant) (g : PurposeGrant)
    → find_grant u p (gs ++ g ∷ []) ≡ elim (find_grant u p gs) [
      | some x ↦ some x
      | none ↦ elim (same_key u p g) [ true ↦ some g | false ↦ none ]
    ]
unfolding find_grant
find_grant-snoc u p [] g = ground arith
find_grant-snoc u p (x ∷ xs) g = ground (arith, find_grant-snoc u p xs g)

module _ (u p : String) (f : PurposeGrant → PurposeGrant) where
  pub find_grant-update_grant :
      (gs : List PurposeGrant) (g : PurposeGrant)
      → find_grant u p gs ≡ some g
      → same_key u p (f g) ≡ true
      → find_grant u p (update_grant u p f gs) ≡ some (f g)
  unfolding find_grant update_grant
  find_grant-update_grant [] g e k = cc
  find_grant-update_grant (x ∷ xs) g e k = elim (Bool-cases (same_key u p x)) [
    | inl h ↦ ground (arith, h, e, k)
    | inr h ↦ ground (arith, h, e, k, find_grant-update_grant xs g)
  ]

  pub find_grant-update_grant_other :
      (v q : String)
      → (str_eq u v && str_eq p q) ≡ false
      → ((g : PurposeGrant) → same_key u p g ≡ true → same_key u p (f g) ≡ true)
      → (gs : List PurposeGrant) → find_grant v q (update_grant u p f gs) ≡ find_grant v q gs
  unfolding find_grant update_grant
  find_grant-update_grant_other v q ne keeps [] = refl
  find_grant-update_grant_other v q ne keeps (x ∷ xs) = elim (Bool-cases (same_key u p x)) [
    | inl h ↦ rw h (
        rw (same_key-other u p v q (f x) (keeps x h) ∙ ne)
          (rw (same_key-other u p v q x h ∙ ne) refl))
    | inr h ↦ rw h (rw (find_grant-update_grant_other v q ne keeps xs) refl)
  ]
