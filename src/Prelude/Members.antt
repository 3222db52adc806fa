-- ===== src/Prelude/Members.antt =====
-- Members of a list, and what `take`, `filter` and `sort` keep of them.
use mirror_memory.Prelude.Tests.{Bool-cases}
use mirror_memory.Prelude.Lists.{length, take, filter, All}
use mirror_memory.Prelude.Sort.{insert, sort}
use Prim.Native.Nat.{ℕ, zero, suc, ◌<◌}
use mathlib.Core.Path.{◌≡◌, refl, ap}
use mathlib.Core.Bool.{Bool, true}
use mathlib.Core.Logic.{inl, inr}
use mathlib.Core.List.{List, [], ◌∷◌}
use native.Mathlib.Omega.{arith}

pub data Among {ℓ} {A : Type ℓ} (x : A) : List A → Type ℓ where
  at_head : {xs : List A} → Among x (x ∷ xs)
  in_tail : {y : A} {xs : List A} → Among x xs → Among x (y ∷ xs)

module _ {ℓ} {A : Type ℓ} where
  pub All-members {κ} : (P : A → Type κ) (xs : List A) → ((x : A) → Among x xs → P x) → All P xs
  All-members P [] h = tt
  All-members P (x ∷ xs) h = (h x at_head, All-members P xs (λ y m. h y (in_tail m)))

  pub All-take {κ} : (P : A → Type κ) (n : ℕ) (xs : List A) → All P xs → All P (take n xs)
  All-take P zero xs a = tt
  All-take P (suc n) [] a = tt
  All-take P (suc n) (x ∷ xs) (c, cs) = (c, All-take P n xs cs)

  pub All-filter {κ} :
      (P : A → Type κ) (p : A → Bool) (xs : List A)
      → All P xs
      → All (λ x. P x × (p x ≡ true)) (filter p xs)
  All-filter P p [] a = tt
  All-filter P p (x ∷ xs) (c, cs) = elim (Bool-cases (p x)) [
    | inl e ↦ rw e ((c, e), All-filter P p xs cs)
    | inr e ↦ rw e (All-filter P p xs cs)
  ]

  All-insert {κ} :
      (P : A → Type κ) (le : A → A → Bool) (x : A) (xs : List A)
      → P x
      → All P xs
      → All P (insert le x xs)
  unfolding insert
  All-insert P le x [] c a = (c, tt)
  All-insert P le x (y ∷ ys) c (d, ds) = elim (Bool-cases (le x y)) [
    | inl e ↦ rw e (c, (d, ds))
    | inr e ↦ rw e (d, All-insert P le x ys c ds)
  ]

  pub All-sort {κ} :
      (P : A → Type κ) (le : A → A → Bool) (xs : List A) → All P xs → All P (sort le xs)
  unfolding sort
  All-sort P le [] a = tt
  All-sort P le (x ∷ xs) (c, cs) = All-insert P le x (sort le xs) c (All-sort P le xs cs)

  Among-insert_head : (le : A → A → Bool) (x : A) (xs : List A) → Among x (insert le x xs)
  unfolding insert
  Among-insert_head le x [] = at_head
  Among-insert_head le x (y ∷ ys) = elim (Bool-cases (le x y)) [
    | inl e ↦ rw e at_head
    | inr e ↦ rw e (in_tail (Among-insert_head le x ys))
  ]

  Among-insert_tail :
      (le : A → A → Bool) (x y : A) (xs : List A) → Among y xs → Among y (insert le x xs)
  unfolding insert
  Among-insert_tail le x y [] m = elim m [ ]
  Among-insert_tail le x y (z ∷ zs) at_head = elim (Bool-cases (le x z)) [
    | inl e ↦ rw e (in_tail at_head)
    | inr e ↦ rw e at_head
  ]
  Among-insert_tail le x y (z ∷ zs) (in_tail m) = elim (Bool-cases (le x z)) [
    | inl e ↦ rw e (in_tail (in_tail m))
    | inr e ↦ rw e (in_tail (Among-insert_tail le x y zs m))
  ]

  pub Among-sort : (le : A → A → Bool) (y : A) (xs : List A) → Among y xs → Among y (sort le xs)
  unfolding sort
  Among-sort le y [] m = elim m [ ]
  Among-sort le y (x ∷ xs) at_head = Among-insert_head le y (sort le xs)
  Among-sort le y (x ∷ xs) (in_tail m) =
      Among-insert_tail le x y (sort le xs) (Among-sort le y xs m)

  pub Among-filter :
      (p : A → Bool) (y : A) (xs : List A) → p y ≡ true → Among y xs → Among y (filter p xs)
  Among-filter p y [] h m = elim m [ ]
  Among-filter p y (x ∷ xs) h at_head = rw h at_head
  Among-filter p y (x ∷ xs) h (in_tail m) = elim (Bool-cases (p x)) [
    | inl e ↦ rw e (in_tail (Among-filter p y xs h m))
    | inr e ↦ rw e (Among-filter p y xs h m)
  ]

  -- A list that does not fill the limit is taken whole.
  pub take-short : (n : ℕ) (xs : List A) → length (take n xs) < n → take n xs ≡ xs
  take-short zero xs h = absurd (ground (arith, h))
  take-short (suc n) [] h = refl
  take-short (suc n) (x ∷ xs) h = ap (λ ys. x ∷ ys) (take-short n xs (ground (arith, h)))
