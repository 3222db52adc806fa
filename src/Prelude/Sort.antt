-- ===== src/Prelude/Sort.antt =====
-- `sorted(xs, key=…)` as a stable insertion sort by a test "not after", and sets of numbers as lists.
use mirror_memory.Prelude.Tests.{if◌then◌else◌, leb, ◌==◌, Bool-cases}
use mirror_memory.Prelude.Lists.{length, take, drop, filter, mem, All}
use Prim.Native.Nat.{ℕ, zero, suc, ◌+◌, ◌-◌, ◌≤◌}
use mathlib.Core.Path.{◌≡◌, refl, ◌∙◌, ap}
use mathlib.Core.Bool.{Bool, true, false, ◌||◌}
use mathlib.Core.Logic.{inl, inr, ◌⊎◌}
use mathlib.Core.List.{List, [], ◌∷◌, ◌++◌, map}
use native.Mathlib.Omega.{arith}

module _ {ℓ} {A : Type ℓ} (le : A → A → Bool) where
  unfoldable pub insert : A → List A → List A
  insert x [] = x ∷ []
  insert x (y ∷ ys) = if le x y then x ∷ y ∷ ys else y ∷ insert x ys

  unfoldable pub sort : List A → List A
  unfolding insert
  sort [] = []
  sort (x ∷ xs) = insert x (sort xs)

-- A set as a list: each value once, the last occurrence kept.
unfoldable pub dedupe : List ℕ → List ℕ
dedupe [] = []
dedupe (x ∷ xs) = let rest = dedupe xs in if mem x xs then rest else x ∷ rest

pub mem-append : (a : ℕ) (xs ys : List ℕ) → mem a (xs ++ ys) ≡ (mem a xs || mem a ys)
mem-append a [] ys = refl
mem-append a (x ∷ xs) ys = ground (arith, mem-append a xs ys)

pub mem-dedupe : (a : ℕ) (xs : List ℕ) → mem a (dedupe xs) ≡ mem a xs
unfolding dedupe
mem-dedupe a [] = refl
mem-dedupe a (x ∷ xs) = ground (arith, mem-dedupe a xs)

-- Membership of a number among the images of a list's members.
module _ {ℓ} {A : Type ℓ} (f : A → ℕ) where
  mem-insert :
      (le : A → A → Bool) (a : ℕ) (x : A) (xs : List A)
      → mem a (map f (insert le x xs)) ≡ ((a == f x) || mem a (map f xs))
  unfolding insert
  mem-insert le a x [] = refl
  mem-insert le a x (y ∷ ys) = ground (arith, mem-insert le a x ys)

  pub mem-sort :
      (le : A → A → Bool) (a : ℕ) (xs : List A) → mem a (map f (sort le xs)) ≡ mem a (map f xs)
  unfolding sort
  mem-sort le a [] = refl
  mem-sort le a (x ∷ xs) =
      mem-insert le a x (sort le xs) ∙ ap (λ b. (a == f x) || b) (mem-sort le a xs)

  mem-take : (a n : ℕ) (xs : List A) → mem a (map f (take n xs)) ≡ true → mem a (map f xs) ≡ true
  mem-take a zero xs h = ground arith
  mem-take a (suc n) [] h = h
  mem-take a (suc n) (x ∷ xs) h = ground (arith, mem-take a n xs)

  mem-drop : (a n : ℕ) (xs : List A) → mem a (map f (drop n xs)) ≡ true → mem a (map f xs) ≡ true
  mem-drop a zero xs h = h
  mem-drop a (suc n) [] h = h
  mem-drop a (suc n) (x ∷ xs) h = ground (arith, mem-drop a n xs)

  mem-filter :
      (p : A → Bool) (a : ℕ) (xs : List A)
      → mem a (map f (filter p xs)) ≡ true
      → mem a (map f xs) ≡ true
  mem-filter p a [] h = h
  mem-filter p a (x ∷ xs) h = ground (arith, mem-filter p a xs)

pub mem-sort_ids : (a : ℕ) (xs : List ℕ) → mem a (sort leb xs) ≡ mem a xs
unfolding sort insert
mem-sort_ids a [] = refl
mem-sort_ids a (x ∷ xs) = insert_lem a x (sort leb xs) ∙ ap (λ b. (a == x) || b) (mem-sort_ids a xs)
  where
    insert_lem : (a x : ℕ) (ys : List ℕ) → mem a (insert leb x ys) ≡ ((a == x) || mem a ys)
    insert_lem a x [] = refl
    insert_lem a x (y ∷ ys) = ground (arith, insert_lem a x ys)

-- Lengths.
module _ {ℓ} {A : Type ℓ} where
  pub length-append : (xs ys : List A) → length (xs ++ ys) ≡ length xs + length ys
  length-append [] ys = omega arith
  length-append (x ∷ xs) ys = omega (arith, length-append xs ys)

  pub length-take : (n : ℕ) (xs : List A) → length (take n xs) ≤ n
  length-take zero xs = omega arith
  length-take (suc n) [] = omega arith
  length-take (suc n) (x ∷ xs) = omega (arith, length-take n xs)

  pub length-drop : (n : ℕ) (xs : List A) → length (drop n xs) ≡ length xs - n
  length-drop zero xs = omega arith
  length-drop (suc n) [] = omega arith
  length-drop (suc n) (x ∷ xs) = omega (arith, length-drop n xs)

  pub length-map {κ} : {B : Type κ} (f : A → B) (xs : List A) → length (map f xs) ≡ length xs
  length-map f [] = refl
  length-map f (x ∷ xs) = ap suc (length-map f xs)

  length-insert :
      (le : A → A → Bool) (x : A) (xs : List A) → length (insert le x xs) ≡ suc (length xs)
  unfolding insert
  length-insert le x [] = refl
  length-insert le x (y ∷ ys) = ground (arith, length-insert le x ys)

  pub length-sort : (le : A → A → Bool) (xs : List A) → length (sort le xs) ≡ length xs
  unfolding sort
  length-sort le [] = refl
  length-sort le (x ∷ xs) = length-insert le x (sort le xs) ∙ ap suc (length-sort le xs)

pub length-dedupe : (xs : List ℕ) → length (dedupe xs) ≤ length xs
unfolding dedupe
length-dedupe [] = omega arith
length-dedupe (x ∷ xs) = ground (arith, length-dedupe xs)

-- A total preorder that a test decides.
pub record IsOrder {ℓ} {A : Type ℓ} (le : A → A → Bool) : Type ℓ where
  pub total : (x y : A) → (le x y ≡ true) ⊎ (le y x ≡ true)
  pub trans : (x y z : A) → le x y ≡ true → le y z ≡ true → le x z ≡ true

module _ {ℓ} {A : Type ℓ} (le : A → A → Bool) (order : IsOrder le) where
  abbrev pub IsFirst : List A → Type ℓ
  IsFirst xs = (x : A) × (rest : List A) × (sort le xs ≡ x ∷ rest) × All (λ y. le x y ≡ true) xs

  All-trans :
      (x y : A) (xs : List A)
      → le x y ≡ true
      → All (λ z. le y z ≡ true) xs
      → All (λ z. le x z ≡ true) xs
  All-trans x y [] h a = tt
  All-trans x y (z ∷ zs) h a = (order.trans x y z h a.0, All-trans x y zs h a.1)

  self : (x : A) → le x x ≡ true
  self x = elim (order.total x x) [ inl h ↦ h | inr h ↦ h ]

  -- The head of the sorted list is a member that is not after any other.
  pub sort-IsFirst : (x : A) (xs : List A) → IsFirst (x ∷ xs)
  unfolding sort insert
  sort-IsFirst x [] = (x, [], refl, (self x, tt))
  sort-IsFirst x (y ∷ ys) = place (sort-IsFirst y ys)
    where
      place : IsFirst (y ∷ ys) → IsFirst (x ∷ y ∷ ys)
      place (m, rest, e, least) = elim (Bool-cases (le x m)) [
        | inl h ↦ (x, m ∷ rest, rw (e, insert) (rw h), (self x, All-trans x m (y ∷ ys) h least))
        | inr h ↦ (m, insert le x rest, rw (e, insert) (rw h), (below h, least))
      ]
        where
          below : le x m ≡ false → le m x ≡ true
          below h = elim (order.total x m) [ inl k ↦ absurd (ground (arith, h, k)) | inr k ↦ k ]
