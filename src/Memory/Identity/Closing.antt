-- ===== src/Memory/Identity/Closing.antt =====
-- The rows that a resolution of one branch may target and close.
use mirror_memory.Prelude.{
  ℕ, Bool, true, false, not, Option, none, some, List, [], ◌∷◌, ◌≡◌, ◌≢◌, ◌⊎◌, ◌==◌, ltb, some_eq,
  refl, subst, map, filter, arith, In, All, here, there, if◌then◌else◌, inl,
}
use mirror_memory.Memory.Relation.{BeliefView}
use mirror_memory.Memory.Lifecycle.{update_action}
use mirror_memory.Memory.Resolution.{
  Resolution, Label, is_active, is_history, newest, others, closing, close_newest,
}

-- A row of the list that passes a test.
abbrev pub IsRow : List BeliefView → (BeliefView → Bool) → BeliefView → Type 0
IsRow rows test b = In b rows × (test b ≡ true)

pub filter-IsRow :
    (rows : List BeliefView) (p test : BeliefView → Bool)
    → ((b : BeliefView) → p b ≡ true → test b ≡ true)
    → All (IsRow rows test) (filter p rows)
filter-IsRow rows p test imp = walk rows (λ b m. m)
  where
    walk :
        (xs : List BeliefView)
        → ((b : BeliefView) → In b xs → In b rows)
        → All (IsRow rows test) (filter p xs)
    walk [] sub = tt
    walk (x ∷ xs) sub = kept (p x) refl (walk xs (λ b m. sub b (there m)))
      where
        kept :
            (k : Bool)
            → p x ≡ k
            → All (IsRow rows test) (filter p xs)
            → All (IsRow rows test) (if k then x ∷ filter p xs else filter p xs)
        kept true e a = ((sub x (here refl), imp x e), a)
        kept false e a = a

pub newest-All :
    (P : BeliefView → Type 0) (b : BeliefView) (bs : List BeliefView)
    → P b
    → All P bs
    → P (newest b bs)
unfolding newest
newest-All P b [] p a = p
newest-All P b (c ∷ cs) p a =
    newest-All P (if ltb b.id c.id then c else b) cs (picked (ltb b.id c.id)) a.1
  where
    picked : (k : Bool) → P (if k then c else b)
    picked true = a.0
    picked false = p

-- The id of a live row.
abbrev pub IsLive : List BeliefView → ℕ → Type 0
IsLive rows i = (b : BeliefView) × In b rows × (b.id ≡ i) × (is_active b ≡ true)

-- The id of a superseded row that an update revives.
abbrev pub IsRevived : List BeliefView → Resolution → ℕ → Type 0
IsRevived rows r i =
    (b : BeliefView) × In b rows
    × (b.id ≡ i)
    × (is_history b ≡ true)
    × (r.revival ≡ true)
    × (r.action ≡ update_action)

-- A resolution has no target, or it names a live row or one that it revives.
abbrev pub IsTarget : List BeliefView → Resolution → Option ℕ → Type 0
IsTarget rows r none = Unit
IsTarget rows r (some i) = IsLive rows i ⊎ IsRevived rows r i

-- What is closed is live, and is not the target.
pub record IsSafe (rows : List BeliefView) (r : Resolution) : Type 0 where
  pub target : IsTarget rows r r.target_belief_id
  pub closes : All (λ i. IsLive rows i × (r.target_belief_id ≢ some i)) r.close_belief_ids

abbrev pub IsClosed : List BeliefView → ℕ → ℕ → Type 0
IsClosed rows t i = IsLive rows i × (◌≢◌ {A = Option ℕ} (some t) (some i))

pub filter-IsClosed :
    (rows : List BeliefView) (t : ℕ) (p : BeliefView → Bool)
    → ((b : BeliefView) → p b ≡ true → (is_active b ≡ true) × ((b.id == t) ≡ false))
    → (xs : List BeliefView) → ((b : BeliefView) → In b xs → In b rows)
    → All (IsClosed rows t) (map (λ c. c.id) (filter p xs))
filter-IsClosed rows t p imp [] sub = tt
filter-IsClosed rows t p imp (x ∷ xs) sub =
    kept (filter-IsClosed rows t p imp xs (λ b m. sub b (there m))) (p x) refl
  where
    kept :
        All (IsClosed rows t) (map (λ c. c.id) (filter p xs))
        → (k : Bool) → p x ≡ k
        → All (IsClosed rows t) (map (λ c. c.id) (if k then x ∷ filter p xs else filter p xs))
    kept rest true e =
        let (live, other) = imp x e in
        (((x, sub x (here refl), refl, live), λ q. ground (arith, other, q)), rest)
    kept rest false e = rest

pub others-All :
    (rows : List BeliefView) (t : BeliefView) (xs : List BeliefView)
    → All (IsRow rows is_active) xs
    → All (IsClosed rows t.id) (others t xs)
others-All rows t [] a = tt
others-All rows t (x ∷ xs) a = kept (others-All rows t xs a.1) (x.id == t.id) refl
  where
    kept :
        All (IsClosed rows t.id) (others t xs)
        → (k : Bool) → (x.id == t.id) ≡ k
        → All (IsClosed rows t.id) (
            map
              (λ c. c.id)
              (if not k
                then x ∷ filter (λ c. not (c.id == t.id)) xs
                else filter (λ c. not (c.id == t.id)) xs))
    kept rest true e = rest
    kept rest false e = (((x, a.0.0, refl, a.0.1), λ q. ground (arith, e, q)), rest)

closing-IsSafe :
    (rows : List BeliefView) (label : Label) (t : BeliefView) (xs : List BeliefView)
    → IsRow rows is_active t
    → All (IsRow rows is_active) xs
    → IsSafe rows (closing label t xs)
closing-IsSafe rows label t xs live a = record {
  target = inl (t, live.0, refl, live.1);
  closes = others-All rows t xs a;
}

-- An optional resolution that is safe where there is one.
abbrev pub IsSafeIf : List BeliefView → Option Resolution → Type 0
IsSafeIf rows o = (r : Resolution) → o ≡ some r → IsSafe rows r

pub close_newest-IsSafe :
    (rows : List BeliefView) (label : Label) (xs : List BeliefView)
    → All (IsRow rows is_active) xs
    → IsSafeIf rows (close_newest label xs)
close_newest-IsSafe rows label [] a r q = absurd (ground (arith, q))
close_newest-IsSafe rows label (b ∷ bs) a r q = subst (IsSafe rows) (some_eq q) (
    closing-IsSafe rows label (newest b bs) (b ∷ bs)
      (newest-All (IsRow rows is_active) b bs a.0 a.1) a)
