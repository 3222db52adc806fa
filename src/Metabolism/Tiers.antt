-- ===== src/Metabolism/Tiers.antt =====
-- metabolism/tiers.py: the storage tiers and the tier state machine.
use mirror_memory.Prelude.{
  Option, none, some, if◌then◌else◌, ℕ, zero, suc, ◌+◌, ◌≤◌, String, ◌≡◌, refl, ap, Bool, true,
  false, arith,
}
use mirror_memory.Prelude.Text.{str_eq, eq_iff, eq_refl}

-- A tier is a text; the four that the module names are constructors, `other` is any other text.
pub data Tier : Type 0 where
  hot warm dormant archived : Tier
  other : String → Tier

abbrev pub default_tier : Tier
default_tier = hot

-- `memory_tier or "hot"`
abbrev pub tier_or_hot : Option Tier → Tier
tier_or_hot none = hot
tier_or_hot (some (other t)) = if str_eq t "" then hot else other t
tier_or_hot (some t) = t

unfoldable pub tier_eq : Tier → Tier → Bool
tier_eq hot hot = true
tier_eq warm warm = true
tier_eq dormant dormant = true
tier_eq archived archived = true
tier_eq (other a) (other b) = str_eq a b
tier_eq _ _ = false

unfoldable pub tier_rank : Tier → ℕ
tier_rank hot = 0
tier_rank warm = 1
tier_rank dormant = 2
tier_rank archived = 3
tier_rank (other _) = 3

unfoldable pub is_legal_tier_transition : Tier → Tier → Bool
is_legal_tier_transition hot warm = true
is_legal_tier_transition warm hot = true
is_legal_tier_transition warm dormant = true
is_legal_tier_transition dormant hot = true
is_legal_tier_transition dormant archived = true
is_legal_tier_transition archived warm = true
is_legal_tier_transition _ _ = false

pub data MetabolismState : Type 0 where
  active cooling compacted protected : MetabolismState

-- A path of legal moves, with the number of its steps.
pub data Moves : ℕ → Tier → Tier → Type 0 where
  stay : {t : Tier} → Moves zero t t
  move :
      {n : ℕ} {s t u : Tier} → is_legal_tier_transition s t ≡ true → Moves n t u → Moves (suc n) s u

legal-tier_rank : (s t : Tier) → is_legal_tier_transition s t ≡ true → tier_rank t ≤ tier_rank s + 1
unfolding is_legal_tier_transition tier_rank
legal-tier_rank s t h = ground arith

-- A path of n legal moves cools a belief by n ranks at most: no path skips a tier on the way down.
Moves-tier_rank : {n : ℕ} {s t : Tier} → Moves n s t → tier_rank t ≤ tier_rank s + n
Moves-tier_rank stay = omega arith
Moves-tier_rank (move {s = s} {t = t} h m) = omega (arith, legal-tier_rank s t h, Moves-tier_rank m)

-- From an archived belief the first legal move is to warm, and nothing else.
archived-restore : (t : Tier) → is_legal_tier_transition archived t ≡ true → t ≡ warm
unfolding is_legal_tier_transition
archived-restore t h = ground arith

pub tier_eq-eq : (s t : Tier) → tier_eq s t ≡ true → s ≡ t
unfolding tier_eq
tier_eq-eq (other a) (other b) h = ap other ((eq_iff a b).0 h)
tier_eq-eq s t h = ground arith

pub tier_eq_refl : (s : Tier) → tier_eq s s ≡ true
unfolding tier_eq
tier_eq_refl (other a) = eq_refl a
tier_eq_refl _ = refl
