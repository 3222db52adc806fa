-- ===== src/Core/Repository/Tiers.antt =====
-- core/repository.py, `set_belief_tier`: a storage move with its audit row.
use mirror_memory.Prelude.{
  ℕ, String, Bool, true, false, none, some, [], ◌∷◌, ◌++◌, ◌≡◌, arith, if◌then◌else◌,
}
use mirror_memory.Prelude.Float.{Float}
use mirror_memory.Metabolism.Tiers.{
  tier_or_hot, Tier, hot, warm, dormant, archived, other, tier_eq, MetabolismState, active, cooling,
  compacted,
}
use mirror_memory.Core.Rows.{Belief, MemoryTransition}
use mirror_memory.Core.Store.{Store, find_belief, update_belief}
use mirror_memory.Core.Repository.Revision.{get_state_revision}

unfoldable pub metabolism_state_for : Tier → MetabolismState
metabolism_state_for hot = active
metabolism_state_for warm = cooling
metabolism_state_for dormant = cooling
metabolism_state_for archived = compacted
metabolism_state_for (other _) = active

abbrev pub retier : Tier → Belief → Belief
retier to b = record b { memory_tier = some to; metabolism_state = metabolism_state_for to }

abbrev pub audit_row : Store → Tier → Tier → String → Float → Belief → MemoryTransition
audit_row s from to reason score b = record {
  user_id = b.user_id;
  entity_id = b.id;
  from_tier = from;
  to_tier = to;
  reason = reason;
  score = score;
  publisher_revision = get_state_revision s b.user_id;
}

moved : Store → ℕ → Tier → Tier → String → Float → Belief → Store
moved s id from to reason score b = record s {
  beliefs = update_belief id (retier to) s.beliefs;
  transitions = s.transitions ++ audit_row s from to reason score b ∷ [];
}

-- The result is whether a row was written; a live tier that has moved away leaves the store alone.
unfoldable pub set_belief_tier : Store → ℕ → Tier → Tier → String → Float → Bool × Store
unfolding moved
set_belief_tier s id from to reason score = elim (find_belief id s.beliefs) [
  | none ↦ (false, s)
  | some b ↦
      if tier_eq (tier_or_hot b.memory_tier) from
      then (true, moved s id from to reason score b)
      else (false, s)
]

module _ (s : Store) (id : ℕ) (from to : Tier) (reason : String) (score : Float) where
  pub beliefs-set_belief_tier :
      (b : Belief)
      → find_belief id s.beliefs ≡ some b
      → tier_eq (tier_or_hot b.memory_tier) from ≡ true
      → (set_belief_tier s id from to reason score).1.beliefs
        ≡ update_belief id (retier to) s.beliefs
  unfolding set_belief_tier
  beliefs-set_belief_tier b f e = ground (arith, f, e)

  pub evidence-set_belief_tier :
      ((set_belief_tier s id from to reason score).1.evidence ≡ s.evidence)
      × ((set_belief_tier s id from to reason score).1.links ≡ s.links)
  unfolding set_belief_tier
  evidence-set_belief_tier = ground arith

  pub transitions-set_belief_tier :
      (b : Belief)
      → find_belief id s.beliefs ≡ some b
      → tier_eq (tier_or_hot b.memory_tier) from ≡ true
      → (set_belief_tier s id from to reason score).1.transitions
        ≡ s.transitions ++ audit_row s from to reason score b ∷ []
  unfolding set_belief_tier
  transitions-set_belief_tier b f e = ground (arith, f, e)
