-- ===== src/Core/Store/Laws.antt =====
-- Reads after writes.
use mathlib.Core.Option
use mirror_memory.Prelude.{ℕ, some, List, [], ◌∷◌, ◌≡◌, ◌==◌, if◌then◌else◌, arith}
use mirror_memory.Core.Rows.{Belief}
use mirror_memory.Core.Store.{find_belief, update_belief}

find_belief-id : (i : ℕ) (bs : List Belief) {b : Belief} → find_belief i bs ≡ some b → b.id ≡ i
unfolding find_belief
find_belief-id i [] h = ground arith
find_belief-id i (x ∷ xs) {b} h = ground (arith, find_belief-id i xs {b = b})

-- A row is found by its key after a change that keeps the key.
pub find_belief-update_belief :
    (i j : ℕ) (f : Belief → Belief) (bs : List Belief)
    → ((b : Belief) → (f b).id ≡ b.id)
    → find_belief j (update_belief i f bs)
      ≡ (if i == j then Option.map f (find_belief j bs) else find_belief j bs)
unfolding find_belief update_belief
find_belief-update_belief i j f [] keep = ground arith
find_belief-update_belief i j f (x ∷ xs) keep =
    ground (arith, keep x, find_belief-update_belief i j f xs keep)
