-- ===== src/Memory/Resolution.antt =====
-- memory/atom.py and memory/identity.py: what a resolution is, and the rows that it takes together.
use mirror_memory.Prelude.{
  ℕ, String, Bool, true, false, not, Option, none, some, List, [], ◌∷◌, ◌&&◌, ◌||◌, ◌==◌, ltb, leb,
  any, filter, map, if◌then◌else◌,
}
use mirror_memory.Prelude.Text.{str_eq, starts_with, text_length}
use mirror_memory.Core.Rows.{active, superseded}
use mirror_memory.Memory.Temporal.{TemporalRelation, follows, LifecycleAction}
use mirror_memory.Memory.Relation.{BeliefView}
use mirror_memory.Memory.Lifecycle.{Action, update_action}
use mirror_memory.Memory.Polarity.{
  GoalState, no_transition, goal_active, goal_paused, goal_cancelled, goal_resumed,
}

-- The label `lifecycle`: a lifecycle action, or one of the resolver's own.
pub data Label : Type 0 where
  self_correction end_current resume : Label
  by_action : Action → Label
  by_lifecycle : LifecycleAction → Label

-- `close_belief_ids` and `revival` are the entries of `detail`; the texts for a reader are left out.
pub record Resolution : Type 0 where
  pub action : Action
  pub target_belief_id : Option ℕ
  pub lifecycle : Label
  pub temporal_relation : Option TemporalRelation
  pub close_belief_ids : List ℕ
  pub revival : Bool

-- What the resolver takes from outside: Unicode's case tables, `fromisoformat`, and the clock.
pub record Environment : Type 0 where
  pub lower : String → String
  pub casefold : String → String
  pub parse_iso : String → Option ℕ
  pub now : ℕ

unfoldable pub is_active : BeliefView → Bool
is_active b = elim b.status [ active ↦ true | _ ↦ false ]

unfoldable pub is_history : BeliefView → Bool
is_history b = elim b.status [ superseded ↦ true | _ ↦ false ]

-- `max(rows, key=id)`: the first of the rows with the greatest id
unfoldable pub newest : BeliefView → List BeliefView → BeliefView
newest b [] = b
newest b (c ∷ cs) = newest (if ltb b.id c.id then c else b) cs

abbrev pub others : BeliefView → List BeliefView → List ℕ
others b rows = map (λ c. c.id) (filter (λ c. not (c.id == b.id)) rows)

abbrev pub denotes_prefix : String → String → Bool
denotes_prefix a b =
    if leb (text_length a) (text_length b)
    then leb 5 (text_length a) && starts_with a b
    else leb 5 (text_length b) && starts_with b a

-- A shared token, or one that is a prefix of another.
unfoldable pub tokens_overlap : List String → List String → Bool
tokens_overlap left right =
    any (λ a. any (λ b. str_eq a b) right) left
    || any (λ a. any (λ b. denotes_prefix a b) right) left

-- An update whose reason is one of the resolver's own labels.
abbrev pub closing : Label → BeliefView → List BeliefView → Resolution
closing label target rows = record {
  action = update_action;
  target_belief_id = some target.id;
  lifecycle = label;
  temporal_relation = some follows;
  close_belief_ids = others target rows;
  revival = false;
}

abbrev pub plain : Action → Resolution
plain a = record {
  action = a;
  target_belief_id = none;
  lifecycle = by_action a;
  temporal_relation = none;
  close_belief_ids = [];
  revival = false;
}

-- The update of the newest of some rows, where there is one.
abbrev pub close_newest : Label → List BeliefView → Option Resolution
close_newest label [] = none
close_newest label (b ∷ bs) = some (closing label (newest b bs) (b ∷ bs))

unfoldable pub goal_text : GoalState → String
goal_text no_transition = ""
goal_text goal_active = "active"
goal_text goal_paused = "paused"
goal_text goal_cancelled = "cancelled"
goal_text goal_resumed = "resumed"
