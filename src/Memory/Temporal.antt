-- ===== src/Memory/Temporal.antt =====
-- memory/temporal.py: validity intervals, their relation, and the lifecycle transition. A datetime
-- is the number of microseconds of the UTC instant that `_as_utc` normalises it to.
pub mod Intervals
use mirror_memory.Prelude.{
  ℕ, String, Bool, true, false, Option, none, some, ◌&&◌, ◌==◌, ltb, leb, if◌then◌else◌,
}

pub data Scope : Type 0 where
  current_state persistent episodic no_scope : Scope
  other_scope : String → Scope

pub data TemporalRelation : Type 0 where
  follows precedes overlaps contains same unknown : TemporalRelation

pub data LifecycleAction : Type 0 where
  create support temporal_update coexist contradict noop : LifecycleAction

-- `none` is an open end.
pub record TemporalWindow : Type 0 where
  pub valid_from : Option ℕ
  pub valid_to : Option ℕ

-- `is_current(at)`
unfoldable pub is_current : TemporalWindow → ℕ → Bool
is_current w at =
    elim w.valid_from [ none ↦ true | some from ↦ leb from at ]
    && elim w.valid_to [ none ↦ true | some to ↦ ltb at to ]

-- Both windows fully bounded.
bounded : ℕ → ℕ → ℕ → ℕ → TemporalRelation
bounded new_start new_end old_start old_end =
    if (new_start == old_start) && (new_end == old_end)
    then same
    else if leb old_end new_start
    then follows
    else if leb new_end old_start
    then precedes
    else if leb new_start old_start && leb old_end new_end
    then contains
    else overlaps

partly_bounded : Option ℕ → Option ℕ → Option ℕ → Option ℕ → TemporalRelation
partly_bounded (some new_start) _ _ (some old_end) =
    if leb old_end new_start then follows else overlaps
partly_bounded _ (some new_end) (some old_start) _ =
    if leb new_end old_start then precedes else unknown
partly_bounded _ _ _ _ = unknown

relate : Option ℕ → Option ℕ → Option ℕ → Option ℕ → TemporalRelation
unfolding bounded partly_bounded
relate none none _ _ = unknown
relate _ _ none none = unknown
relate (some a) (some b) (some c) (some d) = bounded a b c d
relate a b c d = partly_bounded a b c d

-- The relation of a new window to an old one.
unfoldable pub compare_windows : TemporalWindow → TemporalWindow → TemporalRelation
unfolding relate
compare_windows new old = relate new.valid_from new.valid_to old.valid_from old.valid_to

-- The handover of a current-state value.
on_current_state : TemporalRelation → LifecycleAction
on_current_state follows = temporal_update
on_current_state precedes = coexist
on_current_state overlaps = coexist
on_current_state contains = coexist
on_current_state same = temporal_update
on_current_state unknown = temporal_update

on_other_scope : Scope → LifecycleAction
on_other_scope persistent = contradict
on_other_scope _ = create

on_other_object : Scope → TemporalRelation → Bool → LifecycleAction
unfolding on_current_state on_other_scope
on_other_object current_state relation claims_contradiction = on_current_state relation
on_other_object scope relation claims_contradiction =
    if claims_contradiction then contradict else on_other_scope scope

unfoldable pub lifecycle_transition :
    Bool → Bool → Bool → Scope → TemporalRelation → Bool → LifecycleAction
unfolding on_other_object
lifecycle_transition same_subject same_predicate same_object scope relation claims_contradiction =
    if same_subject && same_predicate
    then (if same_object
        then (if claims_contradiction then contradict else support)
        else on_other_object scope relation claims_contradiction)
    else create
