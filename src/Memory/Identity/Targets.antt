-- ===== src/Memory/Identity/Targets.antt =====
-- Which beliefs a resolution names.
use mirror_memory.Prelude.{
  Bool, true, false, Option, none, some, List, [], ◌∷◌, ◌≡◌, ◌⊎◌, ◌&&◌, ◌||◌, refl, arith, All,
  if◌then◌else◌, Bool-cases, inl, inr,
}
use mirror_memory.Prelude.Dict.{Dict}
use mirror_memory.Memory.Temporal.{is_current}
use mirror_memory.Memory.Relation.{
  RelationJudgement, judge_relation, candidate_window, belief_window, CandidateAtom, BeliefView,
}
use mirror_memory.Memory.Lifecycle.{
  Cardinality, LifecyclePolicy, decide, Action, create_action, noop_action,
}
use mirror_memory.Memory.Resolution.{
  Environment, Resolution, is_active, is_history, newest, close_newest, plain,
}
use mirror_memory.Memory.Identity.{
  referents, only_one, replacement, first_current, judged, contradicting, deciding, by_predicate,
  or_resolve, retraction, resumption, first_claim, revive, against_target, pick_target,
  resolve_identity, same_attribute_rows, attribute_matches, sharing_rows, goal_rows, opposing_rows,
  polarity_conflicts,
}
use mirror_memory.Memory.Identity.Closing.{
  IsRow, filter-IsRow, newest-All, IsLive, IsRevived, IsSafe, filter-IsClosed, others-All, IsSafeIf,
  close_newest-IsSafe,
}

resolved :
    (env : Environment) (rows : List BeliefView) (o : Option Resolution) (r : Resolution)
    → IsSafeIf rows o
    → IsSafe rows r
    → IsSafe rows (or_resolve env o r)
unfolding or_resolve
resolved env rows none r s t = t
resolved env rows (some x) r s t = s x refl

guarded :
    (rows : List BeliefView) (k : Bool) (o : Option Resolution)
    → IsSafeIf rows o
    → IsSafeIf rows (if k then o else none)
guarded rows true o s r q = s r q
guarded rows false o s r q = absurd (ground (arith, q))

only_one-All :
    (env : Environment) (P : BeliefView → Type 0) (xs : List BeliefView)
    → All P xs
    → All P (only_one env xs)
unfolding only_one
only_one-All env P [] a = tt
only_one-All env P (b ∷ []) a = a
only_one-All env P (b ∷ d ∷ ds) a = tt

if-All :
    (P : BeliefView → Type 0) (k : Bool) (xs : List BeliefView)
    → All P xs
    → All P (if k then xs else [])
if-All P true xs a = a
if-All P false xs a = tt

referents-All :
    (env : Environment) (c : CandidateAtom) (rows xs : List BeliefView)
    → All (IsRow rows is_active) xs
    → All (IsRow rows is_active) (referents env c rows xs)
unfolding referents
referents-All env c rows (b ∷ bs) a = a
referents-All env c rows [] a =
    if-All (IsRow rows is_active) _ (only_one env (goal_rows env c rows)) (
      only_one-All env (IsRow rows is_active) (goal_rows env c rows)
        (filter-IsRow rows _ is_active (λ b e. ground (arith, e))))

retraction-IsSafe :
    (env : Environment) (c : CandidateAtom) (rows : List BeliefView)
    → IsSafeIf rows (retraction env c rows)
unfolding retraction
retraction-IsSafe env c rows = guarded rows _ _ (
    close_newest-IsSafe rows _ _ (
      referents-All env c rows (sharing_rows env c rows)
        (filter-IsRow rows _ is_active (λ b e. ground (arith, e)))))

resumption-IsSafe :
    (env : Environment) (c : CandidateAtom) (rows : List BeliefView)
    → IsSafeIf rows (resumption env c rows)
unfolding resumption
resumption-IsSafe env c rows =
    guarded rows _ _
      (close_newest-IsSafe rows _ _ (filter-IsRow rows _ is_active (λ b e. ground (arith, e))))

plain-IsSafe : (rows : List BeliefView) (a : Action) → IsSafe rows (plain a)
plain-IsSafe rows a = record { target = tt; closes = tt }

first_claim-IsSafe :
    (env : Environment) (c : CandidateAtom) (rows : List BeliefView)
    → IsSafe rows (first_claim env c rows)
unfolding first_claim
first_claim-IsSafe env c rows = chosen (close_newest _ (opposing_rows env c rows)) (
    close_newest-IsSafe rows _ (opposing_rows env c rows)
      (filter-IsRow rows _ is_active (λ b e. ground (arith, e))))
  where
    chosen : (o : Option Resolution) → IsSafeIf rows o → IsSafe rows (replacement env o)
    chosen none s = plain-IsSafe rows create_action
    chosen (some r) s = s r refl

-- A row that may come back: live, or superseded.
abbrev is_revivable : BeliefView → Bool
is_revivable b = is_active b || is_history b

revive-IsSafe :
    (env : Environment) (rows : List BeliefView) (b : BeliefView)
    → IsRow rows is_revivable b
    → IsSafe rows (revive env b rows)
unfolding revive
revive-IsSafe env rows b s = record {
  target = named (Bool-cases (is_active b));
  closes =
      filter-IsClosed rows b.id _ (λ d e. (ground (arith, e), ground (arith, e))) rows (λ d m. m);
}
  where
    named :
        (is_active b ≡ true) ⊎ (is_active b ≡ false)
        → IsLive rows b.id ⊎ IsRevived rows (revive env b rows) b.id
    named (inl e) = inl (b, s.0, refl, e)
    named (inr e) = inr (b, s.0, refl, ground (arith, e, s.1), refl, refl)

pick_target-All :
    (env : Environment) (P : BeliefView → Type 0) (b : BeliefView) (bs : List BeliefView)
    → All P (b ∷ bs)
    → P (pick_target env b bs)
unfolding pick_target first_current
pick_target-All env P b [] a = a.0
pick_target-All env P b (d ∷ ds) a = first b (b ∷ d ∷ ds) a.0 a
  where
    first : (f : BeliefView) (xs : List BeliefView) → P f → All P xs → P (first_current env f xs)
    first f [] p ps = p
    first f (x ∷ xs) p ps =
        picked (is_current (belief_window env.lower env.parse_iso x) env.now) (first f xs p ps.1)
      where
        picked :
            (k : Bool) → P (first_current env f xs) → P (if k then x else first_current env f xs)
        picked true r = ps.0
        picked false r = r

if-IsSafe :
    (rows : List BeliefView) (k : Bool) (r s : Resolution)
    → IsSafe rows r
    → IsSafe rows s
    → IsSafe rows (if k then r else s)
if-IsSafe rows true r s p q = p
if-IsSafe rows false r s p q = q

polarity_conflicts-All :
    (env : Environment) (c : CandidateAtom) (rows : List BeliefView)
    → All (IsRow rows is_active) (polarity_conflicts env c rows)
polarity_conflicts-All env c rows = filter-IsRow rows _ is_active (λ b e. ground (arith, e))

judged-IsSafe :
    (env : Environment) (l : LifecyclePolicy) (c : CandidateAtom) (rows : List BeliefView)
    (t : BeliefView) (j : RelationJudgement)
    → IsRow rows is_active t
    → IsSafe rows (judged env l c rows t j)
unfolding judged
judged-IsSafe env l c rows t j s =
    if-IsSafe rows (j.claims_contradiction && j.same_object) (contradicting env t j)
      (deciding env c rows t j (decide l j c.predicate)) (record { target = inl live; closes = tt })
      (record {
        target = inl live;
        closes = others-All rows t _ (polarity_conflicts-All env c rows);
      })
  where
    live : IsLive rows t.id
    live = (t, s.0, refl, s.1)

against_target-IsSafe :
    (env : Environment) (l : LifecyclePolicy) (c : CandidateAtom) (rows : List BeliefView)
    (t : BeliefView)
    → IsRow rows is_active t
    → IsSafe rows (against_target env l c rows t)
unfolding against_target
against_target-IsSafe env l c rows t s =
    judged-IsSafe env l c rows t
      (judge_relation env.lower env.parse_iso c t (candidate_window env.lower env.parse_iso c)
        (belief_window env.lower env.parse_iso t))
      s

same_attribute_rows-All :
    (env : Environment) (d : Dict Cardinality) (c : CandidateAtom) (rows : List BeliefView)
    → All (IsRow rows is_revivable) (same_attribute_rows env d c rows)
unfolding same_attribute_rows
same_attribute_rows-All env d c rows =
    if-All (IsRow rows is_revivable) _ (attribute_matches env c rows)
      (filter-IsRow rows _ is_revivable (λ b e. ground (arith, e)))

by_predicate-IsSafe :
    (env : Environment) (l : LifecyclePolicy) (c : CandidateAtom)
    (rows same attribute : List BeliefView)
    → All (IsRow rows is_active) same
    → All (IsRow rows is_revivable) attribute
    → IsSafe rows (by_predicate env l c rows same attribute)
unfolding by_predicate
by_predicate-IsSafe env l c rows (b ∷ bs) attribute a r =
    against_target-IsSafe env l c rows (pick_target env b bs)
      (pick_target-All env (IsRow rows is_active) b bs a)
by_predicate-IsSafe env l c rows [] (b ∷ bs) a r =
    revive-IsSafe env rows (newest b bs) (newest-All (IsRow rows is_revivable) b bs r.0 r.1)
by_predicate-IsSafe env l c rows [] [] a r = first_claim-IsSafe env c rows

-- For every environment, policy, candidate and list of rows: the belief that a resolution targets is
-- an active row of the list, unless the resolution is an update marked as a revival and the row is
-- superseded; every belief it closes is an active row of the list and is not the target.
pub resolve_identity-IsSafe :
    (env : Environment) (l : LifecyclePolicy) (c : CandidateAtom) (rows : List BeliefView)
    → IsSafe rows (resolve_identity env l c rows)
unfolding resolve_identity
resolve_identity-IsSafe env l c rows = if-IsSafe rows _ _ _ (plain-IsSafe rows noop_action) (
    resolved env rows _ _ (retraction-IsSafe env c rows) (
      resolved env rows _ _ (resumption-IsSafe env c rows) (
        by_predicate-IsSafe env l c rows _ _
          (filter-IsRow rows _ is_active (λ b e. ground (arith, e)))
          (same_attribute_rows-All env l.cardinality c rows))))
