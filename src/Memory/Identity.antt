-- ===== src/Memory/Identity.antt =====
-- memory/identity.py: from a candidate and the existing beliefs to what should happen.
pub mod Closing
pub mod Targets
use mirror_memory.Prelude.{
  ℕ, ◌+◌, String, Bool, true, false, not, Option, none, some, List, [], ◌∷◌, ◌++◌, ◌&&◌, ◌||◌, ◌==◌,
  ltb, leb, any, all, filter, map, if◌then◌else◌, is_some,
}
use mirror_memory.Prelude.Text.{str_eq, strip, starts_with, text_length, append}
use mirror_memory.Prelude.Dict.{Dict, get}
use mirror_memory.Core.Rows.{Status, active, superseded, rejected, other_status}
use mirror_memory.Memory.Temporal.{
  TemporalRelation, follows, unknown, TemporalWindow, LifecycleAction, is_current,
}
use mirror_memory.Memory.Relation.{
  CandidateAtom, BeliefView, RelationJudgement, candidate_window, belief_window, judge_relation,
}
use mirror_memory.Memory.Lifecycle.{
  Cardinality, single, is_single, LifecyclePolicy, decide, Action, create_action, support_action,
  update_action, contradict_action, noop_action, to_action,
}
use mirror_memory.Memory.Polarity.{
  Polarity, GoalState, no_transition, goal_active, goal_paused, goal_cancelled, goal_resumed,
  infer_polarity, opposes, is_negative, is_goal_predicate, infer_lifecycle, is_self_correction,
  is_termination, is_resumption, refers_to_a_goal_generically, object_tokens,
}
use mirror_memory.Memory.Resolution.{
  Label, self_correction, end_current, resume, by_action, by_lifecycle, Resolution, Environment,
  is_active, is_history, newest, others, tokens_overlap, closing, plain, close_newest, goal_text,
}

module _ (env : Environment) where
  open env use {lower, casefold, parse_iso, now}

  abbrev tokens : String → List String
  tokens = object_tokens lower casefold

  abbrev polarity : String → Polarity
  polarity = infer_polarity lower casefold

  abbrev normal_text : String → String
  normal_text t = lower (strip t)

  -- The retraction branch: what a correction or a termination refers to.
  abbrev sharing_rows : CandidateAtom → List BeliefView → List BeliefView
  sharing_rows c rows =
      filter (λ b. is_active b && tokens_overlap (tokens b.object) (tokens c.object)) rows

  abbrev goal_rows : CandidateAtom → List BeliefView → List BeliefView
  goal_rows c rows =
      filter
        (λ b.
          is_active b
          && (is_goal_predicate lower casefold b.predicate
              && refers_to_a_goal_generically lower casefold
                  (append c.object (append " " c.claim_text))))
        rows

  -- Only a single live goal is meant by "the goal".
  only_one : List BeliefView → List BeliefView
  only_one (b ∷ []) = b ∷ []
  only_one _ = []

  referents : CandidateAtom → List BeliefView → List BeliefView → List BeliefView
  unfolding only_one
  referents c rows [] =
      if is_termination lower casefold c.claim_text then only_one (goal_rows c rows) else []
  referents c rows (b ∷ bs) = b ∷ bs

  unfoldable pub retraction : CandidateAtom → List BeliefView → Option Resolution
  unfolding referents
  retraction c rows =
      let correcting = is_self_correction lower casefold c.claim_text in
      if correcting || is_termination lower casefold c.claim_text
      then close_newest (if correcting then self_correction else end_current)
          (referents c rows (sharing_rows c rows))
      else none

  -- The resumption branch.
  anchor_tokens : CandidateAtom → List BeliefView → List String → List String
  anchor_tokens c [] anchors = anchors
  anchor_tokens c (b ∷ bs) anchors = anchor_tokens c bs (
      if tokens_overlap (tokens b.object) (tokens c.object)
        || tokens_overlap (tokens b.claim_text) (tokens c.object)
      then anchors ++ (tokens b.object ++ tokens b.claim_text)
      else anchors)

  abbrev is_ended : BeliefView → Bool
  is_ended b =
      str_eq b.transition "END_CURRENT"
      || (is_negative (polarity b.predicate)
          || (is_termination lower casefold b.claim_text
              || (str_eq b.lifecycle_state "paused" || str_eq b.lifecycle_state "cancelled")))

  abbrev ended_name : BeliefView → String
  ended_name b = if str_eq b.ended_object "" then b.object else b.ended_object

  is_empty : List String → Bool
  is_empty [] = true
  is_empty (_ ∷ _) = false

  abbrev ended_rows : CandidateAtom → List BeliefView → List BeliefView
  ended_rows c rows =
      let anchors = anchor_tokens c rows (tokens c.object) in
      filter
        (λ b.
          is_active b
          && (is_ended b
              && (is_empty (tokens c.object)
                  || (tokens_overlap (tokens (ended_name b)) anchors
                      || tokens_overlap (tokens b.claim_text) anchors))))
        rows

  unfoldable pub resumption : CandidateAtom → List BeliefView → Option Resolution
  unfolding anchor_tokens is_empty
  resumption c rows =
      if is_resumption lower casefold c.claim_text
      then close_newest resume (ended_rows c rows)
      else none

  -- The rows of the candidate's own predicate, and those of its value under another verb.
  abbrev same_predicate_rows : CandidateAtom → List BeliefView → List BeliefView
  same_predicate_rows c rows = filter (λ b. str_eq b.predicate c.predicate && is_active b) rows

  abbrev attribute_matches : CandidateAtom → List BeliefView → List BeliefView
  attribute_matches c rows =
      filter
        (λ b.
          (is_active b || is_history b)
          && (str_eq (normal_text b.object) (normal_text c.object)
              && not (str_eq (normal_text b.predicate) (normal_text c.predicate))))
        rows

  is_single_valued : Option Cardinality → Bool
  is_single_valued none = false
  is_single_valued (some k) = is_single k

  unfoldable pub same_attribute_rows :
      Dict Cardinality → CandidateAtom → List BeliefView → List BeliefView
  unfolding is_single_valued
  same_attribute_rows policy c rows =
      if not (is_some (get policy c.predicate))
        && all (λ b. is_single_valued (get policy (normal_text b.predicate)))
            (attribute_matches c rows)
      then attribute_matches c rows
      else []

  abbrev same_thing : CandidateAtom → BeliefView → Bool
  same_thing c b =
      str_eq (normal_text b.object) (normal_text c.object)
      || tokens_overlap (tokens (normal_text c.object)) (tokens b.object)

  abbrev opposing_rows : CandidateAtom → List BeliefView → List BeliefView
  opposing_rows c rows =
      filter
        (λ b.
          is_active b && (same_thing c b && opposes (polarity c.predicate) (polarity b.predicate)))
        rows

  -- No belief with this predicate: the opposite polarity is replaced, or the claim is the first.
  abbrev replacement : Option Resolution → Resolution
  replacement none = plain create_action
  replacement (some r) = r

  unfoldable pub first_claim : CandidateAtom → List BeliefView → Resolution
  first_claim c rows =
      replacement
        (close_newest (by_lifecycle LifecycleAction.temporal_update) (opposing_rows c rows))

  -- The value comes back: its newest row is revived, and the attribute's other live rows are closed.
  unfoldable pub revive : BeliefView → List BeliefView → Resolution
  revive revived rows = record {
    action = update_action;
    target_belief_id = some revived.id;
    lifecycle = by_lifecycle LifecycleAction.temporal_update;
    temporal_relation = some follows;
    close_belief_ids =
        map (λ c. c.id)
          (filter
            (λ b.
              is_active b
              && (not (b.id == revived.id)
                  && str_eq (normal_text b.predicate) (normal_text revived.predicate)))
            rows);
    revival = true;
  }

  goal_moved : GoalState → CandidateAtom → BeliefView → Bool
  goal_moved no_transition c b = false
  goal_moved state c b =
      not (str_eq b.lifecycle_state "")
      && (not (str_eq b.lifecycle_state (goal_text state))
          && str_eq (normal_text b.predicate) (normal_text c.predicate))

  abbrev polarity_conflicts : CandidateAtom → List BeliefView → List BeliefView
  polarity_conflicts c rows =
      filter
        (λ b.
          is_active b
          && (same_thing c b
              && (opposes (polarity c.predicate) (polarity b.predicate)
                  || goal_moved
                      (infer_lifecycle lower casefold c.predicate c.claim_text no_transition) c b)))
        rows

  first_current : BeliefView → List BeliefView → BeliefView
  first_current fallback [] = fallback
  first_current fallback (b ∷ bs) =
      if is_current (belief_window lower parse_iso b) now then b else first_current fallback bs

  -- `_pick_target`: the only row, the first that is true now, or the first.
  unfoldable pub pick_target : BeliefView → List BeliefView → BeliefView
  unfolding first_current
  pick_target b [] = b
  pick_target b (d ∷ ds) = first_current b (b ∷ d ∷ ds)

  abbrev contradicting : BeliefView → RelationJudgement → Resolution
  contradicting target j = record {
    action = contradict_action;
    target_belief_id = some target.id;
    lifecycle = by_lifecycle LifecycleAction.contradict;
    temporal_relation = some j.temporal_relation;
    close_belief_ids = [];
    revival = false;
  }

  abbrev deciding :
      CandidateAtom
      → List BeliefView
      → BeliefView
      → RelationJudgement
      → LifecycleAction
      → Resolution
  deciding c rows target j action = record {
    action = to_action action;
    target_belief_id = some target.id;
    lifecycle = by_lifecycle action;
    temporal_relation = some j.temporal_relation;
    close_belief_ids = others target (polarity_conflicts c rows);
    revival = false;
  }

  judged :
      LifecyclePolicy
      → CandidateAtom
      → List BeliefView
      → BeliefView
      → RelationJudgement
      → Resolution
  judged l c rows target j =
      if j.claims_contradiction && j.same_object
      then contradicting target j
      else deciding c rows target j (decide l j c.predicate)

  unfoldable pub against_target :
      LifecyclePolicy → CandidateAtom → List BeliefView → BeliefView → Resolution
  unfolding judged goal_moved goal_text
  against_target l c rows target = judged l c rows target (
      judge_relation lower parse_iso c target (candidate_window lower parse_iso c)
        (belief_window lower parse_iso target))

  by_predicate :
      LifecyclePolicy
      → CandidateAtom
      → List BeliefView
      → List BeliefView
      → List BeliefView
      → Resolution
  by_predicate l c rows (b ∷ bs) attribute = against_target l c rows (pick_target b bs)
  by_predicate l c rows [] (b ∷ bs) = revive (newest b bs) rows
  by_predicate l c rows [] [] = first_claim c rows

  or_resolve : Option Resolution → Resolution → Resolution
  or_resolve none r = r
  or_resolve (some r) _ = r

  unfoldable pub resolve_identity : LifecyclePolicy → CandidateAtom → List BeliefView → Resolution
  unfolding by_predicate or_resolve
  resolve_identity l c rows =
      if str_eq c.predicate ""
      then plain noop_action
      else or_resolve (retraction c rows) (
          or_resolve (resumption c rows) (
            by_predicate l c rows (same_predicate_rows c rows)
              (same_attribute_rows l.cardinality c rows)))
