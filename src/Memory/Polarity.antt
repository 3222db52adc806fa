-- ===== src/Memory/Polarity.antt =====
-- memory/polarity.py: polarity and the goal lifecycle, from the canonical predicate and the claim's
-- text. `lower` and `casefold` are Python's, whose tables are Unicode's.
use mirror_memory.Prelude.{
  String, Bool, true, false, not, List, [], ◌∷◌, ◌&&◌, ◌||◌, ◌≡◌, arith, any, filter, leb,
  if◌then◌else◌,
}
use mirror_memory.Prelude.Text.{
  strip, one_of, any_marker, text_length, alphanumeric_pieces, split_words,
}

pub data Polarity : Type 0 where
  positive negative neutral : Polarity

-- The empty text is `no_transition`.
pub data GoalState : Type 0 where
  no_transition goal_active goal_paused goal_cancelled goal_resumed : GoalState

abbrev positive_predicates : List String
positive_predicates =
    "likes" ∷ "loves" ∷ "enjoys" ∷ "prefers" ∷ "wants" ∷ "wants_to" ∷ "likes_to" ∷ "values"
    ∷ "appreciates" ∷ "admires" ∷ []

abbrev negative_predicates : List String
negative_predicates =
    "dislikes" ∷ "hates" ∷ "avoids" ∷ "rejects" ∷ "dislikes_to" ∷ "disprefers" ∷ []

abbrev goal_predicates : List String
goal_predicates =
    "wants_to" ∷ "wants" ∷ "plans_to" ∷ "hopes_to" ∷ "intends_to" ∷ "aims_to" ∷ "would_like_to"
    ∷ "wishes_to" ∷ []

abbrev cancel_markers : List String
cancel_markers =
    "gave up" ∷ "give up" ∷ "abandoned" ∷ "dropped the idea" ∷ "cancel" ∷ "no longer want"
    ∷ "don't want" ∷ "do not want" ∷ "quit" ∷ "scrapped" ∷ "not going to" ∷ "decided against" ∷ []

abbrev pause_markers : List String
pause_markers =
    "put on hold" ∷ "paused" ∷ "shelved" ∷ "postponed" ∷ "on hold" ∷ "deferred" ∷ "not right now"
    ∷ "later" ∷ []

abbrev resume_markers : List String
resume_markers =
    "started again" ∷ "restarted" ∷ "resumed" ∷ "picked it up again" ∷ "back to" ∷ "renewed"
    ∷ "revisiting" ∷ "trying again" ∷ "started training again" ∷ "signed up again" ∷ "bought a"
    ∷ "enrolled again" ∷ "booked" ∷ []

abbrev correction_markers : List String
correction_markers =
    "correction" ∷ "i was wrong" ∷ "i mistook" ∷ "i misspoke" ∷ "that was mistaken"
    ∷ "that was incorrect" ∷ "i need to correct" ∷ "let me correct" ∷ "i take that back"
    ∷ "i take it back" ∷ "scratch that" ∷ "on second thought" ∷ "to correct myself"
    ∷ "i correct myself" ∷ "never learned" ∷ "never learnt" ∷ "have never" ∷ "has never"
    ∷ "not certified" ∷ "isn't certified" ∷ "not qualified" ∷ "do not speak" ∷ "does not speak"
    ∷ "don't speak" ∷ "cannot speak" ∷ "can't speak" ∷ "not fluent" ∷ "only know a few"
    ∷ "only knows a few" ∷ "just a few" ∷ "barely any" ∷ "was wrong about" ∷ "was mistaken about"
    ∷ []

abbrev generic_object_tokens : List String
generic_object_tokens =
    "not" ∷ "never" ∷ "few" ∷ "some" ∷ "any" ∷ "all" ∷ "the" ∷ "and" ∷ "with" ∷ "for" ∷ "from"
    ∷ "into" ∷ "about" ∷ "very" ∷ "really" ∷ "just" ∷ "also" ∷ "than" ∷ "then" ∷ "when" ∷ "what"
    ∷ "have" ∷ "has" ∷ "had" ∷ "was" ∷ "were" ∷ "are" ∷ "did" ∷ "does" ∷ "done" ∷ "can" ∷ "could"
    ∷ "would" ∷ "should" ∷ []

abbrev termination_markers : List String
termination_markers =
    "cancelled" ∷ "canceled" ∷ "called off" ∷ "backed out" ∷ "gave up" ∷ "give up" ∷ "given up"
    ∷ "dropped the" ∷ "abandoned" ∷ "scrapped" ∷ "quit" ∷ "sold my" ∷ "sold the" ∷ "got rid of"
    ∷ "no longer" ∷ "not anymore" ∷ "decided not to" ∷ "decided against" ∷ "ended the"
    ∷ "broke up with" ∷ "parted ways" ∷ "gave away" ∷ "given away" ∷ "threw away" ∷ "threw out"
    ∷ "recycled" ∷ "donated" ∷ "handed down" ∷ "lost my" ∷ "lost the" ∷ "rejected" ∷ "postponed"
    ∷ "put off" ∷ "removed" ∷ "took off" ∷ "shelved" ∷ "paused" ∷ "dropped out of"
    ∷ "stopped enjoying" ∷ "stopped liking" ∷ "stopped doing" ∷ "stopped going"
    ∷ "stopped practicing" ∷ "stopped playing" ∷ "no longer enjoy" ∷ []

abbrev disposal_verbs : List String
disposal_verbs = "gave" ∷ "given" ∷ "threw" ∷ "throw" ∷ "tossed" ∷ "handed" ∷ []

abbrev disposal_particles : List String
disposal_particles = "away" ∷ "out" ∷ []

abbrev resumption_markers : List String
resumption_markers =
    "again" ∷ "restarted" ∷ "resumed" ∷ "back to" ∷ "renewed" ∷ "revisiting" ∷ "trying again"
    ∷ "signed up" ∷ "booked" ∷ "enrolled" ∷ "after all" ∷ "picked it up" ∷ "started training"
    ∷ "applying for" ∷ []

abbrev generic_goal_words : List String
generic_goal_words =
    "goal" ∷ "plan" ∷ "project" ∷ "idea" ∷ "intention" ∷ "resolution" ∷ "ambition" ∷ []

unfoldable pub opposite_polarity : Polarity → Polarity
opposite_polarity positive = negative
opposite_polarity negative = positive
opposite_polarity neutral = neutral

-- `polarity == other`, where the opposite of neutral is the empty text, which equals nothing here
unfoldable pub opposes : Polarity → Polarity → Bool
opposes positive negative = true
opposes negative positive = true
opposes _ _ = false

unfoldable pub is_negative : Polarity → Bool
is_negative negative = true
is_negative _ = false

module _ (lower casefold : String → String) where
  unfoldable pub infer_polarity : String → Polarity
  infer_polarity predicate =
      let p = lower (strip predicate) in
      if one_of p positive_predicates
      then positive
      else if one_of p negative_predicates
      then negative
      else neutral

  unfoldable pub is_goal_predicate : String → Bool
  is_goal_predicate predicate = one_of (lower (strip predicate)) goal_predicates

  reaffirmed : GoalState → GoalState
  reaffirmed goal_cancelled = goal_resumed
  reaffirmed goal_paused = goal_resumed
  reaffirmed _ = goal_active

  unfoldable pub infer_lifecycle : String → String → GoalState → GoalState
  unfolding reaffirmed
  infer_lifecycle predicate claim_text prior_state =
      let text = lower claim_text in
      if not (is_goal_predicate predicate)
      then no_transition
      else if any_marker resume_markers text
      then goal_resumed
      else if any_marker cancel_markers text
      then goal_cancelled
      else if any_marker pause_markers text
      then goal_paused
      else reaffirmed prior_state

  unfoldable pub is_self_correction : String → Bool
  is_self_correction claim_text = any_marker correction_markers (casefold claim_text)

  is_disposal_phrasing : String → Bool
  is_disposal_phrasing text =
      let words = split_words text in
      any (λ v. one_of v words && any (λ q. one_of q words) disposal_particles) disposal_verbs

  unfoldable pub is_termination : String → Bool
  unfolding is_disposal_phrasing
  is_termination claim_text =
      let text = casefold claim_text in
      any_marker termination_markers text || is_disposal_phrasing text

  unfoldable pub is_resumption : String → Bool
  is_resumption claim_text = any_marker resumption_markers (casefold claim_text)

  unfoldable pub refers_to_a_goal_generically : String → Bool
  refers_to_a_goal_generically text =
      any (λ t. one_of t generic_goal_words) (alphanumeric_pieces (casefold text))

  unfoldable pub object_tokens : String → List String
  object_tokens object =
      filter (λ t. leb 3 (text_length t) && not (one_of t generic_object_tokens))
        (alphanumeric_pieces (casefold object))

  -- A claim about no goal moves no goal, and a claim about a goal always names its state.
  infer_lifecycle-transition :
      (predicate claim : String) (prior : GoalState)
      → (infer_lifecycle predicate claim prior ≡ no_transition
          → is_goal_predicate predicate ≡ false)
        × (is_goal_predicate predicate ≡ false
            → infer_lifecycle predicate claim prior ≡ no_transition)
  unfolding infer_lifecycle
  infer_lifecycle-transition predicate claim prior =
      (λ h. ground (arith, h), λ h. ground (arith, h))
