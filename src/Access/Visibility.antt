-- ===== src/Access/Visibility.antt =====
-- core/provenance.py: which beliefs a request may read, by the purposes that they were collected
-- under; and the same rule as the clause of a query, `_visibility_sql_predicate` of
-- core/repository.py.
use mirror_memory.Prelude.{
  ℕ, String, Bool, true, false, Option, none, some, List, [], ◌∷◌, ◌++◌, ◌&&◌, ◌||◌, not, ◌==◌, mem,
  map, filter, any, all, is_some, or_else, if◌then◌else◌,
}
use mirror_memory.Prelude.Text.{str_eq, one_of, strip, has_space}
use mirror_memory.Core.Rows.{Belief, Evidence, EvidenceLink, EvidenceDigest, BeliefEvent}
use mirror_memory.Core.Store.{Store, find_evidence}
use mirror_memory.Access.{PurposeGrant, Tables, Result, returned, raised, value_error}
use mirror_memory.Access.Authorize.{expired, blank}

abbrev pub unknown : String
unknown = ""

-- The purpose that `bind` leaves in the session, and the one that `current` reads.
unfoldable pub bind : String → Result (Option String)
bind purpose =
    if blank purpose || has_space purpose then raised value_error else returned (some purpose)

unfoldable pub current : Option String → String
current bound = or_else bound unknown

abbrev pub provenance_event_types : List String
provenance_event_types = "created" ∷ "corrected" ∷ []

-- `live` is the set's members, in some order.
pub record VisibilityRule : Type 0 where
  pub live : List String
  pub unknown_visible : Bool

unfoldable pub purpose_visible : VisibilityRule → String → Bool
purpose_visible rule purpose =
    if str_eq purpose unknown then rule.unknown_visible else one_of purpose rule.live

abbrev pub visible_purposes : VisibilityRule → List String
visible_purposes rule = rule.live ++ (if rule.unknown_visible then unknown ∷ [] else [])

-- The rows that the query of the live grants selects, and `if r[0]`.
abbrev pub is_live : ℕ → String → PurposeGrant → Bool
is_live now user g =
    str_eq g.user_id user && (not (is_some g.revoked_at) && not (expired now g.expires_at))

unfoldable pub live_purposes : ℕ → String → List PurposeGrant → List String
live_purposes now user [] = []
live_purposes now user (g ∷ gs) =
    let rest = live_purposes now user gs in
    if is_live now user g && not (str_eq g.purpose "") then g.purpose ∷ rest else rest

unfoldable pub rule_of : ℕ → Tables → String → VisibilityRule
unfolding live_purposes
rule_of now s user = record { live = live_purposes now user s.grants; unknown_visible = true }

unfoldable pub visibility : ℕ → Tables → String → Option String → Result VisibilityRule
unfolding rule_of
visibility now s user none = returned (rule_of now s user)
visibility now s user (some purpose) =
    if blank purpose || has_space (strip purpose)
    then raised value_error
    else returned (rule_of now s user)

unfoldable pub merged_visible : VisibilityRule → List String → Bool
unfolding purpose_visible
merged_visible rule purposes = all (purpose_visible rule) (filter (λ p. not (str_eq p "")) purposes)

abbrev pub is_empty : List String → Bool
is_empty [] = true
is_empty (x ∷ xs) = false

-- `_digest_text_visible`: the digest's recorded purposes, or else those of the linked evidence.
unfoldable pub digest_text_visible : VisibilityRule → Option EvidenceDigest → List Evidence → Bool
unfolding merged_visible purpose_visible
digest_text_visible rule none linked = true
digest_text_visible rule (some d) linked =
    if is_empty (filter (λ p. not (str_eq p "")) d.source_purposes)
    then all (λ e. purpose_visible rule e.source_purpose) linked
    else merged_visible rule (filter (λ p. not (str_eq p "")) d.source_purposes)

-- The source purposes of a belief's linked evidence of the user.
unfoldable pub link_purposes : String → ℕ → List Evidence → List EvidenceLink → List String
link_purposes user id evidence [] = []
link_purposes user id evidence (l ∷ ls) =
    let rest = link_purposes user id evidence ls in
    if l.belief_id == id
    then elim (find_evidence l.evidence_id evidence) [
      | none ↦ rest
      | some e ↦ if str_eq e.user_id user then e.source_purpose ∷ rest else rest
    ]
    else rest

abbrev pub is_provenance : ℕ → BeliefEvent → Bool
is_provenance id e = (e.belief_id == id) && one_of e.event_type provenance_event_types

unfoldable pub event_purposes : String → ℕ → List BeliefEvent → List String
event_purposes user id [] = []
event_purposes user id (e ∷ es) =
    let rest = event_purposes user id es in
    if is_provenance id e && str_eq e.user_id user then e.source_purpose ∷ rest else rest

unfoldable pub rule_passes : VisibilityRule → List String → List String → Bool
rule_passes rule (l ∷ ls) events = any (purpose_visible rule) (l ∷ ls)
rule_passes rule [] (e ∷ es) = any (purpose_visible rule) (e ∷ es)
rule_passes rule [] [] = rule.unknown_visible

unfoldable pub belief_is_visible : Store → String → VisibilityRule → ℕ → Bool
unfolding rule_passes link_purposes event_purposes
belief_is_visible s user rule id =
    rule_passes rule (link_purposes user id s.evidence s.links) (event_purposes user id s.events)

unfoldable pub beliefs_visible : Store → String → VisibilityRule → List Belief → List Belief
unfolding belief_is_visible
beliefs_visible s user rule beliefs = filter (λ b. belief_is_visible s user rule b.id) beliefs

-- The ids that the subquery of visible evidence selects.
unfoldable pub visible_evidence : List String → List Evidence → List ℕ
visible_evidence visible evidence =
    map (λ e. e.id) (filter (λ e. one_of e.source_purpose visible) evidence)

unfoldable pub visibility_sql_predicate : VisibilityRule → Store → ℕ → Bool
unfolding visible_evidence
visibility_sql_predicate rule s id =
    if is_empty (visible_purposes rule)
    then false
    else (let link_ok =
          any
            (λ l.
              (l.belief_id == id)
              && mem l.evidence_id (visible_evidence (visible_purposes rule) s.evidence))
            s.links in
        let any_link = any (λ l. l.belief_id == id) s.links in
        let prov_ok =
          any (λ e. is_provenance id e && one_of e.source_purpose (visible_purposes rule))
            s.events in
        let any_prov = any (is_provenance id) s.events in
        let unrecorded = rule.unknown_visible && (not any_link && not any_prov) in
        link_ok || ((not any_link && prov_ok) || unrecorded))
