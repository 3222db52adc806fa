-- ===== src/Access/Clause.antt =====
-- core/repository.py, `_visibility_sql_predicate`, against the rule of core/provenance.py that it
-- stands for.
use mirror_memory.Prelude.{
  ℕ, String, Bool, true, false, none, some, List, [], ◌∷◌, ◌++◌, ◌&&◌, ◌||◌, not, ◌==◌, mem, map,
  filter, any, all, ◌≡◌, refl, ap, ◌∙◌, sym, inl, inr, Bool-cases, Option-cases, arith,
  if◌then◌else◌, ==_iff, some_eq,
}
use mirror_memory.Prelude.Text.{str_eq, one_of, eq_iff}
use mirror_memory.Core.Rows.{Evidence, EvidenceLink, BeliefEvent}
use mirror_memory.Core.Store.{Store, find_evidence}
use mirror_memory.Core.Store.Keys.{IsDistinct}
use mirror_memory.Access.Visibility.{
  VisibilityRule, unknown, purpose_visible, visible_purposes, link_purposes, event_purposes,
  is_provenance, rule_passes, belief_is_visible, visible_evidence, visibility_sql_predicate,
  is_empty,
}

-- The foreign keys of the rows about one belief of a user: every link leads to evidence of the user,
-- and every event is the user's.
abbrev pub leads_to : String → List Evidence → EvidenceLink → Bool
leads_to user evidence l = elim (find_evidence l.evidence_id evidence) [
  | none ↦ false
  | some e ↦ str_eq e.user_id user
]

abbrev pub links_owned : String → ℕ → List Evidence → List EvidenceLink → Bool
links_owned user id evidence =
    all (λ l. if l.belief_id == id then leads_to user evidence l else true)

abbrev pub events_owned : String → ℕ → List BeliefEvent → Bool
events_owned user id = all (λ e. if e.belief_id == id then str_eq e.user_id user else true)

one_of-append :
    (p : String) (xs ys : List String) → one_of p (xs ++ ys) ≡ (one_of p xs || one_of p ys)
one_of-append p [] ys = refl
one_of-append p (x ∷ xs) ys = ground (arith, one_of-append p xs ys)

-- Membership in the visible purposes is the test of one purpose.
one_of-visible_purposes :
    (rule : VisibilityRule) (p : String)
    → one_of unknown rule.live ≡ false
    → one_of p (visible_purposes rule) ≡ purpose_visible rule p
unfolding purpose_visible
one_of-visible_purposes rule p h = elim (Bool-cases (str_eq p unknown)) [
  | inl e ↦
      one_of-append p rule.live (if rule.unknown_visible then unknown ∷ [] else [])
      ∙ ground (arith, e, h, ap (λ q. one_of q rule.live) ((eq_iff p unknown).0 e))
  | inr e ↦
      one_of-append p rule.live (if rule.unknown_visible then unknown ∷ [] else [])
      ∙ ground (arith, e)
]

mem-filtered :
    (p : Evidence → Bool) (a : ℕ) (xs : List Evidence)
    → mem a (map (λ x. x.id) xs) ≡ false
    → mem a (map (λ x. x.id) (filter p xs)) ≡ false
mem-filtered p a [] h = refl
mem-filtered p a (x ∷ xs) h = ground (arith, h, mem-filtered p a xs)

module _ (visible : List String) where
  mem-visible_evidence :
      (a : ℕ) (ev : List Evidence) (e : Evidence)
      → IsDistinct (map (λ x. x.id) ev)
      → find_evidence a ev ≡ some e
      → mem a (visible_evidence visible ev) ≡ one_of e.source_purpose visible
  unfolding visible_evidence find_evidence
  mem-visible_evidence a [] e d f = absurd (ground (arith, f))
  mem-visible_evidence a (x ∷ xs) e d f = elim (Bool-cases (x.id == a)) [
    | inl k ↦ ground (
      arith,
      k,
      mem-filtered (λ y. one_of y.source_purpose visible) x.id xs d.0,
      ap (λ b. mem b (visible_evidence visible xs)) ((==_iff x.id a).0 k),
      ap (λ y. one_of y.source_purpose visible)
          (some_eq {x = x} {y = e} (sym (rw (k, find_evidence) refl) ∙ f)),
    )
    | inr k ↦ ground (arith, k, d, f, mem-visible_evidence a xs e)
  ]

  module _ (user : String) (id : ℕ) (ev : List Evidence)
      (keys : IsDistinct (map (λ x. x.id) ev)) where
    link_ok :
        (ls : List EvidenceLink)
        → links_owned user id ev ls ≡ true
        → any (λ l. (l.belief_id == id) && mem l.evidence_id (visible_evidence visible ev)) ls
          ≡ any (λ p. one_of p visible) (link_purposes user id ev ls)
    unfolding link_purposes
    link_ok [] h = refl
    link_ok (l ∷ ls) h = elim (Bool-cases (l.belief_id == id)) [
      | inr k ↦ ground (arith, k, h, link_ok ls)
      | inl k ↦ elim (Option-cases (find_evidence l.evidence_id ev)) [
        | inl f ↦ absurd (ground (arith, k, f, h))
        | inr (e, f) ↦
            ground (arith, k, f, h, link_ok ls, mem-visible_evidence l.evidence_id ev e keys f)
      ]
    ]

    any_link :
        (ls : List EvidenceLink)
        → links_owned user id ev ls ≡ true
        → any (λ l. l.belief_id == id) ls ≡ not (is_empty (link_purposes user id ev ls))
    unfolding link_purposes
    any_link [] h = refl
    any_link (l ∷ ls) h = elim (Bool-cases (l.belief_id == id)) [
      | inr k ↦ ground (arith, k, h, any_link ls)
      | inl k ↦ elim (Option-cases (find_evidence l.evidence_id ev)) [
        | inl f ↦ absurd (ground (arith, k, f, h))
        | inr (e, f) ↦ ground (arith, k, f, h)
      ]
    ]

  module _ (user : String) (id : ℕ) where
    prov_ok :
        (es : List BeliefEvent)
        → events_owned user id es ≡ true
        → any (λ e. is_provenance id e && one_of e.source_purpose visible) es
          ≡ any (λ p. one_of p visible) (event_purposes user id es)
    unfolding event_purposes
    prov_ok [] h = refl
    prov_ok (e ∷ es) h = ground (arith, h, prov_ok es)

    any_prov :
        (es : List BeliefEvent)
        → events_owned user id es ≡ true
        → any (is_provenance id) es ≡ not (is_empty (event_purposes user id es))
    unfolding event_purposes
    any_prov [] h = refl
    any_prov (e ∷ es) h = ground (arith, h, any_prov es)

-- The clause in terms of the purposes recorded.
abbrev by_purposes : VisibilityRule → List String → List String → Bool
by_purposes rule links events =
    let test = any (λ p. one_of p (visible_purposes rule)) in
    test links
    || ((not (not (is_empty links)) && test events)
        || (rule.unknown_visible && (not (not (is_empty links)) && not (not (is_empty events)))))

module _ (rule : VisibilityRule) (recorded : one_of unknown rule.live ≡ false) where
  any-visible :
      (ps : List String)
      → any (λ p. one_of p (visible_purposes rule)) ps ≡ any (purpose_visible rule) ps
  any-visible [] = refl
  any-visible (p ∷ ps) = ground (arith, one_of-visible_purposes rule p recorded, any-visible ps)

  by_purposes-rule_passes :
      (links events : List String) → by_purposes rule links events ≡ rule_passes rule links events
  unfolding rule_passes
  by_purposes-rule_passes [] [] = ground arith
  by_purposes-rule_passes [] (e ∷ es) = ground (arith, any-visible (e ∷ es))
  by_purposes-rule_passes (l ∷ ls) events = ground (arith, any-visible (l ∷ ls))

any-empty :
    (visible ps : List String) → is_empty visible ≡ true → any (λ p. one_of p visible) ps ≡ false
any-empty [] [] e = refl
any-empty [] (p ∷ ps) e = any-empty [] ps e
any-empty (v ∷ vs) ps e = absurd (ground (arith, e))

unknown-empty :
    (live : List String) (b : Bool)
    → is_empty (live ++ (if b then unknown ∷ [] else [])) ≡ true
    → b ≡ false
unknown-empty [] b e = ground (arith, e)
unknown-empty (x ∷ xs) b e = absurd (ground (arith, e))

by_purposes-empty :
    (rule : VisibilityRule) (links events : List String)
    → is_empty (visible_purposes rule) ≡ true
    → by_purposes rule links events ≡ false
by_purposes-empty rule links events e = ground (
  arith,
  any-empty (visible_purposes rule) links e,
  any-empty (visible_purposes rule) events e,
  unknown-empty rule.live rule.unknown_visible e,
)

-- For a belief whose links lead to evidence of the user and whose events are the user's, evidence
-- having distinct ids and the empty purpose not being live, the clause of the query selects the
-- belief exactly when the rule in memory shows it.
pub visibility_sql_predicate-belief_is_visible :
    (s : Store) (user : String) (rule : VisibilityRule) (id : ℕ)
    → IsDistinct (map (λ x. x.id) s.evidence)
    → one_of unknown rule.live ≡ false
    → links_owned user id s.evidence s.links ≡ true
    → events_owned user id s.events ≡ true
    → visibility_sql_predicate rule s id ≡ belief_is_visible s user rule id
unfolding visibility_sql_predicate belief_is_visible
visibility_sql_predicate-belief_is_visible s user rule id keys recorded links events =
    elim (Bool-cases (is_empty (visible_purposes rule))) [
      | inl e ↦
          let links_of = link_purposes user id s.evidence s.links in
          let events_of = event_purposes user id s.events in
          rw e (
            sym (by_purposes-empty rule links_of events_of e)
            ∙ by_purposes-rule_passes rule recorded links_of events_of)
      | inr e ↦ rw e (
          rw (link_ok (visible_purposes rule) user id s.evidence keys s.links links) (
            rw (any_link (visible_purposes rule) user id s.evidence keys s.links links) (
              rw (prov_ok (visible_purposes rule) user id s.events events) (
                rw (any_prov (visible_purposes rule) user id s.events events) (
                  by_purposes-rule_passes rule recorded (link_purposes user id s.evidence s.links)
                    (event_purposes user id s.events))))))
    ]
