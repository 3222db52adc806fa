-- ===== src/Core/Publisher/Guards.antt =====
-- What a committed proposal has passed: consent, evidence, and the state of its target.
use mirror_memory.Prelude.{
  ℕ, String, Bool, true, false, not, Option, none, some, List, ◌≡◌, ◌≢◌, ◌⊎◌, subst, arith, length,
  any, mem,
}
use mirror_memory.Prelude.Text.{str_eq}
use mirror_memory.Prelude.Sort.{dedupe}
use mirror_memory.Prelude.Float.{FloatOps}
use mirror_memory.Core.Rows.{Belief, Evidence, superseded, rejected}
use mirror_memory.Core.Proposal.{
  Proposal, create, update, forget, synthesize, tier_transition, evidence_compact,
}
use mirror_memory.Core.Store.{Store, target_of, find_evidence}
use mirror_memory.Core.Store.Keys.{IsDistinct, evidence_ids, evidence-IsFound, cited_passes}
use mirror_memory.Core.Repository.Revision.{is_memory_enabled, get_state_revision}
use mirror_memory.Core.Publisher.Gates.{
  consent_gate, revision_gate, evidence_gate, session_gate, is_foreign, check_tier_invariants,
  check_compact_invariants, check_invariants, check_gates, cited,
}
use mirror_memory.Core.Publisher.Commit.{Handlers}
use mirror_memory.Core.Publisher.Publish.{committed, publish}
use mirror_memory.Core.Publisher.Inversion.{publish-Committed}

no_foreign :
    (session : Option String) (rows : List Evidence) (x : String)
    → session ≡ some x
    → str_eq x "" ≡ false
    → session_gate session rows ≡ none
    → any (λ r. is_foreign x r.session_id) rows ≡ false
no_foreign session rows x e n g = passes (subst (λ o. session_gate o rows ≡ none) e g)
  where
    passes : session_gate (some x) rows ≡ none → any (λ r. is_foreign x r.session_id) rows ≡ false
    passes k = unfold session_gate in ground (arith, n, k)

foreign_session :
    (x y : String) (o : Option String)
    → o ≡ some y
    → str_eq y "" ≡ false
    → str_eq y x ≡ false
    → is_foreign x o ≡ true
unfolding is_foreign
foreign_session x y o e n d = rw e (ground (arith, n, d))

module _ (fl : FloatOps) (h : Handlers) (now : ℕ) (p : Proposal) (s : Store)
    (won : (publish fl h now p s).0.verdict ≡ committed) where
  pub gates_passed :
      (consent_gate p s ≡ none)
      × (revision_gate p (get_state_revision s p.user_id) ≡ none)
      × (evidence_gate p s ≡ none)
      × (check_invariants fl s p ≡ none)
  unfolding check_gates
  gates_passed = ground (arith, (publish-Committed fl h now p s won).passed)

  -- With memory disabled only a deletion commits.
  publish-consent : (p.transition ≡ forget) ⊎ (is_memory_enabled s p.user_id ≡ true)
  unfolding consent_gate
  publish-consent = ground (arith, gates_passed)

  evidence_parts :
      (a : ℕ)
      → mem a p.evidence_ids ≡ true
      → (length (cited p s) ≡ length (dedupe p.evidence_ids))
        × (any (λ e. not (str_eq e.user_id p.user_id)) (cited p s) ≡ false)
        × (session_gate p.session_id (cited p s) ≡ none)
  unfolding evidence_gate
  evidence_parts a m = ground (arith, gates_passed, m)

  -- The evidence of a session other than the proposal's, where both are named.
  abbrev pub IsForeign : Evidence → Type 0
  IsForeign e =
      (x : String) × (y : String) × (p.session_id ≡ some x)
      × (e.session_id ≡ some y)
      × (str_eq x "" ≡ false)
      × (str_eq y "" ≡ false)
      × (str_eq y x ≡ false)

  -- Every evidence id that a committed proposal cites is that of a row, which belongs to the proposal's user, and to the
  -- proposal's session where both name one. This takes that no two rows
  -- of the evidence have the same id.
  pub publish-evidence :
      (a : ℕ)
      → IsDistinct (evidence_ids s.evidence)
      → mem a p.evidence_ids ≡ true
      → (e : Evidence) × (find_evidence a s.evidence ≡ some e)
        × (str_eq e.user_id p.user_id ≡ true)
        × (¬ IsForeign e)
  publish-evidence a v m =
      let (all_there, all_own, same_session) = evidence_parts a m in
      let (e, at) = evidence-IsFound p.evidence_ids s.evidence a v all_there m in
      (
        e,
        at,
        of_not (str_eq e.user_id p.user_id) (
            cited_passes (λ x. not (str_eq x.user_id p.user_id)) p.evidence_ids s.evidence a all_own
              at m),
        λ (x, y, px, ey, nx, ny, d).
            foreign_refused x y e px ey nx ny d (λ g.
              cited_passes (λ r. is_foreign x r.session_id) p.evidence_ids s.evidence a g at m),
      )
    where
      of_not : (b : Bool) → not b ≡ false → b ≡ true
      of_not b k = ground arith

      foreign_refused :
          (x y : String) (e : Evidence)
          → p.session_id ≡ some x
          → e.session_id ≡ some y
          → str_eq x "" ≡ false
          → str_eq y "" ≡ false
          → str_eq y x ≡ false
          → (any (λ r. is_foreign x r.session_id) (cited p s) ≡ false
              → is_foreign x e.session_id ≡ false)
          → ⊥
      foreign_refused x y e px ey nx ny d k = cc (
        k (no_foreign p.session_id (cited p s) x px nx (evidence_parts a m).2),
        foreign_session x y e.session_id ey ny d,
      )

  -- A rejected belief is no target of a committed proposal but of one that forgets it; creating a
  -- belief and writing a snapshot look at no target.
  pub publish-rejected :
      (b : Belief)
      → target_of p.target_belief_id s ≡ some b
      → b.status ≡ rejected
      → (p.transition ≡ forget) ⊎ ((p.transition ≡ create) ⊎ (p.transition ≡ synthesize))
  unfolding check_invariants check_tier_invariants check_compact_invariants
  publish-rejected b t r = ground (arith, gates_passed, t, r)

  -- What commits on a superseded belief is an update that revives it, a deletion, a storage move or a
  -- compaction; creating a belief and writing a snapshot look at no target.
  publish-superseded :
      (b : Belief)
      → target_of p.target_belief_id s ≡ some b
      → b.status ≡ superseded
      → ((p.transition ≡ update) × (p.payload.revival ≡ true))
        ⊎ ((p.transition ≡ forget)
            ⊎ ((p.transition ≡ tier_transition)
                ⊎ ((p.transition ≡ evidence_compact)
                    ⊎ ((p.transition ≡ create) ⊎ (p.transition ≡ synthesize)))))
  unfolding check_invariants
  publish-superseded b t r = ground (arith, gates_passed, t, r)

  -- The target of a committed proposal is one of its own user's beliefs, unless the proposal creates a
  -- belief or writes a snapshot, which look at no target.
  pub publish-owned :
      (b : Belief)
      → target_of p.target_belief_id s ≡ some b
      → p.transition ≢ create
      → p.transition ≢ synthesize
      → str_eq b.user_id p.user_id ≡ true
  unfolding check_invariants check_tier_invariants check_compact_invariants
  publish-owned b t c y = ground (arith, gates_passed, t)
