-- ===== src/Core/Publisher/Revisions.antt =====
-- core/publisher.py: a commit and the state revision of its user.
use mirror_memory.Prelude.{
  ℕ, ◌+◌, String, Bool, true, false, Option, none, some, ◌≡◌, ◌≢◌, refl, ap, ◌∙◌, subst, arith,
  or_else, if◌then◌else◌, Bool-cases, ◌⊎◌, inl, inr,
}
use mirror_memory.Prelude.Text.{str_eq, eq_refl}
use mirror_memory.Prelude.Float.{FloatOps}
use mirror_memory.Core.Proposal.{
  Proposal, Transition, create, support, update, contradict, verify, correct, forget, synthesize,
  tier_transition, evidence_compact, reject, confirm_rate, is_truth, is_value,
}
use mirror_memory.Core.Store.{Store}
use mirror_memory.Core.Repository.Revision.{
  get_state_revision, get_state_revision-cong, cas_bump_state_revision, cas-inv, cas-revision,
}
use mirror_memory.Core.Repository.Tiers.{set_belief_tier}
use mirror_memory.Core.Repository.Verification.{confirm_belief, reject_belief, close_open_versions}
use mirror_memory.Core.Repository.Compaction.{apply_evidence_compaction}
use mirror_memory.Core.Publisher.Commit.{
  Outcome, done, stale, raised, ◌>>=◌, Handlers, handle, ledger, swap, finish, rest, commit,
}
use mirror_memory.Core.Publisher.Publish.{committed, publish}
use mirror_memory.Core.Publisher.Inversion.{publish-Committed}

-- A step that leaves consent and revisions alone, where it returns.
abbrev pub Keeps {ℓ} : {A : Type ℓ} → Outcome A → Store → Type 0
Keeps (done a t) s = t.preferences ≡ s.preferences
Keeps (stale t) s = Unit
Keeps (raised e t) s = Unit

-- The handler of the transition is a field of `Handlers`, or it writes the ledger by one.
unfoldable pub is_delegated : Transition → Bool
is_delegated verify = false
is_delegated reject = false
is_delegated tier_transition = false
is_delegated evidence_compact = false
is_delegated confirm_rate = false
is_delegated _ = true

is_value-is_delegated : (t : Transition) → is_value t ≡ true → is_delegated t ≡ true
unfolding is_value is_delegated
is_value-is_delegated t h = ground arith

module _ (fl : FloatOps) (h : Handlers) where
  handle-Keeps :
      (t : Transition) (p : Proposal) (s : Store)
      → p.transition ≡ t
      → is_delegated t ≡ false
      → Keeps (handle fl h p s) s
  unfolding is_delegated handle set_belief_tier confirm_belief reject_belief
      apply_evidence_compaction
  handle-Keeps create p s e m = absurd (ground (arith, m))
  handle-Keeps support p s e m = absurd (ground (arith, m))
  handle-Keeps update p s e m = absurd (ground (arith, m))
  handle-Keeps contradict p s e m = absurd (ground (arith, m))
  handle-Keeps correct p s e m = absurd (ground (arith, m))
  handle-Keeps forget p s e m = absurd (ground (arith, m))
  handle-Keeps synthesize p s e m = absurd (ground (arith, m))
  handle-Keeps verify p s e m = rw (e, handle) (ground arith)
  handle-Keeps reject p s e m = rw (e, handle) (ground arith)
  handle-Keeps tier_transition p s e m = rw (e, handle) (ground arith)
  handle-Keeps evidence_compact p s e m = rw (e, handle) (ground arith)
  handle-Keeps confirm_rate p s e m = rw (e, handle) (ground arith)

  ledger-Keeps :
      (now : ℕ) (p : Proposal) (id : Option ℕ) (s : Store)
      → is_delegated p.transition ≡ false
      → Keeps {0} (ledger fl h now p id s) s
  unfolding close_open_versions
  ledger-Keeps now p none s m = refl
  ledger-Keeps now p (some id) s m = elim (Bool-cases (is_value p.transition)) [
    | inl e ↦ absurd (ground (arith, m, is_value-is_delegated p.transition e))
    | inr e ↦ rw e (other_ledger p.transition)
  ]
    where
      other_ledger :
          (t : Transition)
          → Keeps {0} (elim t [ reject ↦ done tt (close_open_versions now id s) | _ ↦ done tt s ]) s
      other_ledger reject = refl
      other_ledger _ = refl

  -- What a commit ends with, after the swap has left `t`: the revision that it reports, and the
  -- preferences.
  abbrev Ends : Proposal → Option ℕ → Store → Outcome (ℕ × Option ℕ) → Type 0
  Ends p revision t (done (r, id) v) =
      (v.preferences ≡ t.preferences) × (r ≡ or_else revision (get_state_revision t p.user_id))
  Ends p revision t (stale v) = Unit
  Ends p revision t (raised e v) = Unit

  commit-Ends :
      (now : ℕ) (p : Proposal) (revision : Option ℕ) (t : Store)
      → is_delegated p.transition ≡ false
      → Ends p revision t (rest fl h now p revision t)
  commit-Ends now p revision t m = handled (handle fl h p t) (handle-Keeps p.transition p t refl m)
    where
      closed :
          (id : Option ℕ) (u : Store) (o : Outcome (Unit {0}))
          → u.preferences ≡ t.preferences
          → Keeps o u
          → Ends p revision t (o >>= λ _ v. finish fl h p revision id v)
      closed id u (done a v) k l =
          (l ∙ k, ap (or_else revision) (get_state_revision-cong v t p.user_id (l ∙ k)))
      closed id u (stale v) k l = tt
      closed id u (raised e v) k l = tt

      handled :
          (o : Outcome (Option ℕ))
          → Keeps o t
          → Ends p revision t
              (o >>= λ id u. ledger fl h now p id u >>= λ _ v. finish fl h p revision id v)
      handled (done id u) k = closed id u (ledger fl h now p id u) k (ledger-Keeps now p id u m)
      handled (stale v) k = tt
      handled (raised e v) k = tt

  -- A lost swap, or one that found the expected revision.
  abbrev Swapped : Proposal → Store → Type 0
  Swapped p s =
      (swap fl h p s ≡ stale (cas_bump_state_revision s p.user_id p.expected_revision).1)
      ⊎ ((get_state_revision s p.user_id ≡ p.expected_revision)
          × (swap fl h p s
              ≡ done (some (p.expected_revision + 1))
                  (cas_bump_state_revision s p.user_id p.expected_revision).1))

  swap-truth : (p : Proposal) (s : Store) → is_truth p.transition ≡ true → Swapped p s
  swap-truth p s e = by_result (cas_bump_state_revision s p.user_id p.expected_revision).0 refl
    where
      by_result :
          (o : Option ℕ)
          → (cas_bump_state_revision s p.user_id p.expected_revision).0 ≡ o
          → Swapped p s
      by_result none w = inl (rw e (rw w refl))
      by_result (some n) w =
          let (g, k) = cas-inv s p.user_id p.expected_revision w in
          inr (
            g,
            rw e (
                rw w (
                  ap
                    (λ (m : ℕ).
                      done (some m) (cas_bump_state_revision s p.user_id p.expected_revision).1)
                    k)),
          )

  module _ (now : ℕ) (p : Proposal) (s : Store) (r : ℕ) (id : Option ℕ) (v : Store)
      (ran : commit fl h now p s ≡ done (r, id) v) where
    after :
        (revision : Option ℕ) (t : Store)
        → swap fl h p s ≡ done revision t
        → is_delegated p.transition ≡ false
        → Ends p revision t (done (r, id) v)
    unfolding commit
    after revision t e m =
        subst (Ends p revision t)
          (subst (λ (o : Outcome (Option ℕ)). (o >>= rest fl h now p) ≡ done (r, id) v) e ran)
          (commit-Ends now p revision t m)

    not_stale : swap fl h p s ≢ stale (cas_bump_state_revision s p.user_id p.expected_revision).1
    unfolding commit
    not_stale e =
        cc (subst (λ (o : Outcome (Option ℕ)). (o >>= rest fl h now p) ≡ done (r, id) v) e ran)

    commit-live :
        is_truth p.transition ≡ true → get_state_revision s p.user_id ≡ p.expected_revision
    commit-live e = elim (swap-truth p s e) [ inl w ↦ absurd (not_stale w) | inr (g, w) ↦ g ]

    commit-truth :
        is_truth p.transition ≡ true
        → is_delegated p.transition ≡ false
        → (get_state_revision s p.user_id ≡ p.expected_revision)
          × (r ≡ p.expected_revision + 1)
          × (v.preferences
              ≡ (cas_bump_state_revision s p.user_id p.expected_revision).1.preferences)
    commit-truth e m = elim (swap-truth p s e) [
      | inl w ↦ absurd (not_stale w)
      | inr (g, w) ↦ let (k, l) = after _ _ w m in (g, l, k)
    ]

    commit-storage :
        is_truth p.transition ≡ false
        → is_delegated p.transition ≡ false
        → (r ≡ get_state_revision s p.user_id) × (v.preferences ≡ s.preferences)
    commit-storage e m = let (k, l) = after none s (rw e) m in (l, k)

  -- A truth transition of any kind commits only where it was computed against the live revision.
  publish-live :
      (now : ℕ) (p : Proposal) (s : Store)
      → (publish fl h now p s).0.verdict ≡ committed
      → is_truth p.transition ≡ true
      → get_state_revision s p.user_id ≡ p.expected_revision
  publish-live now p s c e =
      let o = publish-Committed fl h now p s c in
      commit-live now p s o.revision o.belief o.inner o.ran e

  -- A committed verification or rejection was computed against the live revision; it reports the next
  -- one, its user is at the next one afterwards, and no other user's revision has moved.
  pub publish-truth :
      (now : ℕ) (p : Proposal) (s : Store)
      → (publish fl h now p s).0.verdict ≡ committed
      → is_truth p.transition ≡ true
      → is_delegated p.transition ≡ false
      → (get_state_revision s p.user_id ≡ p.expected_revision)
        × ((publish fl h now p s).0.revision_after ≡ some (p.expected_revision + 1))
        × ((u : String)
            → get_state_revision (publish fl h now p s).1 u
              ≡ (if str_eq u p.user_id then p.expected_revision + 1 else get_state_revision s u))
  publish-truth now p s c e m =
      let o = publish-Committed fl h now p s c in
      let (live, next, kept) = commit-truth now p s o.revision o.belief o.inner o.ran e m in
      (
        live,
        rw o.left (ap some next),
        λ u. rw o.left (
            get_state_revision-cong _ _ u kept
            ∙ cas-revision s p.user_id p.expected_revision u live),
      )

  -- A committed move between tiers, compaction or confirmation rate moves no user's revision, and
  -- reports the live one.
  pub publish-storage :
      (now : ℕ) (p : Proposal) (s : Store)
      → (publish fl h now p s).0.verdict ≡ committed
      → is_truth p.transition ≡ false
      → is_delegated p.transition ≡ false
      → ((publish fl h now p s).0.revision_after ≡ some (get_state_revision s p.user_id))
        × ((u : String) → get_state_revision (publish fl h now p s).1 u ≡ get_state_revision s u)
  publish-storage now p s c e m =
      let o = publish-Committed fl h now p s c in
      let (next, kept) = commit-storage now p s o.revision o.belief o.inner o.ran e m in
      (rw o.left (ap some next), λ u. rw o.left (get_state_revision-cong _ _ u kept))

  own_revision :
      (p : Proposal) (s : Store)
      → (if str_eq p.user_id p.user_id
          then p.expected_revision + 1
          else get_state_revision s p.user_id)
        ≡ p.expected_revision + 1
  own_revision p s = rw (eq_refl p.user_id)

  -- After a committed verification or rejection, no truth proposal of its user that was computed
  -- against the same revision can commit, whatever its transition.
  pub publish-stale_loses :
      (now later : ℕ) (p q : Proposal) (s : Store)
      → (publish fl h now p s).0.verdict ≡ committed
      → is_truth p.transition ≡ true
      → is_delegated p.transition ≡ false
      → is_truth q.transition ≡ true
      → q.user_id ≡ p.user_id
      → q.expected_revision ≡ p.expected_revision
      → (publish fl h later q (publish fl h now p s).1).0.verdict ≢ committed
  publish-stale_loses now later p q s c tp mp tq u r d =
      let t : Store = (publish fl h now p s).1 in
      let moved : get_state_revision t p.user_id ≡ p.expected_revision + 1 =
        (publish-truth now p s c tp mp).2 p.user_id ∙ own_revision p s in
      omega (arith, moved, ap (get_state_revision t) u, publish-live later q t d tq)
