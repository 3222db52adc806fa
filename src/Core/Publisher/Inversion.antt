-- ===== src/Core/Publisher/Inversion.antt =====
-- What a commit went through: lemmas that the properties of the Publisher share.
use mirror_memory.Prelude.{ℕ, Option, none, some, ◌≡◌, ◌≢◌, refl, subst, arith}
use mirror_memory.Prelude.Float.{FloatOps}
use mirror_memory.Core.Proposal.{Proposal, ProposalLog}
use mirror_memory.Core.Store.{Store}
use mirror_memory.Core.Publisher.Gates.{Refusal, check_gates}
use mirror_memory.Core.Publisher.Commit.{Outcome, done, stale, raised, Handlers, commit}
use mirror_memory.Core.Publisher.Publish.{committed, find_commit, publish, record_commit, settle}

module _ (fl : FloatOps) (h : Handlers) (now : ℕ) (p : Proposal) (s : Store) where
  pub record Committed : Type 0 where
    pub fresh : find_commit p s.proposals ≡ none
    pub passed : check_gates fl s p ≡ none
    pub revision : ℕ
    pub belief : Option ℕ
    pub inner : Store
    pub ran : commit fl h now p s ≡ done (revision, belief) inner
    pub left : publish fl h now p s ≡ (
      record { verdict = committed; revision_after = some revision; belief_id = belief },
      record_commit p revision belief inner,
    )

  settle-Committed :
      (o : Outcome (ℕ × Option ℕ))
      → commit fl h now p s ≡ o
      → find_commit p s.proposals ≡ none
      → check_gates fl s p ≡ none
      → publish fl h now p s ≡ settle p s o
      → (settle p s o).0.verdict ≡ committed
      → Committed
  settle-Committed (done (r, id) t) ran f g e c = record {
    fresh = f;
    passed = g;
    revision = r;
    belief = id;
    inner = t;
    ran = ran;
    left = e;
  }
  settle-Committed (stale t) ran f g e c = cc
  settle-Committed (raised x t) ran f g e c = cc

  replayed :
      (row : ProposalLog)
      → find_commit p s.proposals ≡ some row
      → (publish fl h now p s).0.verdict ≢ committed
  unfolding publish
  replayed row e = ground arith

  turned_down :
      (why : Refusal)
      → find_commit p s.proposals ≡ none
      → check_gates fl s p ≡ some why
      → (publish fl h now p s).0.verdict ≢ committed
  unfolding publish
  turned_down why e g = ground arith

  tried :
      find_commit p s.proposals ≡ none
      → check_gates fl s p ≡ none
      → publish fl h now p s ≡ settle p s (commit fl h now p s)
  unfolding publish
  tried e g = ground arith

  pub publish-Committed : (publish fl h now p s).0.verdict ≡ committed → Committed
  publish-Committed c = by_log (find_commit p s.proposals) refl
    where
      by_gates :
          (o : Option Refusal)
          → find_commit p s.proposals ≡ none
          → check_gates fl s p ≡ o
          → Committed
      by_gates (some why) e g = absurd (turned_down why e g c)
      by_gates none e g =
          settle-Committed (commit fl h now p s) refl e g (tried e g)
            (subst (λ d. d.0.verdict ≡ committed) (tried e g) c)

      by_log : (o : Option ProposalLog) → find_commit p s.proposals ≡ o → Committed
      by_log (some row) e = absurd (replayed row e c)
      by_log none e = by_gates (check_gates fl s p) e refl
