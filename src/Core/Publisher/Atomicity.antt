-- ===== src/Core/Publisher/Atomicity.antt =====
-- A refusal writes nothing, and a commit is never made twice.
use mirror_memory.Prelude.{
  ℕ, true, some, List, [], ◌∷◌, ◌++◌, ◌≡◌, ◌≢◌, sym, subst, arith, ◌||◌, Bool-cases, inl, inr,
}
use mirror_memory.Prelude.Text.{str_eq}
use mirror_memory.Prelude.Float.{FloatOps}
use mirror_memory.Core.Proposal.{Proposal, ProposalLog}
use mirror_memory.Core.Store.{Store}
use mirror_memory.Core.Publisher.Commit.{Handlers}
use mirror_memory.Core.Publisher.Publish.{
  committed, already_committed, PublishDecision, find_commit, publish, same_decision, log_row,
  without_commit, rollback,
}
use mirror_memory.Core.Publisher.Inversion.{publish-Committed}

module _ (fl : FloatOps) (h : Handlers) (now : ℕ) (p : Proposal) (s : Store) where
  -- Whatever the verdict is but a commit, the store is left as it was.
  pub publish-unchanged :
      (publish fl h now p s).0.verdict ≢ committed → (publish fl h now p s).1 ≡ s
  unfolding publish rollback
  publish-unchanged c = ground (arith, c)

find_commit-append :
    (q : Proposal) (rows : List ProposalLog) (r : ProposalLog)
    → same_decision q r ≡ true
    → (row : ProposalLog) × (find_commit q (rows ++ r ∷ []) ≡ some row)
      × (same_decision q row ≡ true)
unfolding find_commit
find_commit-append q [] r e = (r, rw e, e)
find_commit-append q (x ∷ xs) r e = elim (Bool-cases (same_decision q x)) [
  | inl t ↦ (x, rw t, t)
  | inr f ↦ let (row, found, same) = find_commit-append q xs r e in (row, rw f found, same)
]

module _ (fl : FloatOps) (h : Handlers) where
  publish-found :
      (now : ℕ) (q : Proposal) (s : Store) (row : ProposalLog)
      → find_commit q s.proposals ≡ some row
      → publish fl h now q s
        ≡ (without_commit (already_committed row.proposal_id) (some row.revision_after), s)
  unfolding publish
  publish-found now q s row e = ground arith

  -- After a commit, publishing the same proposal, or any other with its id or its idempotency key,
  -- is answered with the logged row of such a decision and changes nothing.
  pub publish-replay :
      (now later : ℕ) (p q : Proposal) (s : Store)
      → (publish fl h now p s).0.verdict ≡ committed
      → (str_eq p.proposal_id q.proposal_id || str_eq p.idempotency_key q.idempotency_key) ≡ true
      → let t = (publish fl h now p s).1 in
        (row : ProposalLog) × (same_decision q row ≡ true)
        × (publish fl h later q t
            ≡ (without_commit (already_committed row.proposal_id) (some row.revision_after), t))
  publish-replay now later p q s c same =
      let o = publish-Committed fl h now p s c in
      let (row, found, fits) =
        find_commit-append q o.inner.proposals (log_row p o.revision o.belief) same in
      (
        row,
        fits,
        publish-found later q (publish fl h now p s).1 row (
            subst (λ (d : PublishDecision × Store). find_commit q d.1.proposals ≡ some row)
              (sym o.left) found),
      )
