-- ===== src/Worker/Branches.antt =====
-- worker/evolution.py, `enqueue_job`: a fact about what it commits, branch by branch.
use mirror_memory.Prelude.{ℕ, String, none, some, ◌≡◌, inl, inr, Bool-cases, Option-cases}
use mirror_memory.Prelude.Text.{str_eq, strip}
use mirror_memory.Worker.{EvolutionJob, first_job, update_jobs}
use mirror_memory.Worker.Snapshot.{promote_shadow_if_ready}
use mirror_memory.Worker.Enqueue.{
  EnqueueRequest, Board, Enqueued, purpose_denied, disabled, integrity_error, queued, live_job,
  stale_job, requeued, requeue_test, merge, insert, reuse_or_insert, enqueue, enqueue_job,
  is_memory_enabled, idempotency_key, current_watermark,
}

abbrev pub IfQueued : (EvolutionJob → Board → Type 0) → Enqueued → Type 0
IfQueued P purpose_denied = Unit
IfQueued P disabled = Unit
IfQueued P integrity_error = Unit
IfQueued P (queued j c) = P j c

-- The board after the promotion.
abbrev pub promoted : Board → String → Board
promoted b user = record b { snapshots = (promote_shadow_if_ready user b.beliefs b.snapshots).1 }

module _ (isoformat : ℕ → String) (dumps : String → String) (now : ℕ) (id : String)
    (r : EnqueueRequest) (b : Board) (P : EvolutionJob → Board → Type 0) where
  abbrev mark : String
  mark = dumps (current_watermark isoformat dumps r.user_id b)

  abbrev key : String
  key = idempotency_key isoformat dumps r b

  -- From the three ways in which the queue changes.
  pub enqueue_job-branches :
      ((x : EvolutionJob)
        → first_job (live_job r.tenant r.user_id) b.jobs ≡ some x
        → IfQueued P (merge r mark key x b))
      → ((x : EvolutionJob)
          → first_job (live_job r.tenant r.user_id) b.jobs ≡ none
          → first_job (stale_job r.tenant r.user_id key) b.jobs ≡ some x
          → P (requeued mark x) (record (promoted b r.user_id) {
            jobs = update_jobs (requeue_test x) (requeued mark) b.jobs;
          }))
      → (first_job (live_job r.tenant r.user_id) b.jobs ≡ none
          → first_job (stale_job r.tenant r.user_id key) b.jobs ≡ none
          → IfQueued P (insert now id r mark key (promoted b r.user_id)))
      → IfQueued P (enqueue_job isoformat dumps now id r b)
  unfolding enqueue_job enqueue reuse_or_insert
  enqueue_job-branches merging requeueing inserting =
      elim (Bool-cases (str_eq (strip r.purpose) "")) [
        | inl e ↦ rw e tt
        | inr e ↦ elim (Bool-cases (is_memory_enabled b.preferences r.user_id)) [
          | inr d ↦ rw e (rw d tt)
          | inl d ↦ rw e (rw d allowed)
        ]
      ]
    where
      allowed : IfQueued P (enqueue isoformat dumps now id r b)
      allowed = elim (Option-cases (first_job (live_job r.tenant r.user_id) b.jobs)) [
        | inr (x, found) ↦ rw (found, enqueue) (merging x found)
        | inl idle ↦ elim (Option-cases (first_job (stale_job r.tenant r.user_id key) b.jobs)) [
          | inr (x, found) ↦
              rw (idle, enqueue) (rw (found, reuse_or_insert) (requeueing x idle found))
          | inl fresh ↦ rw (idle, enqueue) (rw (fresh, reuse_or_insert) (inserting idle fresh))
        ]
      ]
