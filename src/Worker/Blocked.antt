-- ===== src/Worker/Blocked.antt =====
-- worker/evolution.py: `enqueue_job` after a job has been cancelled.
use mirror_memory.Prelude.{
  ℕ, String, Bool, true, false, none, some, List, ◌≡◌, refl, inl, inr, is_some, Option-cases, ◌&&◌,
  not, arith,
}
use mirror_memory.Prelude.Text.{str_eq, strip, eq_iff}
use mirror_memory.Worker.{
  EvolutionJob, cancelled, is_stale, JobKey, is_job, find_job, first_job, in_tenant,
}
use mirror_memory.Worker.Counting.{count-none, count-first_job, first_job-count, count_disjoint}
use mirror_memory.Worker.Enqueue.{
  EnqueueRequest, Board, integrity_error, live_job, stale_job, has_key, insert, reuse_or_insert,
  enqueue, enqueue_job, is_memory_enabled, idempotency_key,
}
use mirror_memory.Worker.Single.{IsQueue}

module _ (r : EnqueueRequest) (key : String) (q : List EvolutionJob) (w : IsQueue q) (k : JobKey)
    (x : EvolutionJob) (at : find_job k q ≡ some x) (home : in_tenant r.tenant x ≡ true)
    (ended : x.status ≡ cancelled) (same : x.idempotency_key ≡ key) where
  has : has_key r.tenant key x ≡ true
  has = ground (arith, home, same, eq_iff x.idempotency_key key)

  -- The row is neither completed nor failed, and no other has its key.
  no_stale : first_job (stale_job r.tenant r.user_id key) q ≡ none
  unfolding is_stale
  no_stale =
      let own : EvolutionJob → Bool = λ j. has_key r.tenant key j && not (is_stale j.status) in
      let split =
        count_disjoint (has_key r.tenant key) (stale_job r.tenant r.user_id key) own q
          (λ j p. ground (arith, p)) (λ j p. (ground (arith, p), ground (arith, p))) in
      let here = count-first_job (is_job k) own q x at (ground (arith, has, ended)) in
      first_job-count (stale_job r.tenant r.user_id key) q
        (ground (arith, split, here, w.one_key r.tenant key))

  taken : is_some (first_job (has_key r.tenant key) q) ≡ true
  taken = elim (Option-cases (first_job (has_key r.tenant key) q)) [
    | inr (y, e) ↦ rw e refl
    | inl e ↦ absurd (
        ground (
          arith,
          count-none (has_key r.tenant key) q e,
          count-first_job (is_job k) (has_key r.tenant key) q x at has,
        ))
  ]

-- With a purpose and with memory enabled, a call for a user with no live job raises IntegrityError
-- where a cancelled job of the tenant has the idempotency key of the call, on a queue that meets its
-- invariant: until the watermark of the beliefs moves, the user gets no further job.
pub enqueue_job-cancelled :
    (isoformat : ℕ → String) (dumps : String → String) (now : ℕ) (id : String) (r : EnqueueRequest)
    (b : Board) (k : JobKey) (x : EvolutionJob)
    → IsQueue b.jobs
    → str_eq (strip r.purpose) "" ≡ false
    → is_memory_enabled b.preferences r.user_id ≡ true
    → first_job (live_job r.tenant r.user_id) b.jobs ≡ none
    → find_job k b.jobs ≡ some x
    → in_tenant r.tenant x ≡ true
    → x.status ≡ cancelled
    → x.idempotency_key ≡ idempotency_key isoformat dumps r b
    → enqueue_job isoformat dumps now id r b ≡ integrity_error
unfolding enqueue_job enqueue reuse_or_insert insert
enqueue_job-cancelled isoformat dumps now id r b k x w named on idle at home ended same =
    let key = idempotency_key isoformat dumps r b in
    let fresh = no_stale r key b.jobs w k x at home ended same in
    let held = taken r key b.jobs w k x at home ended same in
    rw named (rw on (rw (idle, enqueue) (rw (fresh, reuse_or_insert) (ground (arith, held)))))
