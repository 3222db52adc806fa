-- ===== src/Worker/Exhausted.antt =====
-- worker/evolution.py: a job that always fails is given up after its last attempt.
use mirror_memory.Prelude.{
  ℕ, zero, suc, ◌+◌, String, true, false, some, List, ◌≡◌, refl, ◌==◌, leb, arith,
}
use mirror_memory.Worker.{
  EvolutionJob, code, failed, is_pending, JobKey, is_job, find_job, count_jobs,
}
use mirror_memory.Worker.Counting.{first_job-update, first_job-passes, count-first_job}
use mirror_memory.Worker.Lease.{claim_job, claimed, claimable, changed, held, set_job_state}
use mirror_memory.Worker.Enqueue.{key_of}
use mirror_memory.Worker.Single.{is_job-key_of}
use mirror_memory.Worker.Process.{Desk, Trouble, failure_changes, settle_failure}
use mirror_memory.Worker.Tick.{WorkerConfig, shift_of}
use mirror_memory.Worker.Retries.{end_of, fail_claimed, fail_once, fail_times}

module _ (cfg : WorkerConfig) (now : ℕ) (name : String) (k : JobKey) where
  abbrev trouble : Trouble
  trouble = record { name = name; busy = false }

  -- The row after an attempt that failed.
  abbrev after_failure : EvolutionJob → EvolutionJob
  after_failure x =
      let c = claimed now cfg.job_lease_seconds x in
      changed (failure_changes now (shift_of cfg c.lease_token c) trouble) c

  find_job-claim_job :
      (q : List EvolutionJob) (x : EvolutionJob)
      → find_job k q ≡ some x
      → is_pending x.status ≡ true
      → (find_job k (claim_job now cfg.job_lease_seconds k q).1
          ≡ some (claimed now cfg.job_lease_seconds x))
        × ((claim_job now cfg.job_lease_seconds k q).0 ≡ some (x.lease_token + 1))
  unfolding claim_job is_job
  find_job-claim_job q x found waiting =
      let at = first_job-passes (is_job k) q x found in
      let some_row =
        count-first_job (is_job k) (claimable k) q x found (ground (arith, at, waiting)) in
      let row =
        first_job-update (is_job k) (claimable k) (claimed now cfg.job_lease_seconds) q x
          (λ j. refl) (ground (arith, at, waiting)) found in
      let nz : (count_jobs (claimable k) q == 0) ≡ false = ground (arith, some_row) in
      (row, rw row (rw nz refl))

  find_job-settle_failure :
      (j : EvolutionJob) (d : Desk)
      → find_job k d.jobs ≡ some j
      → find_job k (end_of (settle_failure now (shift_of cfg j.lease_token j) true trouble d)).jobs
        ≡ some (changed (failure_changes now (shift_of cfg j.lease_token j) trouble) j)
  unfolding settle_failure set_job_state is_job
  find_job-settle_failure j d found =
      let w = shift_of cfg j.lease_token j in
      let fits = held (key_of j) (some j.lease_token) in
      let at = is_job-key_of j in
      let some_row = count-first_job (is_job k) fits d.jobs j found (ground (arith, at)) in
      let nz : (count_jobs fits d.jobs == 0) ≡ false = ground (arith, some_row) in
      rw nz (
        first_job-update (is_job k) fits (changed (failure_changes now w trouble)) d.jobs j
          (λ i. refl) (ground (arith, at)) found)

  -- One attempt.
  find_job-fail_once :
      (x : EvolutionJob) (d : Desk)
      → find_job k d.jobs ≡ some x
      → is_pending x.status ≡ true
      → find_job k (fail_once cfg now name k d).jobs ≡ some (after_failure x)
  unfolding fail_once fail_claimed
  find_job-fail_once x d found waiting =
      let q = (claim_job now cfg.job_lease_seconds k d.jobs).1 in
      let (row, token) = find_job-claim_job d.jobs x found waiting in
      rw (token, fail_once)
        (rw (row, fail_claimed)
          (find_job-settle_failure (claimed now cfg.job_lease_seconds x) (record d { jobs = q })
            row))

  -- The attempts of a waiting row that has n + 1 left.
  find_job-fail_times :
      (n : ℕ) (x : EvolutionJob) (d : Desk)
      → find_job k d.jobs ≡ some x
      → is_pending x.status ≡ true
      → x.attempt_count + n + 1 ≡ cfg.max_attempts
      → (y : EvolutionJob) × (find_job k (fail_times cfg now name k (suc n) d).jobs ≡ some y)
        × (y.status ≡ failed)
        × (y.attempt_count ≡ cfg.max_attempts)
        × (y.error_code ≡ code name)
  unfolding fail_times is_pending
  find_job-fail_times zero x d found waiting left = (
    after_failure x,
    find_job-fail_once x d found waiting,
    ground (arith, left),
    ground (arith, left),
    refl,
  )
  find_job-fail_times (suc n) x d found waiting left =
      let more : leb cfg.max_attempts (x.attempt_count + 1) ≡ false = ground (arith, left) in
      find_job-fail_times n (after_failure x) (fail_once cfg now name k d)
        (find_job-fail_once x d found waiting) (rw more refl) (ground (arith, left))

-- A pending job with attempts left fails for good after exactly as many claims as it has attempts
-- left, each followed by a failure that is no lock collision: the row is then failed, with its
-- attempts at the maximum and the name of the exception.
pub fail_times-failed :
    (cfg : WorkerConfig) (now : ℕ) (name : String) (k : JobKey) (n : ℕ) (x : EvolutionJob)
    (d : Desk)
    → find_job k d.jobs ≡ some x
    → is_pending x.status ≡ true
    → x.attempt_count + n + 1 ≡ cfg.max_attempts
    → (y : EvolutionJob) × (find_job k (fail_times cfg now name k (suc n) d).jobs ≡ some y)
      × (y.status ≡ failed)
      × (y.attempt_count ≡ cfg.max_attempts)
      × (y.error_code ≡ code name)
fail_times-failed cfg now name k n x d found waiting left =
    find_job-fail_times cfg now name k n x d found waiting left
