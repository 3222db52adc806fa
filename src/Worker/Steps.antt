-- ===== src/Worker/Steps.antt =====
-- worker/evolution.py and core/repository.py: the changes that workers, enqueues and forgets commit to
-- the queue, one at a time, in any order and by any number of sessions. The deletion of rows, by a
-- replayed deletion or by a purge of a user, is not among them.
use mirror_memory.Prelude.{ℕ, String, true, false, Option, some, List, ◌≡◌, ◌⊎◌}
use mirror_memory.Worker.{
  EvolutionJob, code, cancelled, is_live, Tenant, JobKey, find_job, update_jobs,
}
use mirror_memory.Worker.Lease.{claim_job, renew_lease, JobChanges, set_job_state, sweep}
use mirror_memory.Worker.Enqueue.{EnqueueRequest, Board, queued, live_job, enqueue_job}

abbrev pub forgotten : EvolutionJob → EvolutionJob
forgotten j = record j { status = cancelled; error_code = code "belief_forgotten" }

-- `forget_belief` and the jobs of its user.
unfoldable pub cancel_jobs : Tenant → String → List EvolutionJob → List EvolutionJob
cancel_jobs t user q = update_jobs (live_job t user) forgotten q

-- `changing` is `_set_job_state`, fenced where it has a token. It tests no status.
pub data Step : List EvolutionJob → List EvolutionJob → Type 0 where
  enqueueing :
      {q t : List EvolutionJob} (isoformat : ℕ → String) (dumps : String → String) (now : ℕ)
      (id : String) (r : EnqueueRequest) (b c : Board) (j : EvolutionJob)
      → b.jobs ≡ q
      → c.jobs ≡ t
      → enqueue_job isoformat dumps now id r b ≡ queued j c
      → Step q t
  claiming :
      {q t : List EvolutionJob} (now lease : ℕ) (k : JobKey)
      → t ≡ (claim_job now lease k q).1
      → Step q t
  renewing :
      {q t : List EvolutionJob} (now lease : ℕ) (k : JobKey) (token : ℕ)
      → t ≡ (renew_lease now lease k token q).1
      → Step q t
  changing :
      {q t : List EvolutionJob} (k : JobKey) (fence : Option ℕ) (c : JobChanges)
      → set_job_state k fence c q ≡ some t
      → Step q t
  sweeping : {q t : List EvolutionJob} (now : ℕ) → t ≡ sweep now q → Step q t
  forgetting :
      {q t : List EvolutionJob} (tenant : Tenant) (user : String)
      → t ≡ cancel_jobs tenant user q
      → Step q t

pub data Steps : List EvolutionJob → List EvolutionJob → Type 0 where
  stay : {q : List EvolutionJob} → Steps q q
  then_step : {q t u : List EvolutionJob} → Steps q t → Step t u → Steps q u

-- The step does not bring a job back: a change ends it, or finds its row still live.
unfoldable pub RevivesNone : {q t : List EvolutionJob} → Step q t → Type 0
RevivesNone {q = q} (changing k fence c h) =
    (is_live c.status ≡ false)
    ⊎ ((x : EvolutionJob) × (find_job k q ≡ some x) × (is_live x.status ≡ true))
RevivesNone _ = Unit

unfoldable pub ReviveNone : {q t : List EvolutionJob} → Steps q t → Type 0
unfolding RevivesNone
ReviveNone stay = Unit
ReviveNone (then_step r step) = ReviveNone r × RevivesNone step
