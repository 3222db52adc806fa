-- ===== src/Worker/Lease.antt =====
-- worker/evolution.py: the claim of a job, the renewal of its lease, the fenced changes of its row,
-- and what a tick does first: the sweep of expired leases and the scan of the pending jobs.
use mirror_memory.Prelude.{
  ℕ, ◌+◌, ◌*◌, Bool, false, Option, none, some, List, ◌&&◌, ◌==◌, ltb, leb, if◌then◌else◌, filter,
  take,
}
use mirror_memory.Prelude.Sort.{sort}
use mirror_memory.Worker.{
  EvolutionJob, ErrorCode, JobStatus, pending, running, cancelled, is_pending, is_running, JobKey,
  is_job, find_job, update_jobs, count_jobs,
}

abbrev pub seconds : ℕ → ℕ
seconds n = n * 1000000

-- `filter(id == job_id, status == "pending")` and the changes of a claim.
abbrev pub claimable : JobKey → EvolutionJob → Bool
claimable k j = is_job k j && is_pending j.status

abbrev pub claimed : ℕ → ℕ → EvolutionJob → EvolutionJob
claimed now lease j = record j {
  status = running;
  started_at = some now;
  attempt_count = j.attempt_count + 1;
  lease_token = j.lease_token + 1;
  lease_expires_at = some (now + seconds lease);
}

-- The token that the claimed row holds.
abbrev token_of : Option EvolutionJob → Option ℕ
token_of none = none
token_of (some j) = some j.lease_token

unfoldable pub claim_job : ℕ → ℕ → JobKey → List EvolutionJob → Option ℕ × List EvolutionJob
claim_job now lease k q =
    let after = update_jobs (claimable k) (claimed now lease) q in
    (if count_jobs (claimable k) q == 0 then none else token_of (find_job k after), after)

abbrev pub renewable : JobKey → ℕ → EvolutionJob → Bool
renewable k token j = is_job k j && (is_running j.status && (j.lease_token == token))

abbrev pub renewed : ℕ → ℕ → EvolutionJob → EvolutionJob
renewed now lease j = record j { lease_expires_at = some (now + seconds lease) }

unfoldable pub renew_lease : ℕ → ℕ → JobKey → ℕ → List EvolutionJob → Bool × List EvolutionJob
renew_lease now lease k token q =
    (count_jobs (renewable k token) q == 1, update_jobs (renewable k token) (renewed now lease) q)

-- The columns that bookkeeping changes; `none` leaves a column as it is.
pub record JobChanges : Type 0 where
  pub status : JobStatus
  pub error_code : ErrorCode
  pub completed_at : Option ℕ
  pub attempt_count : Option ℕ
  pub created_at : Option ℕ

abbrev kept_or {ℓ} : {A : Type ℓ} → A → Option A → A
kept_or old none = old
kept_or old (some new) = new

abbrev kept_or_some : Option ℕ → Option ℕ → Option ℕ
kept_or_some old none = old
kept_or_some old (some new) = some new

abbrev pub changed : JobChanges → EvolutionJob → EvolutionJob
changed c j = record j {
  status = c.status;
  error_code = c.error_code;
  completed_at = kept_or_some j.completed_at c.completed_at;
  attempt_count = kept_or j.attempt_count c.attempt_count;
  created_at = kept_or j.created_at c.created_at;
}

-- The fence: the row of the job, while it holds the token; a call without a token is not fenced.
abbrev pub held : JobKey → Option ℕ → EvolutionJob → Bool
held k none j = is_job k j
held k (some token) j = is_job k j && (j.lease_token == token)

-- A commit with the new queue, or LeaseLost after a rollback.
unfoldable pub set_job_state :
    JobKey → Option ℕ → JobChanges → List EvolutionJob → Option (List EvolutionJob)
set_job_state k none c q = some (update_jobs (held k none) (changed c) q)
set_job_state k (some token) c q =
    if count_jobs (held k (some token)) q == 0
    then none
    else some (update_jobs (held k (some token)) (changed c) q)

abbrev pub blocked : ℕ → ErrorCode → JobChanges
blocked now reason = record {
  status = cancelled;
  error_code = reason;
  completed_at = some now;
  attempt_count = none;
  created_at = none;
}

-- `_block_job`: where the fence fires, the rollback leaves the queue as it was.
unfoldable pub block_job : ℕ → JobKey → ErrorCode → Option ℕ → List EvolutionJob → List EvolutionJob
unfolding set_job_state
block_job now k reason token q = elim (set_job_state k token (blocked now reason) q) [
  | none ↦ q
  | some after ↦ after
]

-- `status == "running"`, `lease_expires_at IS NOT NULL` and `lease_expires_at < now`
abbrev pub expired : ℕ → EvolutionJob → Bool
expired now j = is_running j.status && elim j.lease_expires_at [ none ↦ false | some e ↦ ltb e now ]

abbrev pub released : EvolutionJob → EvolutionJob
released j = record j { status = pending }

unfoldable pub sweep : ℕ → List EvolutionJob → List EvolutionJob
sweep now q = update_jobs (expired now) released q

abbrev pub job_batch_limit : ℕ
job_batch_limit = 5

abbrev pub older : EvolutionJob → EvolutionJob → Bool
older i j = leb i.created_at j.created_at

unfoldable pub scan : List EvolutionJob → List EvolutionJob
scan q = take job_batch_limit (sort older (filter (λ j. is_pending j.status) q))
