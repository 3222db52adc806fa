-- ===== src/Worker/Tick.antt =====
-- worker/evolution.py, `process_pending`: one tick of a worker, with the backoff after a failed
-- reconciliation. Instants of the monotonic clock and delays are in seconds.
use mirror_memory.Prelude.{
  ℕ, zero, suc, ltb, ◌+◌, ◌-◌, ◌*◌, String, Bool, true, Option, none, some, List, [], ◌∷◌, min, leb,
  if◌then◌else◌,
}
use mirror_memory.Prelude.Text.{str_eq}
use mirror_memory.Prelude.Dict.{Dict, get}
use mirror_memory.Prelude.Float.{FloatOps}
use mirror_memory.Core.Publisher.Commit.{Handlers}
use mirror_memory.Access.Authorize.{Scope}
use mirror_memory.Worker.{EvolutionJob, JobKey, find_job}
use mirror_memory.Worker.Enqueue.{key_of}
use mirror_memory.Worker.Lease.{claim_job, sweep, scan}
use mirror_memory.Worker.Process.{Desk, Shift, Computed, Ended, ended, process_single_job}

-- `_RECONCILE_BACKOFF`: the consecutive failures and the next attempt of a database's URL.
abbrev pub Backoff : Type 0
Backoff = Dict (ℕ × ℕ)

unfoldable pub reconcile_gate : String → ℕ → Backoff → Bool
reconcile_gate url now b = elim (get b url) [ none ↦ true | some (failures, next) ↦ leb next now ]

abbrev pub power_of_two : ℕ → ℕ
power_of_two zero = 1
power_of_two (suc n) = 2 * power_of_two n

abbrev pub failures_of : Option (ℕ × ℕ) → ℕ
failures_of none = 0
failures_of (some (failures, next)) = failures

-- `min(2.0 * 2 ** (failures - 1), 60.0)`: a power of two from 2 ** 1024 on is too large to convert to
-- a float, and OverflowError is raised. Below it the product is exact or infinite.
unfoldable pub delay_after : ℕ → Option ℕ
delay_after failures =
    if ltb 1024 failures then none else some (min (2 * power_of_two (failures - 1)) 60)

abbrev pub without : String → Backoff → Backoff
without url [] = []
without url ((k, v) ∷ b) = let rest = without url b in if str_eq k url then rest else (k, v) ∷ rest

-- `none` where the delay overflows, before anything is written.
unfoldable pub reconcile_record_failure : String → ℕ → Backoff → Option (ℕ × Backoff)
unfolding delay_after
reconcile_record_failure url now b =
    let failures = failures_of (get b url) + 1 in
    elim (delay_after failures) [
      | none ↦ none
      | some delay ↦ some (delay, (url, (failures, now + delay)) ∷ without url b)
    ]

-- What the failure of a tick leaves of the backoff, also where the exception leaves the tick.
unfoldable pub backoff_after : String → ℕ → Backoff → Backoff
unfolding reconcile_record_failure
backoff_after url now b = elim (reconcile_record_failure url now b) [
  | none ↦ b
  | some (delay, after) ↦ after
]

unfoldable pub reconcile_record_success : String → Backoff → Backoff
reconcile_record_success url b = without url b

-- The state that the tick reads: the clock of the backoff, and whether a log is configured, in which
-- case `aligned` says that the reconciliation returned and did not raise.
pub record Tick : Type 0 where
  pub url : String
  pub monotonic : ℕ
  pub now : ℕ
  pub has_log : Bool
  pub aligned : Bool

-- What happens before the jobs: the jobs to process are none where the tick is skipped,
-- or where an exception leaves it.
pub record Started : Type 0 where
  pub backoff : Backoff
  pub queue : List EvolutionJob
  pub jobs : Option (List EvolutionJob)

abbrev pub start_jobs : Tick → Backoff → List EvolutionJob → Started
start_jobs t b q =
    let swept = sweep t.now q in record { backoff = b; queue = swept; jobs = some (scan swept) }

unfoldable pub start_tick : Tick → Backoff → List EvolutionJob → Started
unfolding reconcile_gate backoff_after reconcile_record_success
start_tick t b q =
    if t.has_log
    then if reconcile_gate t.url t.monotonic b
      then if t.aligned
        then start_jobs t (reconcile_record_success t.url b) q
        else record { backoff = backoff_after t.url t.monotonic b; queue = q; jobs = none }
      else record { backoff = b; queue = q; jobs = none }
    else start_jobs t b q

-- `config.worker` and the ambient scope of the job's tenant.
pub record WorkerConfig : Type 0 where
  pub job_lease_seconds : ℕ
  pub max_attempts : ℕ
  pub scope : Scope

abbrev pub shift_of : WorkerConfig → ℕ → EvolutionJob → Shift
shift_of cfg token j = record {
  key = key_of j;
  user_id = j.user_id;
  purpose = j.purpose;
  attempt_count = j.attempt_count;
  token = some token;
  lease_seconds = cfg.job_lease_seconds;
  max_attempts = cfg.max_attempts;
  scope = cfg.scope;
}

module _ (fl : FloatOps) (h : Handlers) (fresh : String) (cfg : WorkerConfig) where
  -- The row is read again after the claim.
  unfoldable pub process_claimed :
      ℕ → ℕ → Bool → Computed → (Desk → Desk) → Option ℕ → Option EvolutionJob → Desk → Ended
  unfolding process_single_job
  process_claimed now later lock_clears result during none row d = ended d
  process_claimed now later lock_clears result during (some token) none d = ended d
  process_claimed now later lock_clears result during (some token) (some j) d =
      process_single_job fl h fresh now later (shift_of cfg token j) lock_clears result during d

  unfoldable pub claim_and_process : ℕ → ℕ → Bool → Computed → (Desk → Desk) → JobKey → Desk → Ended
  unfolding claim_job process_claimed
  claim_and_process now later lock_clears result during k d =
      let (token, q) = claim_job now cfg.job_lease_seconds k d.jobs in
      process_claimed now later lock_clears result during token (find_job k q)
        (record d { jobs = q })
