-- ===== src/Worker/Retries.antt =====
-- worker/evolution.py: a job that fails again and again, as the claims and the bookkeeping of its
-- failures.
use mirror_memory.Prelude.{ℕ, zero, suc, String, true, false, Option, none, some}
use mirror_memory.Worker.{EvolutionJob, JobKey, find_job}
use mirror_memory.Worker.Lease.{claim_job}
use mirror_memory.Worker.Process.{Desk, Ended, ended, escaped, settle_failure}
use mirror_memory.Worker.Tick.{WorkerConfig, shift_of}

abbrev pub end_of : Ended → Desk
end_of (ended d) = d
end_of (escaped d) = d

-- The failure of a claimed row: an exception that is no lock collision.
unfoldable pub fail_claimed :
    WorkerConfig → ℕ → String → Option ℕ → Option EvolutionJob → Desk → Desk
unfolding settle_failure
fail_claimed cfg now name none row d = d
fail_claimed cfg now name (some token) none d = d
fail_claimed cfg now name (some token) (some j) d =
    end_of (settle_failure now (shift_of cfg token j) true (record { name = name; busy = false }) d)

unfoldable pub fail_once : WorkerConfig → ℕ → String → JobKey → Desk → Desk
unfolding claim_job fail_claimed
fail_once cfg now name k d =
    let (token, q) = claim_job now cfg.job_lease_seconds k d.jobs in
    fail_claimed cfg now name token (find_job k q) (record d { jobs = q })

unfoldable pub fail_times : WorkerConfig → ℕ → String → JobKey → ℕ → Desk → Desk
unfolding fail_once
fail_times cfg now name k zero d = d
fail_times cfg now name k (suc n) d = fail_times cfg now name k n (fail_once cfg now name k d)
