-- ===== src/Examples/Working.antt =====
-- A job that is queued, claimed twice, blocked, retried and published.
use mirror_memory.Prelude.{
  ◌⊎◌, ℕ, ◌<◌, ◌≤◌, String, true, false, none, some, List, [], ◌∷◌, ◌++◌, ◌≡◌, refl, arith, All,
  Bool, inl, inr, Bool-cases,
}
use mirror_memory.Prelude.Text.{strip}
use mirror_memory.Prelude.Dict.{get}
use mirror_memory.Prelude.Members.{Among}
use mirror_memory.Worker.{
  EvolutionJob, ErrorCode, code, Tenant, JobKey, cancelled, find_job, first_job, is_pending,
  in_tenant, is_job, count_jobs,
}
use mirror_memory.Worker.Lease.{
  claim_job, claimed, released, sweep, set_job_state, block_job, blocked, changed, renew_lease,
  JobChanges,
}
use mirror_memory.Worker.Snapshot.{BeliefStamp}
use mirror_memory.Worker.Enqueue.{
  EnqueueRequest, Board, queued, integrity_error, new_job, enqueue_job, is_memory_enabled, live_job,
  has_key, key_of,
}
use mirror_memory.Worker.Steps.{
  Steps, stay, then_step, sweeping, claiming, changing, ReviveNone, RevivesNone,
}
use mirror_memory.Worker.Single.{IsQueue}
use mirror_memory.Worker.Mutex.{Steps-IsQueue}
use mirror_memory.Worker.Fencing.{Steps-fenced}
use mirror_memory.Worker.Idempotent.{enqueue_job-again}
use mirror_memory.Worker.Blocked.{enqueue_job-cancelled}
use mirror_memory.Prelude.{Option, ◌+◌, ◌↔◌, length, any, map}
use mirror_memory.Worker.{failed, completed}
use mirror_memory.Worker.Snapshot.{
  Snapshot, SnapshotRequest, new_snapshot, count_distinct, distinct_sessions, sessions_of,
}
use mirror_memory.Worker.Validate.{Pattern, EvidencePayload, ValidationConfig, validate}
use mirror_memory.Worker.Validated.{IsAccepted, IsFit, IsMarked, validate-IsAccepted}
use mirror_memory.Worker.Tick.{
  Backoff, failures_of, Tick, WorkerConfig, shift_of, reconcile_record_failure,
}
use mirror_memory.Worker.Waiting.{IsBackedOff, reconcile_record_failure-gate}
use mirror_memory.Worker.Process.{Desk, Shift, computed, process_single_job}
use mirror_memory.Worker.Guarded.{GuardedEnd, end_of, process_single_job-GuardedEnd}
use mirror_memory.Worker.Retries.{fail_times}
use mirror_memory.Worker.Exhausted.{fail_times-failed}
use mirror_memory.Access.{PurposeGrant}
use mirror_memory.Access.Authorize.{Scope}
use mirror_memory.Examples.Floats.{fixed}
use mirror_memory.Examples.Tables.{tables, handlers, support_it}

abbrev isoformat : ℕ → String
isoformat t = "2026-01-01T00:00:00"

abbrev dumps : String → String
dumps w = w

abbrev request : EnqueueRequest
request = record {
  tenant = record { tenant_id = "local"; app_id = "app" };
  user_id = "ada";
  purpose = " chat ";
  prompt_version = "v1";
}

abbrev board : Board
board = record {
  jobs = [];
  snapshots = [];
  beliefs =
      record { user_id = "ada"; is_active = true; updated_at = 7; origin_session_id = some "s1" }
      ∷ [];
  preferences = λ u. none;
}

abbrev job : EvolutionJob
job = new_job 1 "j1" request "2026-01-01T00:00:00" "ada:2026-01-01T00:00:00:v1"

abbrev after_enqueue : Board
after_enqueue = record board { jobs = job ∷ [] }

enqueues : enqueue_job isoformat dumps 1 "j1" request board ≡ queued job after_enqueue
unfolding enqueue_job strip mirror_memory.Worker.Enqueue.latest_update
enqueues = refl

at_most_one : (test : EvolutionJob → Bool) (j : EvolutionJob) → count_jobs test (j ∷ []) ≤ 1
unfolding count_jobs
at_most_one test j = elim (Bool-cases (test j)) [
  | inl c ↦ rw c (ground arith)
  | inr c ↦ rw c (ground arith)
]

none_at_all : (test : EvolutionJob → Bool) → count_jobs test [] ≤ 1
unfolding count_jobs
none_at_all test = ground arith

no_jobs : IsQueue []
no_jobs = record {
  one_row = λ k. none_at_all (is_job k);
  one_key = λ t n. none_at_all (has_key t n);
  one_live = λ t u. none_at_all (live_job t u);
}

single : (j : EvolutionJob) → IsQueue (j ∷ [])
single j = record {
  one_row = λ k. at_most_one (is_job k) j;
  one_key = λ t n. at_most_one (has_key t n) j;
  one_live = λ t u. at_most_one (live_job t u) j;
}

enqueue_job-again_example :
    enqueue_job isoformat dumps 5 "j2" request after_enqueue ≡ queued job after_enqueue
enqueue_job-again_example =
    enqueue_job-again isoformat dumps 1 5 "j1" "j2" request board after_enqueue job no_jobs enqueues

one_job : IsQueue (job ∷ [])
one_job = single job

abbrev key : JobKey
key = key_of job

-- The first holder's row, and the second's after the sweep.
abbrev held_once : EvolutionJob
held_once = claimed 10 1 job

abbrev held_twice : EvolutionJob
held_twice = claimed 2000000 1 (released held_once)

abbrev swept : List EvolutionJob
swept = released held_once ∷ []

abbrev ended_queue : List EvolutionJob
ended_queue = changed (blocked 20 (code "no_grant")) held_once ∷ []

sweeps : Steps (held_once ∷ []) swept
unfolding sweep mirror_memory.Worker.update_jobs mirror_memory.Worker.is_running
sweeps = then_step stay (sweeping 2000000 refl)

first_claim : claim_job 10 1 key (job ∷ []) ≡ (some 1, held_once ∷ [])
unfolding claim_job count_jobs mirror_memory.Worker.update_jobs is_job is_pending first_job
first_claim = refl

second_claim : claim_job 2000000 1 key swept ≡ (some 2, held_twice ∷ [])
unfolding claim_job count_jobs mirror_memory.Worker.update_jobs is_job is_pending first_job
second_claim = refl

claim_step : held_once ∷ [] ≡ (claim_job 10 1 key (job ∷ [])).1
unfolding claim_job mirror_memory.Worker.update_jobs is_job is_pending
claim_step = refl

sweep_step : swept ≡ sweep 2000000 (held_once ∷ [])
unfolding sweep mirror_memory.Worker.update_jobs mirror_memory.Worker.is_running
sweep_step = refl

end_step :
    set_job_state key (some 1) (blocked 20 (code "no_grant")) (held_once ∷ []) ≡ some ended_queue
unfolding set_job_state count_jobs is_job mirror_memory.Worker.update_jobs
end_step = refl

Steps-IsQueue_example : IsQueue ended_queue
unfolding ReviveNone RevivesNone mirror_memory.Worker.is_live
Steps-IsQueue_example =
    Steps-IsQueue (job ∷ []) ended_queue
      (then_step (then_step stay (claiming 10 1 key claim_step))
        (changing key (some 1) (blocked 20 (code "no_grant")) end_step))
      ((tt, tt), inl refl) one_job

Steps-fenced_example :
    (1 < 2)
    × ((c : JobChanges) → set_job_state key (some 1) c (held_twice ∷ []) ≡ none)
    × ((t s : ℕ) → renew_lease t s key 1 (held_twice ∷ []) ≡ (false, held_twice ∷ []))
    × ((t : ℕ) (reason : ErrorCode)
        → block_job t key reason (some 1) (held_twice ∷ []) ≡ held_twice ∷ [])
Steps-fenced_example =
    Steps-fenced key 10 1 2000000 1 1 2 (job ∷ []) (held_once ∷ []) swept (held_twice ∷ [])
      (held_twice ∷ []) one_job first_claim sweeps second_claim stay

abbrev cancelled_job : EvolutionJob
cancelled_job = changed (blocked 20 (code "no_grant")) held_once

abbrev after_block : Board
after_block = record board { jobs = cancelled_job ∷ [] }

blocks : block_job 20 key (code "no_grant") (some 1) (held_once ∷ []) ≡ cancelled_job ∷ []
unfolding block_job count_jobs is_job mirror_memory.Worker.update_jobs
blocks = refl

one_cancelled : IsQueue (cancelled_job ∷ [])
one_cancelled = single cancelled_job

enqueue_job-cancelled_example :
    enqueue_job isoformat dumps 30 "j2" request after_block ≡ integrity_error
unfolding first_job strip is_memory_enabled mirror_memory.Worker.is_live is_job
    mirror_memory.Worker.Enqueue.latest_update
enqueue_job-cancelled_example =
    enqueue_job-cancelled isoformat dumps 30 "j2" request after_block key cancelled_job
      one_cancelled refl refl refl refl refl refl refl

abbrev lower : String → String
lower t = t

abbrev patterns : List Pattern
patterns =
    record { description = "likes tea"; evidence_keys = "tea" ∷ []; needs_verification = false }
    ∷ record { description = "is a liar"; evidence_keys = []; needs_verification = false }
    ∷ record { description = "likes cats"; evidence_keys = "cats" ∷ []; needs_verification = false }
    ∷ []

abbrev labels : ValidationConfig
labels = record { forbidden_labels = "liar" ∷ []; third_party_markers = [] }

abbrev evidence : Option EvidencePayload
evidence =
    some (record { beliefs = record { key = "tea"; value = none } ∷ []; distinct_sessions = 1 })

abbrev kept : List Pattern
kept =
    record { description = "likes tea"; evidence_keys = "tea" ∷ []; needs_verification = true } ∷ []

keeps_one : validate lower labels evidence patterns ≡ kept
unfolding validate strip mirror_memory.Worker.Validate.forces_verification
keeps_one = refl

validate-IsAccepted_example :
    (length (validate lower labels evidence patterns) ≤ 3)
    × All (IsAccepted lower labels evidence) (validate lower labels evidence patterns)
    × (length (validate lower labels evidence patterns) < 3
        → (p : Pattern) → Among p patterns
        → IsFit lower labels evidence p
        → (r : Pattern) × IsMarked lower labels evidence p r
          × Among r (validate lower labels evidence patterns))
    × (validate lower labels evidence (validate lower labels evidence patterns)
        ≡ validate lower labels evidence patterns)
validate-IsAccepted_example = validate-IsAccepted lower labels evidence patterns

abbrev failed_twice : Backoff
failed_twice = ("db", (2, 90)) ∷ []

reconcile_record_failure-gate_example :
    ((failures_of (get failed_twice "db") < 1024)
      × (done : ℕ × Backoff) × (reconcile_record_failure "db" 100 failed_twice ≡ some done)
      × IsBackedOff "db" 100 failed_twice done)
    ⊎ ((1024 ≤ failures_of (get failed_twice "db"))
        × (reconcile_record_failure "db" 100 failed_twice ≡ none))
reconcile_record_failure-gate_example = reconcile_record_failure-gate "db" 100 failed_twice

delays : reconcile_record_failure "db" 100 failed_twice ≡ some (8, ("db", (3, 108)) ∷ [])
unfolding reconcile_record_failure
delays = refl

abbrev behind : Tick
behind = record { url = "db"; monotonic = 100; now = 9; has_log = true; aligned = false }

abbrev understood : SnapshotRequest
understood = record {
  id = "s2";
  user_id = "ada";
  content = "{}";
  policy = "{}";
  watermark = "w";
  is_shadow = true;
  source_purposes = "chat" ∷ [];
  source_generation = none;
  purpose = "chat";
}

abbrev earlier : List Snapshot
earlier = new_snapshot (record understood { id = "s1"; is_shadow = false }) 3 ∷ []

abbrev stamp : Option String → BeliefStamp
stamp session = record {
  user_id = "ada";
  is_active = true;
  updated_at = 7;
  origin_session_id = session;
}

abbrev stamps : List BeliefStamp
stamps = stamp (some "s1") ∷ stamp none ∷ []

-- One session, and a belief without one.
counts : (count_distinct (sessions_of "ada" stamps) ≡ 2) × (distinct_sessions stamps ≡ 1)
unfolding count_distinct distinct_sessions
counts = (refl, refl)

abbrev scope : Scope
scope = record { in_system_scope = false; tenant = some ("local", "app") }

abbrev extracting : PurposeGrant
extracting = record {
  user_id = "ada";
  purpose = "chat";
  version = 1;
  allowed_operations = "extract" ∷ [];
  issuer = "host";
  expires_at = none;
  revoked_at = none;
}

abbrev settings : WorkerConfig
settings = record { job_lease_seconds = 300; max_attempts = 3; scope = scope }

abbrev desk : Desk
desk = record {
  jobs = job ∷ [];
  store = tables;
  grants = extracting ∷ [];
  grant_events = [];
  consents = [];
  generations = [];
}

fail_times-failed_example :
    (y : EvolutionJob) × (find_job key (fail_times settings 9 "ValueError" key 3 desk).jobs
      ≡ some y)
    × (y.status ≡ failed)
    × (y.attempt_count ≡ 3)
    × (y.error_code ≡ code "ValueError")
unfolding first_job is_job is_pending
fail_times-failed_example = fail_times-failed settings 9 "ValueError" key 2 job desk refl refl refl

abbrev holding : Shift
holding = shift_of settings 1 held_once

abbrev others : Desk → Desk
others d = record d { generations = [] }

abbrev published : Desk
published = end_of (
    process_single_job fixed handlers "p9" 20 30 holding true (computed support_it.payload) others
      (record desk { jobs = held_once ∷ [] }))

publishes :
    (map (λ (j : EvolutionJob). j.status) published.jobs ≡ completed ∷ [])
    × (length published.grant_events ≡ 1)
unfolding process_single_job renew_lease count_jobs is_job mirror_memory.Worker.is_running
    mirror_memory.Core.Repository.Revision.is_memory_enabled strip
    mirror_memory.Access.Authorize.authorize mirror_memory.Access.find_grant
    mirror_memory.Worker.update_jobs mirror_memory.Access.Revocation.record_purpose_invocation
    mirror_memory.Worker.Process.current_deletion_generation
    mirror_memory.Worker.Process.is_committed set_job_state mirror_memory.Core.Proposal.post_init
    mirror_memory.Core.Publisher.Publish.publish mirror_memory.Core.Publisher.Publish.find_commit
    mirror_memory.Core.Publisher.Gates.check_gates mirror_memory.Core.Publisher.Gates.consent_gate
    mirror_memory.Core.Publisher.Gates.revision_gate mirror_memory.Core.Proposal.is_truth
    mirror_memory.Core.Repository.Revision.get_state_revision
    mirror_memory.Core.Publisher.Gates.evidence_gate mirror_memory.Prelude.Sort.dedupe
    mirror_memory.Core.Publisher.Gates.session_gate
    mirror_memory.Core.Publisher.Gates.check_invariants mirror_memory.Core.Publisher.Commit.commit
    mirror_memory.Core.Publisher.Commit.handle mirror_memory.Core.Proposal.is_value
    mirror_memory.Core.Store.target_of
publishes = (refl, refl)

process_single_job-GuardedEnd_example :
    GuardedEnd fixed handlers "p9" 20 30 holding true
      (computed support_it.payload)
      others
      (record desk { jobs = held_once ∷ [] })
      (process_single_job fixed handlers "p9" 20 30 holding true
        (computed support_it.payload)
        others
        (record desk { jobs = held_once ∷ [] }))
process_single_job-GuardedEnd_example =
    process_single_job-GuardedEnd fixed handlers "p9" 20 30 holding true
      (computed support_it.payload) others (record desk { jobs = held_once ∷ [] })
