-- ===== src/Worker/Process.antt =====
-- worker/evolution.py, `_process_single_job`. What the nodes between the two transactions give is
-- an argument, `Computed`, and so is what other sessions commit during them, `during`.
use mirror_memory.Prelude.{
  ℕ, ◌-◌, String, Bool, true, false, Option, none, some, List, [], ◌∷◌, ◌==◌, leb, max,
  if◌then◌else◌,
}
use mirror_memory.Prelude.Text.{str_eq, append, decimal_text}
use mirror_memory.Prelude.Float.{FloatOps}
use mirror_memory.Core.Rows.{MemoryPreference}
use mirror_memory.Core.Store.{Store}
use mirror_memory.Core.Proposal.{Proposal, Payload, synthesize, post_init}
use mirror_memory.Core.Repository.Revision.{is_memory_enabled, get_state_revision}
use mirror_memory.Core.Publisher.Commit.{Handlers}
use mirror_memory.Core.Publisher.Publish.{PublishDecision, Verdict, committed, publish}
use mirror_memory.Access.{
  PurposeGrant, PurposeGrantEvent, ConsentGrant, Tables, Failure, unknown_operation,
  stale_grant_version, purpose_denied, value_error, key_error, runtime_error,
  tenant_context_missing, Result, returned, raised,
}
use mirror_memory.Access.Authorize.{Scope, Decision, authorize, blank}
use mirror_memory.Access.Revocation.{record_purpose_invocation}
use mirror_memory.Deletion.Replay.{DeletionGeneration}
use mirror_memory.Worker.{
  EvolutionJob, ErrorCode, code, publish_refused, pending, completed, failed, JobKey,
}
use mirror_memory.Worker.Lease.{renew_lease, JobChanges, set_job_state, block_job, blocked}

-- The queue, and the tables of the job's tenant. `store` and authorization read one table of
-- preferences.
pub record Desk : Type 0 where
  pub jobs : List EvolutionJob
  pub store : Store
  pub grants : List PurposeGrant
  pub grant_events : List PurposeGrantEvent
  pub consents : List ConsentGrant
  pub generations : List DeletionGeneration

abbrev row_or_none : Option MemoryPreference → List MemoryPreference
row_or_none none = []
row_or_none (some p) = p ∷ []

-- What authorization reads of a user.
abbrev pub tables_for : String → Desk → Tables
tables_for user d = record {
  grants = d.grants;
  grant_events = d.grant_events;
  consents = d.consents;
  preferences = row_or_none (d.store.preferences user);
}

-- `func.max(DeletionGeneration.generation)` of the user, or 0
unfoldable pub current_deletion_generation : String → List DeletionGeneration → ℕ
current_deletion_generation user [] = 0
current_deletion_generation user (g ∷ gs) =
    let rest = current_deletion_generation user gs in
    if str_eq g.user_id user then max g.generation rest else rest

-- An exception: its type's name, and whether its text says that SQLite's lock is held.
pub record Trouble : Type 0 where
  pub name : String
  pub busy : Bool

-- The nodes' result: the payload's number and `is_shadow` stand in `payload`.
pub data Computed : Type 0 where
  computed : Payload → Computed
  broken : Trouble → Computed

abbrev failure_name : Failure → String
failure_name unknown_operation = "UnknownOperation"
failure_name stale_grant_version = "StaleGrantVersion"
failure_name purpose_denied = "PurposeDenied"
failure_name value_error = "ValueError"
failure_name key_error = "KeyError"
failure_name runtime_error = "RuntimeError"
failure_name tenant_context_missing = "TenantContextMissing"

abbrev pub trouble_of : Failure → Trouble
trouble_of e = record { name = failure_name e; busy = false }

-- What the call knows of its job, and the settings.
pub record Shift : Type 0 where
  pub key : JobKey
  pub user_id : String
  pub purpose : String
  pub attempt_count : ℕ
  pub token : Option ℕ
  pub lease_seconds : ℕ
  pub max_attempts : ℕ
  pub scope : Scope

-- What the snapshot transaction keeps for the publish.
pub record Snapped : Type 0 where
  pub grant_version : Option ℕ
  pub expected_revision : ℕ
  pub expected_generation : ℕ

-- How the `try` block of a phase ends: it returned, LeaseLost, another exception, or it goes on. The
-- desk is what is committed then.
pub data Phase : Type 0 where
  over lost : Desk → Phase
  broke : Trouble → Desk → Phase
  goes_on : Snapped → Desk → Phase

abbrev pub renewal : ℕ → Shift → Option ℕ → List EvolutionJob → Option (List EvolutionJob)
renewal now w none q = some q
renewal now w (some token) q =
    let (kept, after) = renew_lease now w.lease_seconds w.key token q in
    if kept then some after else none

abbrev pub block : ℕ → Shift → ErrorCode → Desk → Desk
block now w reason d = record d { jobs = block_job now w.key reason w.token d.jobs }

-- The two gates of both transactions: consent, then the purpose's authorization.
abbrev pub permit : ℕ → Shift → Desk → Result Decision
permit now w d = authorize w.scope now (tables_for w.user_id d) w.user_id (some w.purpose) "extract"

unfoldable pub snapshot_checks : ℕ → Shift → Desk → Phase
snapshot_checks now w d =
    if is_memory_enabled d.store w.user_id
    then if blank w.purpose
      then over (block now w (code "missing_purpose") d)
      else (elim (permit now w d) [
        | raised e ↦ broke (trouble_of e) d
        | returned decision ↦
            if decision.allowed
            then goes_on
                (record {
                  grant_version = decision.grant_version;
                  expected_revision = get_state_revision d.store w.user_id;
                  expected_generation = current_deletion_generation w.user_id d.generations;
                })
                d
            else over (block now w (code decision.reason) d)
      ])
    else over (block now w (code "memory_disabled") d)

unfoldable pub begin_job : ℕ → Shift → Desk → Phase
unfolding snapshot_checks
begin_job now w d = elim (renewal now w w.token d.jobs) [
  | none ↦ lost d
  | some q ↦ snapshot_checks now w (record d { jobs = q })
]

abbrev version_text : Option ℕ → String
version_text none = "None"
version_text (some v) = decimal_text v

-- The reason that the audit row gives.
abbrev pub audit_reason : Option ℕ → Option ℕ → String
audit_reason snapshot publish =
    append "snapshot_version="
      (append (version_text snapshot) (append " publish_version=" (version_text publish)))

abbrev pub finished : ℕ → JobChanges
finished now = record {
  status = completed;
  error_code = code "";
  completed_at = some now;
  attempt_count = none;
  created_at = none;
}

abbrev pub synthesis : String → Shift → Snapped → Payload → Proposal
synthesis fresh w snapped payload = post_init fresh (record {
  transition = synthesize;
  user_id = w.user_id;
  session_id = none;
  target_belief_id = none;
  payload = payload;
  evidence_ids = [];
  expected_revision = snapped.expected_revision;
  proposal_id = "";
  idempotency_key = "";
  actor_type = "system";
  actor_id = "";
})

-- `decision.committed`
unfoldable pub is_committed : Verdict → Bool
is_committed committed = true
is_committed _ = false

-- The decision on the publish: the completion with all that the transaction wrote, or the refusal's
-- cancellation. Where the fence fires, nothing of the transaction stays.
unfoldable pub settle_publish : ℕ → Shift → Desk → Desk → PublishDecision → Store → Phase
settle_publish now w base written decision store =
    if is_committed decision.verdict
    then (elim (set_job_state w.key w.token (finished now) written.jobs) [
      | none ↦ lost base
      | some q ↦ over (record written { jobs = q; store = store })
    ])
    else elim (set_job_state w.key w.token (blocked now (publish_refused decision.verdict))
        written.jobs) [
          | none ↦ over base
          | some q ↦ over (record written { jobs = q; store = store })
        ]

-- What the failure writes: back to pending, or failed at the last attempt. A lock collision gives
-- the attempt back, and puts the job at the end of the queue.
abbrev pub failure_changes : ℕ → Shift → Trouble → JobChanges
failure_changes now w t =
    if t.busy
    then record {
      status = pending;
      error_code = code "database_is_locked";
      completed_at = none;
      attempt_count = some (w.attempt_count - 1);
      created_at = some now;
    }
    else record {
      status = if leb w.max_attempts w.attempt_count then failed else pending;
      error_code = code t.name;
      completed_at = none;
      attempt_count = none;
      created_at = none;
    }

-- How the call ends: it returns, or an exception leaves it.
pub data Ended : Type 0 where
  ended escaped : Desk → Ended

-- `lock_clears` says whether SQLite's lock is free before the deadline of the retries. There a lost
-- lease leaves the call, since only OperationalError is caught.
unfoldable pub settle_failure : ℕ → Shift → Bool → Trouble → Desk → Ended
settle_failure now w lock_clears t d =
    if t.busy
    then if lock_clears
      then (elim (set_job_state w.key w.token (failure_changes now w t) d.jobs) [
        | none ↦ escaped d
        | some q ↦ ended (record d { jobs = q })
      ])
      else escaped d
    else elim (set_job_state w.key w.token (failure_changes now w t) d.jobs) [
      | none ↦ ended d
      | some q ↦ ended (record d { jobs = q })
    ]

module _ (fl : FloatOps) (h : Handlers) (fresh : String) where
  -- With the authorization: its audit row, the generation, and the publish. The rollback of a moved
  -- generation takes the audit row back.
  unfoldable pub publish_permitted : ℕ → Shift → Snapped → Payload → Option ℕ → Desk → Phase
  unfolding settle_publish
  publish_permitted now w snapped payload version d =
      elim (record_purpose_invocation w.user_id w.purpose "extract" "published" "worker"
        (audit_reason snapped.grant_version version) (tables_for w.user_id d)) [
          | raised e ↦ broke (trouble_of e) d
          | returned t ↦
              if current_deletion_generation w.user_id d.generations == snapped.expected_generation
              then (let (decision, store) =
                    publish fl h now (synthesis fresh w snapped payload) d.store in
                  settle_publish now w d (record d { grant_events = t.grant_events }) decision
                    store)
              else over (block now w (code "deletion_generation_changed") d)
        ]

  unfoldable pub publish_checks : ℕ → Shift → Snapped → Payload → Desk → Phase
  unfolding publish_permitted
  publish_checks now w snapped payload d =
      if is_memory_enabled d.store w.user_id
      then (elim (permit now w d) [
        | raised e ↦ broke (trouble_of e) d
        | returned decision ↦
            if decision.allowed
            then publish_permitted now w snapped payload decision.grant_version d
            else over (block now w (code decision.reason) d)
      ])
      else over (block now w (code "memory_disabled") d)

  unfoldable pub publish_job : ℕ → Shift → Snapped → Payload → Desk → Phase
  unfolding publish_checks
  publish_job now w snapped payload d = elim (renewal now w w.token d.jobs) [
    | none ↦ lost d
    | some q ↦ publish_checks now w snapped payload (record d { jobs = q })
  ]

  -- The `except` clauses. Nothing goes on after the publish.
  unfoldable pub settle : ℕ → Shift → Bool → Phase → Ended
  unfolding settle_failure
  settle now w lock_clears (over d) = ended d
  settle now w lock_clears (lost d) = ended d
  settle now w lock_clears (broke t d) = settle_failure now w lock_clears t d
  settle now w lock_clears (goes_on snapped d) = ended d

  unfoldable pub publish_computed : ℕ → Shift → Bool → Snapped → Computed → Desk → Ended
  unfolding settle publish_job
  publish_computed later w lock_clears snapped (broken t) d = settle later w lock_clears (broke t d)
  publish_computed later w lock_clears snapped (computed payload) d =
      settle later w lock_clears (publish_job later w snapped payload d)

  -- `now` is the clock of the snapshot, and `later` that of the publish.
  unfoldable pub process_single_job : ℕ → ℕ → Shift → Bool → Computed → (Desk → Desk) → Desk → Ended
  unfolding begin_job publish_computed
  process_single_job now later w lock_clears result during d = elim (begin_job now w d) [
    | goes_on snapped e ↦ publish_computed later w lock_clears snapped result (during e)
    | over e ↦ ended e
    | lost e ↦ ended e
    | broke t e ↦ settle now w lock_clears (broke t e)
  ]
