-- ===== src/Worker.antt =====
-- core/models.py, `EvolutionJob`, and worker/evolution.py: the queue of synthesis jobs that the
-- workers of all tenants share. An instant is a number of microseconds.
pub mod Counting
pub mod Lease
pub mod Snapshot
pub mod Enqueue
pub mod Steps
pub mod Branches
pub mod Single
pub mod Mutex
pub mod Process
pub mod Guarded
pub mod Validate
pub mod Validated
pub mod Tick
pub mod Waiting
pub mod Versions
pub mod Retries
pub mod Exhausted
pub mod Fencing
pub mod Idempotent
pub mod Blocked
use mirror_memory.Prelude.{
  ℕ, String, Bool, Option, none, some, List, [], ◌∷◌, ◌&&◌, ◌+◌, true, false, if◌then◌else◌,
}
use mirror_memory.Prelude.Text.{str_eq}
use mirror_memory.Core.Publisher.Publish.{Verdict}

pub data JobStatus : Type 0 where
  pending running completed failed cancelled : JobStatus

-- A text of the source, or the reason of a refused publish, whose text is built from its verdict.
pub data ErrorCode : Type 0 where
  code : String → ErrorCode
  publish_refused : Verdict → ErrorCode

pub record EvolutionJob : Type 0 where
  pub tenant_id : String
  pub app_id : String
  pub id : String
  pub user_id : String
  pub purpose : String
  pub evidence_watermark : String
  pub prompt_version : String
  pub idempotency_key : String
  pub status : JobStatus
  pub attempt_count : ℕ
  pub error_code : ErrorCode
  pub lease_token : ℕ
  pub lease_expires_at : Option ℕ
  pub created_at : ℕ
  pub started_at : Option ℕ
  pub completed_at : Option ℕ

-- What the filters of the queries test of a status.
unfoldable pub is_pending : JobStatus → Bool
is_pending pending = true
is_pending _ = false

unfoldable pub is_running : JobStatus → Bool
is_running running = true
is_running _ = false

-- `status.in_(("pending", "running"))` and `status.in_(("completed", "failed"))`
unfoldable pub is_live : JobStatus → Bool
is_live pending = true
is_live running = true
is_live _ = false

unfoldable pub is_stale : JobStatus → Bool
is_stale completed = true
is_stale failed = true
is_stale _ = false

-- The scope of a session, and the primary key of a job.
pub record Tenant : Type 0 where
  pub tenant_id : String
  pub app_id : String

pub record JobKey : Type 0 where
  pub tenant : Tenant
  pub id : String

abbrev pub in_tenant : Tenant → EvolutionJob → Bool
in_tenant t j = str_eq j.tenant_id t.tenant_id && str_eq j.app_id t.app_id

unfoldable pub is_job : JobKey → EvolutionJob → Bool
is_job k j = in_tenant k.tenant j && str_eq j.id k.id

-- `query.filter(...).first()`
unfoldable pub first_job : (EvolutionJob → Bool) → List EvolutionJob → Option EvolutionJob
first_job test [] = none
first_job test (j ∷ js) = if test j then some j else first_job test js

-- `session.get(EvolutionJob, id)`
abbrev pub find_job : JobKey → List EvolutionJob → Option EvolutionJob
find_job k js = first_job (is_job k) js

-- `query.filter(...).update(...)`
unfoldable pub update_jobs :
    (EvolutionJob → Bool) → (EvolutionJob → EvolutionJob) → List EvolutionJob → List EvolutionJob
update_jobs test f [] = []
update_jobs test f (j ∷ js) = (if test j then f j else j) ∷ update_jobs test f js

-- The number of rows that the UPDATE matches.
unfoldable pub count_jobs : (EvolutionJob → Bool) → List EvolutionJob → ℕ
count_jobs test [] = 0
count_jobs test (j ∷ js) = let rest = count_jobs test js in if test j then rest + 1 else rest
