-- ===== src/Worker/Enqueue.antt =====
-- worker/evolution.py, `enqueue_job`, with the constraints of its table. `isoformat` is Python's
-- text of an instant, and `dumps` the JSON text of the object with the key `latest_update`.
use mirror_memory.Prelude.{
  ℕ, String, Bool, true, Option, none, some, List, [], ◌∷◌, ◌++◌, ◌&&◌, ◌||◌, not, max, is_some,
  if◌then◌else◌,
}
use mirror_memory.Prelude.Text.{str_eq, strip, append}
use mirror_memory.Core.Rows.{MemoryPreference}
use mirror_memory.Worker.{
  EvolutionJob, code, pending, is_live, is_stale, Tenant, JobKey, in_tenant, is_job, find_job,
  first_job, update_jobs,
}
use mirror_memory.Worker.Snapshot.{Snapshot, BeliefStamp, active_of, promote_shadow_if_ready}

-- What the call reads and writes; all but the queue are the rows of the session's tenant.
pub record Board : Type 0 where
  pub jobs : List EvolutionJob
  pub snapshots : List Snapshot
  pub beliefs : List BeliefStamp
  pub preferences : String → Option MemoryPreference

-- PurposeDenied, `None`, IntegrityError, or the row with what is committed.
pub data Enqueued : Type 0 where
  purpose_denied disabled integrity_error : Enqueued
  queued : EvolutionJob → Board → Enqueued

abbrev pub enabled_or_missing : Option MemoryPreference → Bool
enabled_or_missing none = true
enabled_or_missing (some p) = p.enabled

unfoldable pub is_memory_enabled : (String → Option MemoryPreference) → String → Bool
is_memory_enabled preferences user = enabled_or_missing (preferences user)

abbrev later : ℕ → Option ℕ → ℕ
later a none = a
later a (some b) = max a b

-- `order_by(updated_at.desc()).limit(1).scalar()`
unfoldable pub latest_update : String → List BeliefStamp → Option ℕ
latest_update user [] = none
latest_update user (b ∷ bs) =
    let rest = latest_update user bs in
    if active_of user b then some (later b.updated_at rest) else rest

pub record EnqueueRequest : Type 0 where
  pub tenant : Tenant
  pub user_id : String
  pub purpose : String
  pub prompt_version : String

abbrev pub user_job : Tenant → String → EvolutionJob → Bool
user_job t user j = in_tenant t j && str_eq j.user_id user

abbrev pub live_job : Tenant → String → EvolutionJob → Bool
live_job t user j = user_job t user j && is_live j.status

abbrev pub stale_job : Tenant → String → String → EvolutionJob → Bool
stale_job t user key j = user_job t user j && (str_eq j.idempotency_key key && is_stale j.status)

-- The row's primary key.
abbrev pub key_of : EvolutionJob → JobKey
key_of j = record { tenant = record { tenant_id = j.tenant_id; app_id = j.app_id }; id = j.id }

-- A row other than `id` with the idempotency key: `uq_mm_evolution_jobs_idempotency`.
abbrev pub has_key : Tenant → String → EvolutionJob → Bool
has_key t key j = in_tenant t j && str_eq j.idempotency_key key

abbrev pub other_with_key : Tenant → String → String → EvolutionJob → Bool
other_with_key t key id j = has_key t key j && not (str_eq j.id id)

abbrev pub merged : String → String → EvolutionJob → EvolutionJob
merged mark key j = record j { evidence_watermark = mark; idempotency_key = key }

abbrev pub requeued : String → EvolutionJob → EvolutionJob
requeued mark j = record j {
  status = pending;
  attempt_count = 0;
  error_code = code "";
  started_at = none;
  completed_at = none;
  evidence_watermark = mark;
}

abbrev pub new_job : ℕ → String → EnqueueRequest → String → String → EvolutionJob
new_job now id r mark key = record {
  tenant_id = r.tenant.tenant_id;
  app_id = r.tenant.app_id;
  id = id;
  user_id = r.user_id;
  purpose = strip r.purpose;
  evidence_watermark = mark;
  prompt_version = r.prompt_version;
  idempotency_key = key;
  status = pending;
  attempt_count = 0;
  error_code = code "";
  lease_token = 0;
  lease_expires_at = none;
  created_at = now;
  started_at = none;
  completed_at = none;
}

abbrev pub merge_test : EvolutionJob → EvolutionJob → Bool
merge_test x j = is_job (key_of x) j && is_live j.status

abbrev pub requeue_test : EvolutionJob → EvolutionJob → Bool
requeue_test x j = is_job (key_of x) j && is_stale j.status

unfoldable pub merge : EnqueueRequest → String → String → EvolutionJob → Board → Enqueued
merge r mark key x b =
    if is_some (first_job (other_with_key r.tenant key x.id) b.jobs)
    then integrity_error
    else queued (merged mark key x)
        (record b { jobs = update_jobs (merge_test x) (merged mark key) b.jobs })

unfoldable pub insert : ℕ → String → EnqueueRequest → String → String → Board → Enqueued
insert now id r mark key b =
    if is_some (find_job (record { tenant = r.tenant; id = id }) b.jobs)
      || is_some (first_job (has_key r.tenant key) b.jobs)
    then integrity_error
    else queued (new_job now id r mark key)
        (record b { jobs = b.jobs ++ new_job now id r mark key ∷ [] })

-- With no live job: the promotion, then the stale job of the key or a new one.
unfoldable pub reuse_or_insert : ℕ → String → EnqueueRequest → String → String → Board → Enqueued
unfolding insert promote_shadow_if_ready first_job
reuse_or_insert now id r mark key b =
    let c = record b { snapshots = (promote_shadow_if_ready r.user_id b.beliefs b.snapshots).1 } in
    elim (first_job (stale_job r.tenant r.user_id key) b.jobs) [
      | some x ↦
          queued (requeued mark x)
            (record c { jobs = update_jobs (requeue_test x) (requeued mark) b.jobs })
      | none ↦ insert now id r mark key c
    ]

module _ (isoformat : ℕ → String) (dumps : String → String) where
  abbrev pub watermark_text : Option ℕ → String
  watermark_text none = "none"
  watermark_text (some t) = isoformat t

  -- `_current_watermark`
  abbrev pub current_watermark : String → Board → String
  current_watermark user b = watermark_text (latest_update user b.beliefs)

  -- `f"{user_id}:{watermark}:{prompt_version}"`
  abbrev pub idempotency_key : EnqueueRequest → Board → String
  idempotency_key r b =
      append r.user_id
        (append ":" (append (current_watermark r.user_id b) (append ":" r.prompt_version)))

  unfoldable pub enqueue : ℕ → String → EnqueueRequest → Board → Enqueued
  unfolding first_job merge reuse_or_insert
  enqueue now id r b = elim (first_job (live_job r.tenant r.user_id) b.jobs) [
    | some x ↦ merge r (dumps (current_watermark r.user_id b)) (idempotency_key r b) x b
    | none ↦
        reuse_or_insert now id r (dumps (current_watermark r.user_id b)) (idempotency_key r b) b
  ]

  -- `now` and `id` are the clock and the new `uuid4().hex[:16]`.
  unfoldable pub enqueue_job : ℕ → String → EnqueueRequest → Board → Enqueued
  unfolding enqueue is_memory_enabled
  enqueue_job now id r b =
      if str_eq (strip r.purpose) ""
      then purpose_denied
      else if is_memory_enabled b.preferences r.user_id
      then enqueue now id r b
      else disabled
