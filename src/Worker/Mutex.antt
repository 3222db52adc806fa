-- ===== src/Worker/Mutex.antt =====
-- worker/evolution.py: the invariant of the queue along any sequence of committed changes.
use mirror_memory.Prelude.{
  ℕ, ◌≤◌, String, Bool, Option, none, [], ◌∷◌, ◌&&◌, ap, true, false, some, List, ◌≡◌, ◌≢◌, refl,
  sym, subst, inl, inr, Bool-cases, arith, ◌==◌, some_eq, ◌∙◌,
}
use mirror_memory.Worker.{
  EvolutionJob, is_live, is_pending, is_running, Tenant, JobKey, is_job, find_job, update_jobs,
  count_jobs,
}
use mirror_memory.Worker.Counting.{
  first_job-passes, count-update_row, count-update_same, count-one_row,
}
use mirror_memory.Worker.Lease.{
  claim_job, claimed, claimable, renew_lease, renewed, renewable, JobChanges, changed, held,
  set_job_state, sweep, expired, released,
}
use mirror_memory.Worker.Enqueue.{
  EnqueueRequest, Board, live_job, has_key, enqueue_job, idempotency_key, current_watermark,
}
use mirror_memory.Worker.Branches.{promoted, enqueue_job-branches}
use mirror_memory.Worker.Steps.{
  Step, enqueueing, claiming, renewing, changing, sweeping, forgetting, Steps, stay, then_step,
  RevivesNone, ReviveNone, forgotten, cancel_jobs,
}
use mirror_memory.Worker.Single.{
  IsQueue, IsQueue-update_jobs, Kept, merge-Kept, requeue-IsQueue, insert-Kept,
}

pub enqueue_job-Kept :
    (isoformat : ℕ → String) (dumps : String → String) (now : ℕ) (id : String) (r : EnqueueRequest)
    (b : Board)
    → IsQueue b.jobs
    → Kept (enqueue_job isoformat dumps now id r b)
enqueue_job-Kept isoformat dumps now id r b w =
    let mark = dumps (current_watermark isoformat dumps r.user_id b) in
    let key = idempotency_key isoformat dumps r b in
    enqueue_job-branches isoformat dumps now id r b (λ j c. IsQueue c.jobs)
      (λ x found. merge-Kept r mark key b w x found)
      (λ x idle found. requeue-IsQueue r mark key b w x idle found)
      (λ idle fresh. insert-Kept r mark key (promoted b r.user_id) w now id idle)

pub claim_job-IsQueue :
    (now lease : ℕ) (k : JobKey) (q : List EvolutionJob)
    → IsQueue q
    → IsQueue (claim_job now lease k q).1
unfolding claim_job is_job is_pending is_live
claim_job-IsQueue now lease k q w =
    IsQueue-update_jobs (claimable k) (claimed now lease) q (λ l j. refl) (λ t n j. refl)
      (λ t user j c d. ground (arith, c, d)) w

renew_lease-IsQueue :
    (now lease : ℕ) (k : JobKey) (token : ℕ) (q : List EvolutionJob)
    → IsQueue q
    → IsQueue (renew_lease now lease k token q).1
unfolding renew_lease is_job
renew_lease-IsQueue now lease k token q w =
    IsQueue-update_jobs (renewable k token) (renewed now lease) q (λ l j. refl) (λ t n j. refl)
      (λ t user j c d. d) w

sweep-IsQueue : (now : ℕ) (q : List EvolutionJob) → IsQueue q → IsQueue (sweep now q)
unfolding sweep is_job is_running is_live
sweep-IsQueue now q w =
    IsQueue-update_jobs (expired now) released q (λ l j. refl) (λ t n j. refl)
      (λ t user j c d. ground (arith, c, d)) w

cancel_jobs-IsQueue :
    (tenant : Tenant) (user : String) (q : List EvolutionJob)
    → IsQueue q
    → IsQueue (cancel_jobs tenant user q)
unfolding cancel_jobs is_job is_live
cancel_jobs-IsQueue tenant user q w =
    IsQueue-update_jobs (live_job tenant user) forgotten q (λ l j. refl) (λ t n j. refl)
      (λ t u j c d. absurd (ground (arith, d))) w

-- What a change that lands has done.
pub set_job_state-lands :
    (k : JobKey) (fence : Option ℕ) (c : JobChanges) (q t : List EvolutionJob)
    → set_job_state k fence c q ≡ some t
    → update_jobs (held k fence) (changed c) q ≡ t
unfolding set_job_state
set_job_state-lands k none c q t h = some_eq {x = update_jobs (held k none) (changed c) q} {y = t} h
set_job_state-lands k (some token) c q t h =
    elim (Bool-cases (count_jobs (held k (some token)) q == 0)) [
      | inl e ↦ absurd (ground (arith, e, h))
      | inr e ↦
          some_eq {x = update_jobs (held k (some token)) (changed c) q} {y = t}
            (sym (rw (e, set_job_state) refl) ∙ h)
    ]

set_job_state-counts :
    (k : JobKey) (token : ℕ) (c : JobChanges) (q t : List EvolutionJob)
    → set_job_state k (some token) c q ≡ some t
    → count_jobs (held k (some token)) q ≢ 0
unfolding set_job_state
set_job_state-counts k token c q t h e = ground (arith, e, h)

changed-keeps :
    (c : JobChanges) (k : JobKey) (j : EvolutionJob) → is_job k (changed c j) ≡ is_job k j
unfolding is_job
changed-keeps c k j = refl

ending-IsQueue :
    (k : JobKey) (fence : Option ℕ) (c : JobChanges) (q : List EvolutionJob)
    → is_live c.status ≡ false
    → IsQueue q
    → IsQueue (update_jobs (held k fence) (changed c) q)
ending-IsQueue k fence c q dead w =
    IsQueue-update_jobs (held k fence) (changed c) q (changed-keeps c) (λ t n j. refl)
      (λ t user j d e. absurd (ground (arith, e, dead))) w

retrying-IsQueue :
    (k : JobKey) (fence : Option ℕ) (c : JobChanges) (q : List EvolutionJob) (x : EvolutionJob)
    → find_job k q ≡ some x
    → is_live x.status ≡ true
    → ((t : Tenant) (user : String)
        → count_jobs (live_job t user) (update_jobs (held k fence) (changed c) q)
          ≤ count_jobs (live_job t user) q)
    → IsQueue q
    → IsQueue (update_jobs (held k fence) (changed c) q)
retrying-IsQueue k fence c q x found live fewer w = record {
  one_row = λ l.
      rw (count-update_same (is_job l) (held k fence) (changed c) q (changed-keeps c l))
        (w.one_row l);
  one_key = λ t n.
      rw (count-update_same (has_key t n) (held k fence) (changed c) q (λ j. refl)) (w.one_key t n);
  one_live = λ t user. omega (arith, fewer t user, w.one_live t user);
}

update-same_test :
    (a b : EvolutionJob → Bool) (f : EvolutionJob → EvolutionJob)
    → ((j : EvolutionJob) → a j ≡ b j)
    → (q : List EvolutionJob) → update_jobs a f q ≡ update_jobs b f q
unfolding update_jobs
update-same_test a b f same [] = refl
update-same_test a b f same (j ∷ q) = rw (same j, update-same_test a b f same q) refl

-- A change that finds its row live makes no second one live. Without a fence the row of the key is
-- the one that changes.
reviving-IsQueue :
    (k : JobKey) (fence : Option ℕ) (c : JobChanges) (q t : List EvolutionJob) (x : EvolutionJob)
    → find_job k q ≡ some x
    → is_live x.status ≡ true
    → set_job_state k fence c q ≡ some t
    → IsQueue q
    → IsQueue (update_jobs (held k fence) (changed c) q)
reviving-IsQueue k (some token) c q t0 x found live h w =
    retrying-IsQueue k (some token) c q x found live
      (λ t user.
        let at = first_job-passes (is_job k) q x found in
        let here =
          count-one_row (is_job k) (λ j. j.lease_token == token) (is_job k) x at q (w.one_row k)
            found in
        let holds : (x.lease_token == token) ≡ true =
          ground (arith, here, set_job_state-counts k token c q t0 h) in
        let moved =
          count-update_row (is_job k) (λ j. j.lease_token == token) (is_job k) x at
            (live_job t user) (changed c) q holds (w.one_row k) found in
        ground (arith, moved, live))
      w
reviving-IsQueue k none c q t0 x found live h w =
    retrying-IsQueue k none c q x found live
      (λ t user.
        let at = first_job-passes (is_job k) q x found in
        let moved =
          count-update_row (is_job k) (λ j. true) (is_job k) x at (live_job t user) (changed c) q
            refl (w.one_row k) found in
        let same =
          update-same_test (λ j. is_job k j && true) (held k none) (changed c) (λ j. ground arith)
            q in
        ground (arith, ap (count_jobs (live_job t user)) same, moved, live))
      w

Step-IsQueue : (q t : List EvolutionJob) (s : Step q t) → RevivesNone s → IsQueue q → IsQueue t
unfolding RevivesNone
Step-IsQueue q t (enqueueing isoformat dumps now id r b c j e d h) n w =
    subst IsQueue d
      (subst Kept h (enqueue_job-Kept isoformat dumps now id r b (subst IsQueue (sym e) w)))
Step-IsQueue q t (claiming now lease k e) n w =
    subst IsQueue (sym e) (claim_job-IsQueue now lease k q w)
Step-IsQueue q t (renewing now lease k token e) n w =
    subst IsQueue (sym e) (renew_lease-IsQueue now lease k token q w)
Step-IsQueue q t (changing k fence c h) (inl dead) w =
    subst IsQueue (set_job_state-lands k fence c q t h) (ending-IsQueue k fence c q dead w)
Step-IsQueue q t (changing k fence c h) (inr (x, found, live)) w =
    subst IsQueue (set_job_state-lands k fence c q t h)
      (reviving-IsQueue k fence c q t x found live h w)
Step-IsQueue q t (sweeping now e) n w = subst IsQueue (sym e) (sweep-IsQueue now q w)
Step-IsQueue q t (forgetting tenant user e) n w =
    subst IsQueue (sym e) (cancel_jobs-IsQueue tenant user q w)

-- Any sequence of enqueues, claims, renewals, changes of jobs with a fence or without, sweeps and
-- forgets, with any clocks, ids and tokens, in which each change ends its job or finds it still
-- pending or running, takes a queue with at most one row for a primary key, at most one for an
-- idempotency key of a tenant, and at most one pending or running job for a user of a tenant to
-- another such queue.
pub Steps-IsQueue : (q t : List EvolutionJob) (s : Steps q t) → ReviveNone s → IsQueue q → IsQueue t
unfolding ReviveNone
Steps-IsQueue q t stay r w = w
Steps-IsQueue q t (then_step {t = before} s step) (r, n) w =
    Step-IsQueue before t step n (Steps-IsQueue q before s r w)
