-- ===== src/Worker/Fencing.antt =====
-- worker/evolution.py: the lease token as a fence.
use mirror_memory.Prelude.{
  ℕ, ◌+◌, ◌≤◌, ◌<◌, String, Bool, true, false, none, some, List, [], ◌∷◌, ◌++◌, ◌&&◌, ◌==◌, ◌≡◌,
  ◌≢◌, refl, sym, subst, ap, inl, inr, ltb, Bool-cases, Option-cases, arith,
}
use mirror_memory.Prelude.Text.{eq_refl}
use mirror_memory.Worker.{
  EvolutionJob, ErrorCode, is_pending, JobKey, is_job, find_job, first_job, update_jobs, count_jobs,
}
use mirror_memory.Worker.Counting.{
  one, count_mono, count-update, count-update_same, count_snoc, count-none, count-first_job,
  first_job-passes, update-none, count-one_row, count-update_row,
}
use mirror_memory.Worker.Lease.{
  claim_job, claimed, claimable, renew_lease, renewed, renewable, JobChanges, changed, held,
  set_job_state, block_job, sweep, expired, released,
}
use mirror_memory.Worker.Enqueue.{
  EnqueueRequest, Board, live_job, has_key, other_with_key, merge, merged, merge_test, requeued,
  requeue_test, insert, new_job, enqueue_job, idempotency_key, current_watermark,
}
use mirror_memory.Worker.Branches.{IfQueued, promoted, enqueue_job-branches}
use mirror_memory.Worker.Steps.{
  Step, enqueueing, claiming, renewing, changing, sweeping, forgetting, Steps, stay, then_step,
  forgotten, cancel_jobs,
}
use mirror_memory.Worker.Single.{IsQueue, in_tenant_same, str_eq_same}
use mirror_memory.Worker.Mutex.{set_job_state-lands}

-- The row is there, and its token has reached a number.
abbrev below : JobKey → ℕ → EvolutionJob → Bool
below k n j = is_job k j && ltb j.lease_token n

abbrev Reached : JobKey → ℕ → List EvolutionJob → Type 0
Reached k n q = (count_jobs (is_job k) q ≡ 1) × (count_jobs (below k n) q ≡ 0)

module _ (k : JobKey) (n : ℕ) where
  -- An UPDATE that keeps the key, and lowers no token.
  Reached-update_jobs :
      (test : EvolutionJob → Bool) (f : EvolutionJob → EvolutionJob) (q : List EvolutionJob)
      → ((j : EvolutionJob) → is_job k (f j) ≡ is_job k j)
      → ((j : EvolutionJob) → j.lease_token ≤ (f j).lease_token)
      → Reached k n q
      → Reached k n (update_jobs test f q)
  Reached-update_jobs test f q row rises (here, high) =
      let le = count-update (below k n) test f q (λ j t p. ground (arith, row j, rises j, p)) in
      (rw (count-update_same (is_job k) test f q row) here, ground (arith, le, high))

  module _ (now : ℕ) (id : String) (r : EnqueueRequest) (mark key : String) (b : Board)
      (w : Reached k n b.jobs) where
    merge-Reached : (x : EvolutionJob) → IfQueued (λ j c. Reached k n c.jobs) (merge r mark key x b)
    unfolding merge is_job
    merge-Reached x = elim (Option-cases (first_job (other_with_key r.tenant key x.id) b.jobs)) [
      | inr (y, e) ↦ rw e tt
      | inl e ↦ rw e (
          Reached-update_jobs (merge_test x) (merged mark key) b.jobs (λ j. refl)
            (λ j. ground arith) w)
    ]

    insert-Reached : IfQueued (λ j c. Reached k n c.jobs) (insert now id r mark key b)
    unfolding insert is_job
    insert-Reached =
        let l : JobKey = record { tenant = r.tenant; id = id } in
        elim (Option-cases (find_job l b.jobs)) [
          | inr (y, e) ↦ rw e tt
          | inl e ↦ elim (Option-cases (first_job (has_key r.tenant key) b.jobs)) [
            | inr (y, d) ↦ rw e (rw d tt)
            | inl d ↦ rw e (rw d (added (count-none (is_job l) b.jobs e)))
          ]
        ]
      where
        new : EvolutionJob
        new = new_job now id r mark key

        elsewhere :
            count_jobs (is_job (record { tenant = r.tenant; id = id })) b.jobs ≡ 0
            → is_job k new ≡ false
        elsewhere z = elim (Bool-cases (is_job k new)) [
          | inr off ↦ off
          | inl on ↦
              let mono =
                count_mono (is_job k) (is_job (record { tenant = r.tenant; id = id })) b.jobs
                  (λ j p. ground (
                    arith,
                    p,
                    on,
                    in_tenant_same k.tenant r.tenant new j (ground (arith, on))
                        (ground (arith, eq_refl r.tenant.tenant_id, eq_refl r.tenant.app_id)),
                    str_eq_same k.id id id j.id (ground (arith, on)) (eq_refl id),
                  )) in
              absurd (ground (arith, mono, z, w.0))
        ]

        added :
            count_jobs (is_job (record { tenant = r.tenant; id = id })) b.jobs ≡ 0
            → Reached k n (b.jobs ++ new_job now id r mark key ∷ [])
        added z =
            let off = elsewhere z in
            (
              ground (arith, count_snoc (is_job k) b.jobs new, off, w.0),
              ground (arith, count_snoc (below k n) b.jobs new, off, w.1),
            )

  enqueue_job-Reached :
      (isoformat : ℕ → String) (dumps : String → String) (now : ℕ) (id : String)
      (r : EnqueueRequest) (b : Board)
      → Reached k n b.jobs
      → IfQueued (λ j c. Reached k n c.jobs) (enqueue_job isoformat dumps now id r b)
  unfolding is_job
  enqueue_job-Reached isoformat dumps now id r b w =
      let mark = dumps (current_watermark isoformat dumps r.user_id b) in
      let key = idempotency_key isoformat dumps r b in
      enqueue_job-branches isoformat dumps now id r b (λ j c. Reached k n c.jobs)
        (λ x found. merge-Reached now id r mark key b w x)
        (λ x idle found.
          Reached-update_jobs (requeue_test x) (requeued mark) b.jobs (λ j. refl)
            (λ j. ground arith) w)
        (λ idle fresh. insert-Reached now id r mark key (promoted b r.user_id) w)

  -- No committed change lowers the token of a row, or removes it.
  Step-Reached : (q t : List EvolutionJob) → Step q t → Reached k n q → Reached k n t
  unfolding is_job claim_job renew_lease sweep cancel_jobs
  Step-Reached q t (enqueueing isoformat dumps now id r b c j e d h) w = subst (Reached k n) d (
      subst (IfQueued (λ j c. Reached k n c.jobs)) h
        (enqueue_job-Reached isoformat dumps now id r b (subst (Reached k n) (sym e) w)))
  Step-Reached q t (claiming now lease l e) w =
      subst (Reached k n) (sym e)
        (Reached-update_jobs (claimable l) (claimed now lease) q (λ j. refl) (λ j. ground arith) w)
  Step-Reached q t (renewing now lease l token e) w = subst (Reached k n) (sym e) (
      Reached-update_jobs (renewable l token) (renewed now lease) q (λ j. refl) (λ j. ground arith)
        w)
  Step-Reached q t (changing l fence c h) w =
      subst (Reached k n) (set_job_state-lands l fence c q t h)
        (Reached-update_jobs (held l fence) (changed c) q (λ j. refl) (λ j. ground arith) w)
  Step-Reached q t (sweeping now e) w =
      subst (Reached k n) (sym e)
        (Reached-update_jobs (expired now) released q (λ j. refl) (λ j. ground arith) w)
  Step-Reached q t (forgetting tenant user e) w =
      subst (Reached k n) (sym e)
        (Reached-update_jobs (live_job tenant user) forgotten q (λ j. refl) (λ j. ground arith) w)

  Steps-Reached : (q t : List EvolutionJob) → Steps q t → Reached k n q → Reached k n t
  Steps-Reached q t stay w = w
  Steps-Reached q t (then_step {t = before} r step) w =
      Step-Reached before t step (Steps-Reached q before r w)

  -- Below a reached token, every fenced call finds no row.
  fenced :
      (token : ℕ) (q : List EvolutionJob)
      → token < n
      → Reached k n q
      → count_jobs (held k (some token)) q ≡ 0
  fenced token q lt (here, high) =
      let le = count_mono (held k (some token)) (below k n) q (λ j p. ground (arith, p, lt)) in
      ground (arith, le, high)

-- The row of a claim that succeeds.
module _ (now lease : ℕ) (k : JobKey) (q t : List EvolutionJob) (n : ℕ)
    (w : count_jobs (is_job k) q ≤ 1) (won : claim_job now lease k q ≡ (some n, t)) where
  claimed_queue : update_jobs (claimable k) (claimed now lease) q ≡ t
  unfolding claim_job
  claimed_queue = ap (λ p. p.1) won

  found_row : (x : EvolutionJob) × (find_job k t ≡ some x) × (x.lease_token ≡ n)
  unfolding claim_job
  found_row = elim (Bool-cases (count_jobs (claimable k) q == 0)) [
    | inl e ↦ absurd (ground (arith, e, ap (λ p. p.0) won))
    | inr e ↦ elim (Option-cases (find_job k (update_jobs (claimable k) (claimed now lease) q))) [
      | inl d ↦ absurd (ground (arith, e, d, ap (λ p. p.0) won))
      | inr (x, d) ↦ (
        x,
        subst (λ (u : List EvolutionJob). find_job k u ≡ some x) claimed_queue d,
        ground (arith, e, d, ap (λ p. p.0) won),
      )
    ]
  ]

  some_pending : count_jobs (claimable k) q ≢ 0
  unfolding claim_job
  some_pending e = ground (arith, e, ap (λ p. p.0) won)

  one_row-claimed : count_jobs (is_job k) t ≤ 1
  unfolding is_job
  one_row-claimed =
      subst (λ (u : List EvolutionJob). count_jobs (is_job k) u ≤ 1) claimed_queue
        (rw (count-update_same (is_job k) (claimable k) (claimed now lease) q (λ j. refl)) w)

  -- How many rows of the key the claim leaves under a number.
  count-below :
      (m : ℕ) (x : EvolutionJob)
      → find_job k t ≡ some x
      → count_jobs (below k m) t ≡ one (ltb x.lease_token m)
  count-below m x e =
      count-one_row (is_job k) (λ j. ltb j.lease_token m) (is_job k) x
        (first_job-passes (is_job k) t x e) t (one_row-claimed) e

  claim_job-Reached : Reached k n t
  claim_job-Reached =
      let (x, e, token) = found_row in
      let at = first_job-passes (is_job k) t x e in
      (
        ground (arith, one_row-claimed, count-first_job (is_job k) (is_job k) t x e at),
        ground (arith, token, count-below n x e),
      )

  -- A claim takes a number above every token reached before.
  claim_job-rises : (m : ℕ) → Reached k m q → m < n
  unfolding is_job
  claim_job-rises m (here, high) = elim (Option-cases (find_job k q)) [
    | inl e ↦ absurd (ground (arith, here, count-none (is_job k) q e))
    | inr (y, e) ↦
        let at = first_job-passes (is_job k) q y e in
        let (x, d, token) = found_row in
        let pending_here =
          count-one_row (is_job k) (λ j. is_pending j.status) (is_job k) y at q (w) e in
        let low = count-one_row (is_job k) (λ j. ltb j.lease_token m) (is_job k) y at q (w) e in
        let low_next =
          count-one_row (is_job k) (λ j. ltb j.lease_token (m + 1)) (is_job k) y at q (w) e in
        let was_pending : is_pending y.status ≡ true = ground (arith, pending_here, some_pending) in
        let moved =
          count-update_row (is_job k) (λ j. is_pending j.status) (is_job k) y at (below k (m + 1))
            (claimed now lease) q was_pending (w) e in
        let after = count-below (m + 1) x d in
        let same = ap (λ u. count_jobs (below k (m + 1)) u) claimed_queue in
        ground (arith, at, high, low, low_next, moved, same, after, token)
  ]

-- Once a worker has claimed a job and, after any enqueues, claims, renewals, fenced or unfenced
-- changes of jobs, sweeps and forgets, another claim of the job has succeeded, then after any further
-- ones of these the first worker's token is below the second's, its
-- fenced changes raise LeaseLost, and its renewals return False and change nothing, as does its
-- attempt to cancel the job.
pub Steps-fenced :
    (k : JobKey) (now lease later next_lease n m : ℕ) (q a b c d : List EvolutionJob)
    → IsQueue q
    → claim_job now lease k q ≡ (some n, a)
    → Steps a b
    → claim_job later next_lease k b ≡ (some m, c)
    → Steps c d
    → (n < m)
      × ((changes : JobChanges) → set_job_state k (some n) changes d ≡ none)
      × ((t s : ℕ) → renew_lease t s k n d ≡ (false, d))
      × ((t : ℕ) (reason : ErrorCode) → block_job t k reason (some n) d ≡ d)
unfolding set_job_state renew_lease block_job
Steps-fenced k now lease later next_lease n m q a b c d w first between second after =
    let wq = w.one_row k in
    let between_reached =
      Steps-Reached k n a b between (claim_job-Reached now lease k q a n wq first) in
    let wb : count_jobs (is_job k) b ≤ 1 = ground (arith, between_reached.0) in
    let rises = claim_job-rises later next_lease k b c m wb second n between_reached in
    let reached =
      Steps-Reached k m c d after (claim_job-Reached later next_lease k b c m wb second) in
    let gone = fenced k m n d rises reached in
    let not_renewed = count_mono (renewable k n) (held k (some n)) d (λ j p. ground (arith, p)) in
    let no_renewal : count_jobs (renewable k n) d ≡ 0 = ground (arith, gone, not_renewed) in
    (
      rises,
      λ changes. ground (arith, gone),
      λ t s.
          rw no_renewal
            (ap (λ u. (false, u)) (update-none (renewable k n) (renewed t s) d no_renewal)),
      λ t reason. rw (gone, block_job, set_job_state) refl,
    )
