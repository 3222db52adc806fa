-- ===== src/Worker/Idempotent.antt =====
-- worker/evolution.py, `enqueue_job`: called again before anything else has happened.
use mirror_memory.Prelude.{
  ℕ, ◌≤◌, String, true, false, Option, none, some, List, [], ◌∷◌, ◌++◌, ◌&&◌, ◌≡◌, refl, sym, subst,
  ap, inl, inr, Bool-cases, Option-cases, arith,
}
use mirror_memory.Prelude.Text.{str_eq, strip, eq_refl, eq_iff}
use mirror_memory.Core.Rows.{MemoryPreference}
use mirror_memory.Worker.{
  EvolutionJob, is_live, is_stale, JobKey, is_job, find_job, first_job, update_jobs, count_jobs,
}
use mirror_memory.Worker.Counting.{
  count_mono, count-update, count-update_same, count_snoc, count-none, count-first_job,
  first_job-count, first_job-passes, count_disjoint, first_job-update, first_job-update_row,
  first_job_snoc, update-same_row,
}
use mirror_memory.Worker.Snapshot.{BeliefStamp}
use mirror_memory.Worker.Branches.{IfQueued, promoted, enqueue_job-branches}
use mirror_memory.Worker.Enqueue.{
  EnqueueRequest, Board, queued, live_job, stale_job, key_of, has_key, other_with_key, merge,
  merged, merge_test, requeued, requeue_test, insert, new_job, enqueue, enqueue_job,
  is_memory_enabled, idempotency_key, current_watermark,
}
use mirror_memory.Worker.Single.{IsQueue, Kept, is_job-key_of}
use mirror_memory.Worker.Mutex.{enqueue_job-Kept}

module _ (r : EnqueueRequest) (mark key : String) (b : Board) where
  -- The row that the call returned is the user's live job, with the watermark and the key of the
  -- call, which no other row has; and the call has written neither beliefs nor preferences.
  pub record IsSettled (j : EvolutionJob) (c : Board) : Type 0 where
    pub same_beliefs : c.beliefs ≡ b.beliefs
    pub same_preferences : c.preferences ≡ b.preferences
    pub live : first_job (live_job r.tenant r.user_id) c.jobs ≡ some j
    pub current : merged mark key j ≡ j
    pub own_key : first_job (other_with_key r.tenant key j.id) c.jobs ≡ none

module _ (r : EnqueueRequest) (mark key : String) (b : Board) (w : IsQueue b.jobs) where
  merge-IsSettled :
      (x : EvolutionJob)
      → first_job (live_job r.tenant r.user_id) b.jobs ≡ some x
      → IfQueued (IsSettled r mark key b) (merge r mark key x b)
  unfolding merge is_job
  merge-IsSettled x found =
      elim (Option-cases (first_job (other_with_key r.tenant key x.id) b.jobs)) [
        | inr (y, e) ↦ rw e tt
        | inl e ↦ rw e (record {
          same_beliefs = refl;
          same_preferences = refl;
          live =
              first_job-update (live_job r.tenant r.user_id) (merge_test x) (merged mark key) b.jobs
                x (λ j. refl) (ground (arith, passes, is_job-key_of x)) found;
          current = refl;
          own_key =
              first_job-count (other_with_key r.tenant key x.id)
                (update_jobs (merge_test x) (merged mark key) b.jobs)
                (ground (arith, others, count-none (other_with_key r.tenant key x.id) b.jobs e));
        })
      ]
    where
      passes : live_job r.tenant r.user_id x ≡ true
      passes = first_job-passes (live_job r.tenant r.user_id) b.jobs x found

      others :
          count_jobs
            (other_with_key r.tenant key x.id)
            (update_jobs (merge_test x) (merged mark key) b.jobs)
          ≤ count_jobs (other_with_key r.tenant key x.id) b.jobs
      others =
          count-update (other_with_key r.tenant key x.id) (merge_test x) (merged mark key) b.jobs
            (λ j c d. absurd (ground (arith, c, d)))

  requeue-IsSettled :
      (x : EvolutionJob)
      → first_job (live_job r.tenant r.user_id) b.jobs ≡ none
      → first_job (stale_job r.tenant r.user_id key) b.jobs ≡ some x
      → IsSettled r mark key b (requeued mark x) (record (promoted b r.user_id) {
        jobs = update_jobs (requeue_test x) (requeued mark) b.jobs;
      })
  unfolding is_job is_live
  requeue-IsSettled x idle found = record {
    same_beliefs = refl;
    same_preferences = refl;
    live =
        first_job-update_row (is_job (key_of x)) (λ j. is_stale j.status)
          (stale_job r.tenant r.user_id key) x (is_job-key_of x) (live_job r.tenant r.user_id)
          (requeued mark) b.jobs (ground (arith, passes)) (ground (arith, passes))
          (w.one_row (key_of x)) (count-none (live_job r.tenant r.user_id) b.jobs idle) found;
    current =
        ap (λ n. record (requeued mark x) { idempotency_key = n })
          (ground (arith, passes, eq_iff x.idempotency_key key));
    own_key =
        first_job-count (other_with_key r.tenant key x.id)
          (update_jobs (requeue_test x) (requeued mark) b.jobs)
          (rw
            (count-update_same (other_with_key r.tenant key x.id) (requeue_test x) (requeued mark)
              b.jobs (λ j. refl))
            others);
  }
    where
      passes : stale_job r.tenant r.user_id key x ≡ true
      passes = first_job-passes (stale_job r.tenant r.user_id key) b.jobs x found

      others : count_jobs (other_with_key r.tenant key x.id) b.jobs ≡ 0
      others =
          let split =
            count_disjoint (has_key r.tenant key) (other_with_key r.tenant key x.id)
              (λ j. has_key r.tenant key j && str_eq j.id x.id) b.jobs (λ j p. ground (arith, p))
              (λ j p. (ground (arith, p), ground (arith, p))) in
          let here =
            count-first_job (stale_job r.tenant r.user_id key)
              (λ j. has_key r.tenant key j && str_eq j.id x.id) b.jobs x found
              (ground (arith, passes, eq_refl x.id)) in
          ground (arith, split, here, w.one_key r.tenant key)

  insert-IsSettled :
      (now : ℕ) (id : String)
      → first_job (live_job r.tenant r.user_id) b.jobs ≡ none
      → IfQueued (IsSettled r mark key b) (insert now id r mark key (promoted b r.user_id))
  unfolding insert is_job is_live
  insert-IsSettled now id idle =
      let l : JobKey = record { tenant = r.tenant; id = id } in
      elim (Option-cases (find_job l b.jobs)) [
        | inr (y, e) ↦ rw e tt
        | inl e ↦ elim (Option-cases (first_job (has_key r.tenant key) b.jobs)) [
          | inr (y, d) ↦ rw e (rw d tt)
          | inl d ↦ rw e (
              rw d (record {
                same_beliefs = refl;
                same_preferences = refl;
                live =
                    first_job_snoc (live_job r.tenant r.user_id) b.jobs (new_job now id r mark key)
                      (count-none (live_job r.tenant r.user_id) b.jobs idle)
                      (ground (
                        arith,
                        eq_refl r.tenant.tenant_id,
                        eq_refl r.tenant.app_id,
                        eq_refl r.user_id,
                      ));
                current = refl;
                own_key =
                    first_job-count (other_with_key r.tenant key id)
                      (b.jobs ++ new_job now id r mark key ∷ []) (others d);
              }))
        ]
      ]
    where
      others :
          first_job (has_key r.tenant key) b.jobs ≡ none
          → count_jobs (other_with_key r.tenant key id) (b.jobs ++ new_job now id r mark key ∷ [])
            ≡ 0
      others d =
          let le =
            count_mono (other_with_key r.tenant key id) (has_key r.tenant key) b.jobs
              (λ j p. ground (arith, p)) in
          ground (
            arith,
            le,
            count-none (has_key r.tenant key) b.jobs d,
            eq_refl id,
            count_snoc (other_with_key r.tenant key id) b.jobs (new_job now id r mark key),
          )

-- The merge that a second call makes.
merge-settled :
    (r : EnqueueRequest) (mark key : String) (b c : Board) (j : EvolutionJob)
    → IsQueue c.jobs
    → IsSettled r mark key b j c
    → merge r mark key j c ≡ queued j c
unfolding merge
merge-settled r mark key b c j v s =
    rw (s.own_key, merge)
      (rw s.current (
        ap (λ q. queued j (record c { jobs = q }))
          (update-same_row (is_job (key_of j)) (λ i. is_live i.status) (live_job r.tenant r.user_id)
            j (is_job-key_of j) (merged mark key) c.jobs s.current (v.one_row (key_of j)) s.live)))

module _ (isoformat : ℕ → String) (dumps : String → String) (now : ℕ) (id : String)
    (r : EnqueueRequest) (b c : Board) (j : EvolutionJob) (w : IsQueue b.jobs)
    (h : enqueue_job isoformat dumps now id r b ≡ queued j c) where
  abbrev mark : Board → String
  mark d = dumps (current_watermark isoformat dumps r.user_id d)

  abbrev key : Board → String
  key d = idempotency_key isoformat dumps r d

  -- What the first call leaves.
  enqueue_job-IsSettled : IsSettled r (mark b) (key b) b j c
  enqueue_job-IsSettled = subst (IfQueued (IsSettled r (mark b) (key b) b)) h (
      enqueue_job-branches isoformat dumps now id r b (IsSettled r (mark b) (key b) b)
        (λ x found. merge-IsSettled r (mark b) (key b) b w x found)
        (λ x idle found. requeue-IsSettled r (mark b) (key b) b w x idle found)
        (λ idle fresh. insert-IsSettled r (mark b) (key b) b w now id idle))

  admitted :
      (str_eq (strip r.purpose) "" ≡ false) × (is_memory_enabled b.preferences r.user_id ≡ true)
  unfolding enqueue_job
  admitted = elim (Bool-cases (str_eq (strip r.purpose) "")) [
    | inl e ↦ absurd (ground (arith, e, h))
    | inr e ↦ elim (Bool-cases (is_memory_enabled b.preferences r.user_id)) [
      | inr d ↦ absurd (ground (arith, e, d, h))
      | inl d ↦ (e, d)
    ]
  ]

  same_mark : mark c ≡ mark b
  same_mark =
      ap (λ (d : List BeliefStamp). mark (record b { beliefs = d }))
        enqueue_job-IsSettled.same_beliefs

  same_key : key c ≡ key b
  same_key =
      ap (λ (d : List BeliefStamp). key (record b { beliefs = d }))
        enqueue_job-IsSettled.same_beliefs

  still_enabled : is_memory_enabled c.preferences r.user_id ≡ true
  still_enabled =
      subst (λ (p : String → Option MemoryPreference). is_memory_enabled p r.user_id ≡ true)
        (sym enqueue_job-IsSettled.same_preferences) admitted.1

-- On a queue that meets its invariant, a call that has queued a job, made again at any later time
-- and with any new id before anything else has happened, returns the same row and changes nothing.
pub enqueue_job-again :
    (isoformat : ℕ → String) (dumps : String → String) (now later : ℕ) (id other : String)
    (r : EnqueueRequest) (b c : Board) (j : EvolutionJob)
    → IsQueue b.jobs
    → enqueue_job isoformat dumps now id r b ≡ queued j c
    → enqueue_job isoformat dumps later other r c ≡ queued j c
unfolding enqueue_job enqueue
enqueue_job-again isoformat dumps now later id other r b c j w h =
    let s = enqueue_job-IsSettled isoformat dumps now id r b c j w h in
    let (named, on) = admitted isoformat dumps now id r b c j w h in
    let v = subst Kept h (enqueue_job-Kept isoformat dumps now id r b w) in
    rw named (
      rw (still_enabled isoformat dumps now id r b c j w h) (
        rw (s.live, enqueue)
          (rw (same_mark isoformat dumps now id r b c j w h) (
            rw (same_key isoformat dumps now id r b c j w h) (
              merge-settled r (mark isoformat dumps now id r b c j w h b)
                (key isoformat dumps now id r b c j w h b) b c j v s)))))
