-- ===== src/Worker/Single.antt =====
-- worker/evolution.py: the keys of the queue, and the single live job of a user.
use mirror_memory.Prelude.{
  ℕ, ◌+◌, ◌≤◌, String, Bool, true, none, some, List, [], ◌∷◌, ◌++◌, ◌&&◌, ◌||◌, ◌≡◌, refl, inl, inr,
  Bool-cases, Option-cases, arith,
}
use mirror_memory.Prelude.Text.{str_eq, eq_iff, eq_refl}
use mirror_memory.Worker.{
  EvolutionJob, is_live, is_stale, Tenant, JobKey, in_tenant, is_job, find_job, first_job,
  update_jobs, count_jobs,
}
use mirror_memory.Worker.Counting.{
  count_mono, count-update, count-update_same, count_snoc, count-none, first_job-passes,
  count-one_row, count-update_row,
}
use mirror_memory.Worker.Branches.{IfQueued}
use mirror_memory.Worker.Enqueue.{
  Board, Enqueued, EnqueueRequest, live_job, stale_job, key_of, has_key, other_with_key, merged,
  requeued, new_job, merge_test, requeue_test, merge, insert,
}

-- The two unique keys of the table, and the mutex: one pending or running job of a user.
pub record IsQueue (q : List EvolutionJob) : Type 0 where
  pub one_row : (k : JobKey) → count_jobs (is_job k) q ≤ 1
  pub one_key : (t : Tenant) (key : String) → count_jobs (has_key t key) q ≤ 1
  pub one_live : (t : Tenant) (user : String) → count_jobs (live_job t user) q ≤ 1

-- An UPDATE of columns that no key is made of, and that makes no job live.
pub IsQueue-update_jobs :
    (test : EvolutionJob → Bool) (f : EvolutionJob → EvolutionJob) (q : List EvolutionJob)
    → ((k : JobKey) (j : EvolutionJob) → is_job k (f j) ≡ is_job k j)
    → ((t : Tenant) (key : String) (j : EvolutionJob) → has_key t key (f j) ≡ has_key t key j)
    → ((t : Tenant) (user : String) (j : EvolutionJob)
        → test j ≡ true
        → live_job t user (f j) ≡ true
        → live_job t user j ≡ true)
    → IsQueue q
    → IsQueue (update_jobs test f q)
IsQueue-update_jobs test f q row key live w = record {
  one_row = λ k. rw (count-update_same (is_job k) test f q (row k)) (w.one_row k);
  one_key = λ t n. rw (count-update_same (has_key t n) test f q (key t n)) (w.one_key t n);
  one_live = λ t user.
      let le = count-update (live_job t user) test f q (live t user) in
      ground (arith, le, w.one_live t user);
}

-- What two rows share of a tenant.
pub in_tenant_same :
    (t u : Tenant) (x j : EvolutionJob)
    → in_tenant t x ≡ true
    → in_tenant u x ≡ true
    → in_tenant t j ≡ in_tenant u j
in_tenant_same t u x j a b = ground (
  arith,
  a,
  b,
  eq_iff x.tenant_id t.tenant_id,
  eq_iff x.tenant_id u.tenant_id,
  eq_iff x.app_id t.app_id,
  eq_iff x.app_id u.app_id,
)

pub is_job-key_of : (x : EvolutionJob) → is_job (key_of x) x ≡ true
unfolding is_job
is_job-key_of x = ground (arith, eq_refl x.tenant_id, eq_refl x.app_id, eq_refl x.id)

pub str_eq_same :
    (a b c d : String) → str_eq c a ≡ true → str_eq c b ≡ true → str_eq d a ≡ str_eq d b
str_eq_same a b c d h k = ground (arith, h, k, eq_iff c a, eq_iff c b)

abbrev pub Kept : Enqueued → Type 0
Kept e = IfQueued (λ j c. IsQueue c.jobs) e

count-or :
    (P A B : EvolutionJob → Bool) (q : List EvolutionJob)
    → ((j : EvolutionJob) → P j ≡ true → (A j || B j) ≡ true)
    → count_jobs P q ≤ count_jobs A q + count_jobs B q
unfolding count_jobs
count-or P A B [] h = ground arith
count-or P A B (j ∷ q) h = elim (Bool-cases (P j)) [
  | inl p ↦ ground (arith, p, h j p, count-or P A B q h)
  | inr p ↦ ground (arith, p, count-or P A B q h)
]

module _ (r : EnqueueRequest) (mark key : String) (b : Board) (w : IsQueue b.jobs) where
  pub merge-Kept :
      (x : EvolutionJob)
      → first_job (live_job r.tenant r.user_id) b.jobs ≡ some x
      → Kept (merge r mark key x b)
  unfolding merge is_job
  merge-Kept x found = elim (Option-cases (first_job (other_with_key r.tenant key x.id) b.jobs)) [
    | inr (y, e) ↦ rw e tt
    | inl e ↦ rw e (record {
      one_row = λ k.
          rw
            (count-update_same (is_job k) (merge_test x) (merged mark key) b.jobs
              (λ j. is_job-merged k j))
            (w.one_row k);
      one_key = λ t n. keys t n (count-none (other_with_key r.tenant key x.id) b.jobs e);
      one_live = λ t user.
          rw
            (count-update_same (live_job t user) (merge_test x) (merged mark key) b.jobs
              (λ j. refl))
            (w.one_live t user);
    })
  ]
    where
      is_job-merged : (k : JobKey) (j : EvolutionJob) → is_job k (merged mark key j) ≡ is_job k j
      is_job-merged k j = refl

      passes : live_job r.tenant r.user_id x ≡ true
      passes = first_job-passes (live_job r.tenant r.user_id) b.jobs x found

      keys :
          (t : Tenant) (n : String)
          → count_jobs (other_with_key r.tenant key x.id) b.jobs ≡ 0
          → count_jobs (has_key t n) (update_jobs (merge_test x) (merged mark key) b.jobs) ≤ 1
      keys t n others =
          let P = has_key t n in
          let moved =
            count-update_row (is_job (key_of x)) (λ j. is_live j.status)
              (live_job r.tenant r.user_id) x (is_job-key_of x) P (merged mark key) b.jobs
              (ground (arith, passes)) (w.one_row (key_of x)) found in
          let here =
            count-one_row (is_job (key_of x)) P (live_job r.tenant r.user_id) x (is_job-key_of x)
              b.jobs (w.one_row (key_of x)) found in
          elim (Bool-cases (P (merged mark key x))) [
            | inr off ↦ ground (arith, moved, off, w.one_key t n)
            | inl on ↦
                let split =
                  count-or P (other_with_key r.tenant key x.id) (λ j. is_job (key_of x) j && P j)
                    b.jobs
                    (λ j p. ground (
                      arith,
                      p,
                      on,
                      passes,
                      in_tenant_same t r.tenant x j (ground (arith, on)) (ground (arith, passes)),
                      in_tenant_same t (key_of x).tenant x j (ground (arith, on))
                          (ground (arith, eq_refl x.tenant_id, eq_refl x.app_id)),
                      str_eq_same n key key j.idempotency_key (ground (arith, on)) (eq_refl key),
                    )) in
                ground (arith, moved, on, here, others, split)
          ]

  pub requeue-IsQueue :
      (x : EvolutionJob)
      → first_job (live_job r.tenant r.user_id) b.jobs ≡ none
      → first_job (stale_job r.tenant r.user_id key) b.jobs ≡ some x
      → IsQueue (update_jobs (requeue_test x) (requeued mark) b.jobs)
  unfolding is_job
  requeue-IsQueue x idle found = record {
    one_row = λ k.
        rw
          (count-update_same (is_job k) (requeue_test x) (requeued mark) b.jobs
            (λ j. is_job-requeued k j))
          (w.one_row k);
    one_key = λ t n.
        rw (count-update_same (has_key t n) (requeue_test x) (requeued mark) b.jobs (λ j. refl))
          (w.one_key t n);
    one_live = λ t user. live t user;
  }
    where
      is_job-requeued : (k : JobKey) (j : EvolutionJob) → is_job k (requeued mark j) ≡ is_job k j
      is_job-requeued k j = refl

      passes : stale_job r.tenant r.user_id key x ≡ true
      passes = first_job-passes (stale_job r.tenant r.user_id key) b.jobs x found

      live :
          (t : Tenant) (user : String)
          → count_jobs (live_job t user) (update_jobs (requeue_test x) (requeued mark) b.jobs) ≤ 1
      live t user =
          let P = live_job t user in
          let moved =
            count-update_row (is_job (key_of x)) (λ j. is_stale j.status)
              (stale_job r.tenant r.user_id key) x (is_job-key_of x) P (requeued mark) b.jobs
              (ground (arith, passes)) (w.one_row (key_of x)) found in
          elim (Bool-cases (P (requeued mark x))) [
            | inr off ↦ ground (arith, moved, off, w.one_live t user)
            | inl on ↦
                let mono = count_mono P (live_job r.tenant r.user_id) b.jobs (λ j p. ground (
                  arith,
                  p,
                  on,
                  passes,
                  in_tenant_same t r.tenant x j (ground (arith, on)) (ground (arith, passes)),
                  str_eq_same user r.user_id x.user_id j.user_id (ground (arith, on))
                      (ground (arith, passes)),
                )) in
                ground
                  (arith, moved, on, mono, count-none (live_job r.tenant r.user_id) b.jobs idle)
          ]

  pub insert-Kept :
      (now : ℕ) (id : String)
      → first_job (live_job r.tenant r.user_id) b.jobs ≡ none
      → Kept (insert now id r mark key b)
  unfolding insert is_job
  insert-Kept now id idle =
      let k : JobKey = record { tenant = r.tenant; id = id } in
      elim (Option-cases (find_job k b.jobs)) [
        | inr (y, e) ↦ rw e tt
        | inl e ↦ elim (Option-cases (first_job (has_key r.tenant key) b.jobs)) [
          | inr (y, d) ↦ rw e (rw d tt)
          | inl d ↦ rw e (
              rw d (record {
                one_row = λ l.
                    absent (is_job l) (is_job k) (w.one_row l) (count-none (is_job k) b.jobs e)
                      (λ j p q. ground (
                        arith,
                        p,
                        q,
                        in_tenant_same l.tenant r.tenant new j (ground (arith, p)) own,
                        str_eq_same l.id id id j.id (ground (arith, p)) (eq_refl id),
                      ));
                one_key = λ t n.
                    absent (has_key t n) (has_key r.tenant key) (w.one_key t n)
                      (count-none (has_key r.tenant key) b.jobs d)
                      (λ j p q. ground (
                        arith,
                        p,
                        q,
                        in_tenant_same t r.tenant new j (ground (arith, p)) own,
                        str_eq_same n key key j.idempotency_key (ground (arith, p)) (eq_refl key),
                      ));
                one_live = λ t user.
                    absent (live_job t user) (live_job r.tenant r.user_id) (w.one_live t user)
                      (count-none (live_job r.tenant r.user_id) b.jobs idle)
                      (λ j p q. ground (
                        arith,
                        p,
                        q,
                        in_tenant_same t r.tenant new j (ground (arith, p)) own,
                        str_eq_same user r.user_id r.user_id j.user_id (ground (arith, p))
                            (eq_refl r.user_id),
                      ));
              }))
        ]
      ]
    where
      new : EvolutionJob
      new = new_job now id r mark key

      own : in_tenant r.tenant (new_job now id r mark key) ≡ true
      own = ground (arith, eq_refl r.tenant.tenant_id, eq_refl r.tenant.app_id)

      absent :
          (P Q : EvolutionJob → Bool)
          → count_jobs P b.jobs ≤ 1
          → count_jobs Q b.jobs ≡ 0
          → ((j : EvolutionJob) → P new ≡ true → P j ≡ true → Q j ≡ true)
          → count_jobs P (b.jobs ++ new_job now id r mark key ∷ []) ≤ 1
      absent P Q u z h = elim (Bool-cases (P new)) [
        | inr off ↦ ground (arith, count_snoc P b.jobs new, off, u)
        | inl on ↦
            let mono = count_mono P Q b.jobs (λ j p. h j on p) in
            ground (arith, count_snoc P b.jobs new, on, z, mono)
      ]
