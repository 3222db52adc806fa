-- ===== src/Worker/Guarded.antt =====
-- worker/evolution.py: what has held when a job's publish changes the store.
use mirror_memory.Prelude.{
  ℕ, String, Bool, true, Option, List, ◌≡◌, ◌⊎◌, ◌==◌, ◌∙◌, refl, sym, subst, ap, inl, inr,
  Bool-cases, Option-cases, arith,
}
use mirror_memory.Prelude.Float.{FloatOps}
use mirror_memory.Core.Store.{Store}
use mirror_memory.Core.Proposal.{Payload}
use mirror_memory.Core.Repository.Revision.{is_memory_enabled}
use mirror_memory.Core.Publisher.Commit.{Handlers}
use mirror_memory.Core.Publisher.Publish.{PublishDecision, committed, publish}
use mirror_memory.Core.Publisher.Atomicity.{publish-unchanged}
use mirror_memory.Access.{Failure, Result, returned, raised}
use mirror_memory.Access.Authorize.{Decision, blank}
use mirror_memory.Access.Revocation.{record_purpose_invocation}
use mirror_memory.Access.Permission.{admits, IsPermitted, authorize-IsPermitted}
use mirror_memory.Worker.{EvolutionJob, publish_refused}
use mirror_memory.Worker.Lease.{set_job_state, blocked}
use mirror_memory.Worker.Process.{
  Desk, Trouble, Shift, Snapped, Phase, over, lost, broke, goes_on, Computed, computed, broken,
  Ended, ended, escaped, permit, tables_for, snapshot_checks, begin_job,
  current_deletion_generation, settle_publish, is_committed, finished, audit_reason, settle_failure,
  settle, publish_permitted, publish_checks, publish_job, publish_computed, process_single_job,
  synthesis, renewal,
}

-- Consent and authorization at an instant.
abbrev pub IsAllowed : ℕ → Shift → Desk → Type 0
IsAllowed now w d =
    (is_memory_enabled d.store w.user_id ≡ true)
    × IsPermitted w.scope now (tables_for w.user_id d) w.user_id w.purpose "extract"

abbrev desk_of : Phase → Desk
desk_of (over d) = d
desk_of (lost d) = d
desk_of (broke t d) = d
desk_of (goes_on s d) = d

abbrev pub end_of : Ended → Desk
end_of (ended d) = d
end_of (escaped d) = d

permit-IsAllowed :
    (now : ℕ) (w : Shift) (d : Desk) (decision : Decision)
    → is_memory_enabled d.store w.user_id ≡ true
    → permit now w d ≡ returned decision
    → decision.allowed ≡ true
    → IsAllowed now w d
permit-IsAllowed now w d decision on e a = (
  on,
  (authorize-IsPermitted w.scope now (tables_for w.user_id d) w.user_id w.purpose "extract").0
      (subst (λ r. admits r ≡ true) (sym e) a),
)

-- A phase of the snapshot changes the queue alone, and goes on only where both gates have let it.
abbrev Snapshotted : ℕ → Shift → Desk → Phase → Type 0
Snapshotted now w d (goes_on snapped e) =
    ((q : List EvolutionJob) × (e ≡ record d { jobs = q }))
    × IsAllowed now w d
    × (snapped.expected_generation ≡ current_deletion_generation w.user_id d.generations)
Snapshotted now w d (over e) = e.store ≡ d.store
Snapshotted now w d (lost e) = e.store ≡ d.store
Snapshotted now w d (broke t e) = e.store ≡ d.store

Result-cases {ℓ} :
    {A : Type ℓ} (r : Result A) → ((a : A) × (r ≡ returned a)) ⊎ ((e : Failure) × (r ≡ raised e))
Result-cases (returned a) = inl (a, refl)
Result-cases (raised e) = inr (e, refl)

module _ (now : ℕ) (w : Shift) where
  snapshot_checks-Snapshotted : (d : Desk) → Snapshotted now w d (snapshot_checks now w d)
  unfolding snapshot_checks
  snapshot_checks-Snapshotted d = elim (Bool-cases (is_memory_enabled d.store w.user_id)) [
    | inr off ↦ rw off refl
    | inl on ↦ elim (Bool-cases (blank w.purpose)) [
      | inl b ↦ rw on (rw b refl)
      | inr b ↦ elim (Result-cases (permit now w d)) [
        | inr (f, e) ↦ rw on (rw b (rw e refl))
        | inl (decision, e) ↦ elim (Bool-cases decision.allowed) [
          | inr r ↦ rw on (rw b (rw e (rw r refl)))
          | inl a ↦
              rw on (
                rw b (rw e (rw a ((d.jobs, refl), permit-IsAllowed now w d decision on e a, refl))))
        ]
      ]
    ]
  ]

  begin_job-Snapshotted : (d : Desk) → Snapshotted now w d (begin_job now w d)
  unfolding begin_job
  begin_job-Snapshotted d = elim (Option-cases (renewal now w w.token d.jobs)) [
    | inl e ↦ rw (e, begin_job) refl
    | inr (q, e) ↦ rw (e, begin_job) (snapshot_checks-Snapshotted (record d { jobs = q }))
  ]

module _ (fl : FloatOps) (h : Handlers) (fresh : String) (now : ℕ) (w : Shift) (snapped : Snapped)
    (payload : Payload) (d : Desk) where
  abbrev outcome : PublishDecision × Store
  outcome = publish fl h now (synthesis fresh w snapped payload) d.store

  -- The store is as before, or the one of a publish that has committed under the two gates and at
  -- the generation of the snapshot.
  abbrev Published : Store → Type 0
  Published s =
      (s ≡ d.store)
      ⊎ (IsAllowed now w d
          × (current_deletion_generation w.user_id d.generations ≡ snapped.expected_generation)
          × (outcome.0.verdict ≡ committed)
          × (s ≡ outcome.1))

  settle_publish-Published :
      (written : Desk)
      → IsAllowed now w d
      → current_deletion_generation w.user_id d.generations ≡ snapped.expected_generation
      → Published (desk_of (settle_publish now w d written outcome.0 outcome.1)).store
  unfolding settle_publish is_committed
  settle_publish-Published written allowed same =
      elim (Bool-cases (is_committed outcome.0.verdict)) [
        | inl c ↦ elim (Option-cases (set_job_state w.key w.token (finished now) written.jobs)) [
          | inl e ↦ rw c (rw e (inl refl))
          | inr (q, e) ↦ rw c (rw e (inr (allowed, same, ground (arith, c), refl)))
        ]
        | inr c ↦
            elim (Option-cases (
              set_job_state w.key w.token (blocked now (publish_refused outcome.0.verdict))
                written.jobs)) [
                  | inl e ↦ rw c (rw e (inl refl))
                  | inr (q, e) ↦ rw c (
                      rw e (
                        inl (
                          publish-unchanged fl h now (synthesis fresh w snapped payload) d.store
                            (λ v. ground (arith, c, v)))))
                ]
      ]

  publish_permitted-Published :
      (version : Option ℕ)
      → IsAllowed now w d
      → Published (desk_of (publish_permitted fl h fresh now w snapped payload version d)).store
  unfolding publish_permitted
  publish_permitted-Published version allowed =
      elim (Result-cases (
        record_purpose_invocation w.user_id w.purpose "extract" "published" "worker"
          (audit_reason snapped.grant_version version) (tables_for w.user_id d))) [
            | inr (f, e) ↦ rw (e, publish_permitted) (inl refl)
            | inl (t, e) ↦
                elim (Bool-cases (
                  current_deletion_generation w.user_id d.generations
                  == snapped.expected_generation)) [
                    | inl g ↦
                        rw (e, publish_permitted)
                          (rw g (
                            settle_publish-Published (record d { grant_events = t.grant_events })
                              allowed (ground (arith, g))))
                    | inr g ↦ rw (e, publish_permitted) (rw g (inl refl))
                  ]
          ]

  granted :
      (decision : Decision)
      → is_memory_enabled d.store w.user_id ≡ true
      → permit now w d ≡ returned decision
      → decision.allowed ≡ true
      → publish_checks fl h fresh now w snapped payload d
        ≡ publish_permitted fl h fresh now w snapped payload decision.grant_version d
  unfolding publish_checks
  granted decision on e a = rw on (rw e (rw a refl))

  publish_checks-Published :
      Published (desk_of (publish_checks fl h fresh now w snapped payload d)).store
  unfolding publish_checks
  publish_checks-Published = elim (Bool-cases (is_memory_enabled d.store w.user_id)) [
    | inr off ↦ rw off (inl refl)
    | inl on ↦ elim (Result-cases (permit now w d)) [
      | inr (f, e) ↦ rw on (rw e (inl refl))
      | inl (decision, e) ↦ elim (Bool-cases decision.allowed) [
        | inr r ↦ rw on (rw e (rw r (inl refl)))
        | inl a ↦
            subst (λ p. Published (desk_of p).store) (sym (granted decision on e a))
              (publish_permitted-Published decision.grant_version
                (permit-IsAllowed now w d decision on e a))
      ]
    ]
  ]

module _ (fl : FloatOps) (h : Handlers) (fresh : String) (later : ℕ) (w : Shift)
    (lock_clears : Bool) (snapped : Snapped) where
  publish_job-Published :
      (payload : Payload) (d : Desk)
      → Published fl h fresh later w snapped payload d
          (desk_of (publish_job fl h fresh later w snapped payload d)).store
  unfolding publish_job
  publish_job-Published payload d = elim (Option-cases (renewal later w w.token d.jobs)) [
    | inl e ↦ rw (e, publish_job) (inl refl)
    | inr (q, e) ↦
        rw (e, publish_job)
          (publish_checks-Published fl h fresh later w snapped payload (record d { jobs = q }))
  ]

store-settle_failure :
    (now : ℕ) (w : Shift) (lock_clears : Bool) (t : Trouble) (d : Desk)
    → (end_of (settle_failure now w lock_clears t d)).store ≡ d.store
unfolding settle_failure
store-settle_failure now w lock_clears t d = ground arith

store-settle :
    (fl : FloatOps) (h : Handlers) (fresh : String) (now : ℕ) (w : Shift) (lock_clears : Bool)
    (p : Phase)
    → (end_of (settle fl h fresh now w lock_clears p)).store ≡ (desk_of p).store
unfolding settle
store-settle fl h fresh now w lock_clears (over d) = refl
store-settle fl h fresh now w lock_clears (lost d) = refl
store-settle fl h fresh now w lock_clears (broke t d) = store-settle_failure now w lock_clears t d
store-settle fl h fresh now w lock_clears (goes_on s d) = refl

-- What a job's publish has done to the store of the desk that it met.
pub record IsGuarded (fl : FloatOps) (h : Handlers) (fresh : String) (now later : ℕ) (w : Shift)
    (payload : Payload) (before met : Desk) (s : Store) : Type 0 where
  pub allowed_before : IsAllowed now w before
  pub allowed_now : IsAllowed later w met
  pub same_generation :
      current_deletion_generation w.user_id met.generations
      ≡ current_deletion_generation w.user_id before.generations
  pub snapped : Snapped
  pub commits :
      (publish fl h later (synthesis fresh w snapped payload) met.store).0.verdict ≡ committed
  pub writes : s ≡ (publish fl h later (synthesis fresh w snapped payload) met.store).1

module _ (fl : FloatOps) (h : Handlers) (fresh : String) (now later : ℕ) (w : Shift)
    (lock_clears : Bool) (result : Computed) (during : Desk → Desk) (d : Desk) where
  -- The end of a call: the store of the start, or the store that the others left during the nodes, or
  -- what a guarded publish of the nodes' payload has made of it.
  abbrev pub GuardedEnd : Ended → Type 0
  GuardedEnd r =
      ((end_of r).store ≡ d.store)
      ⊎ ((q : List EvolutionJob) × (((end_of r).store ≡ (during (record d { jobs = q })).store)
            ⊎ ((payload : Payload) × (result ≡ computed payload)
                × IsGuarded fl h fresh now later w payload d (during (record d { jobs = q }))
                    (end_of r).store)))

  broken_end :
      (t : Trouble) (snapped : Snapped) (e : Desk)
      → Snapshotted now w d (goes_on snapped e)
      → GuardedEnd (publish_computed fl h fresh later w lock_clears snapped (broken t) (during e))
  unfolding publish_computed
  broken_end t snapped e ((q, same), allowed, generation) = inr (
    q,
    inl (
        store-settle fl h fresh later w lock_clears (broke t (during e))
        ∙ ap (λ x. (during x).store) same),
  )

  published_end :
      (payload : Payload) (snapped : Snapped) (e : Desk)
      → result ≡ computed payload
      → Snapshotted now w d (goes_on snapped e)
      → GuardedEnd
          (publish_computed fl h fresh later w lock_clears snapped (computed payload) (during e))
  unfolding publish_computed
  published_end payload snapped e from ((q, same), allowed, generation) =
      let met = during (record d { jobs = q }) in
      let p = publish_job fl h fresh later w snapped payload met in
      let kept = store-settle fl h fresh later w lock_clears p in
      subst
        (λ (x : Desk). GuardedEnd (
          settle fl h fresh later w lock_clears
            (publish_job fl h fresh later w snapped payload (during x))))
        (sym same)
        (elim (publish_job-Published fl h fresh later w lock_clears snapped payload met) [
          | inl u ↦ inr (q, inl (kept ∙ u))
          | inr (again, moved, c, wrote) ↦ inr (
            q,
            inr (
              payload,
              from,
              record {
                allowed_before = allowed;
                allowed_now = again;
                same_generation = moved ∙ generation;
                snapped = snapped;
                commits = c;
                writes = kept ∙ wrote;
              },
            ),
          )
        ])

  by_result :
      (r : Computed) (snapped : Snapped) (e : Desk)
      → result ≡ r
      → Snapshotted now w d (goes_on snapped e)
      → GuardedEnd (publish_computed fl h fresh later w lock_clears snapped r (during e))
  by_result (computed payload) snapped e from s = published_end payload snapped e from s
  by_result (broken t) snapped e from s = broken_end t snapped e s

  by_phase :
      (p : Phase)
      → Snapshotted now w d p
      → begin_job now w d ≡ p
      → GuardedEnd (process_single_job fl h fresh now later w lock_clears result during d)
  unfolding process_single_job
  by_phase (over e) s b = rw (b, process_single_job) (inl s)
  by_phase (lost e) s b = rw (b, process_single_job) (inl s)
  by_phase (broke t e) s b =
      rw (b, process_single_job) (inl (store-settle fl h fresh now w lock_clears (broke t e) ∙ s))
  by_phase (goes_on snapped e) s b = rw (b, process_single_job) (by_result result snapped e refl s)

-- After a job has been processed, with a payload or an exception from the nodes and any changes of
-- other sessions during them, the store of the job's tenant is the one of the start, or the one that
-- the others left at the publish, or what a committed publish of the payload has made of the latter; then at both instants memory
-- was enabled for the user and the purpose was authorized for `extract`, and the user's deletion
-- generation was the same.
pub process_single_job-GuardedEnd :
    (fl : FloatOps) (h : Handlers) (fresh : String) (now later : ℕ) (w : Shift) (lock_clears : Bool)
    (result : Computed) (during : Desk → Desk) (d : Desk)
    → GuardedEnd fl h fresh now later w lock_clears result during d
        (process_single_job fl h fresh now later w lock_clears result during d)
process_single_job-GuardedEnd fl h fresh now later w lock_clears result during d =
    by_phase fl h fresh now later w lock_clears result during d (begin_job now w d)
      (begin_job-Snapshotted now w d) refl
