-- ===== src/Worker/Waiting.antt =====
-- worker/evolution.py: the backoff of the reconciliation, and what a tick starts.
use mirror_memory.Prelude.{
  All, ℕ, zero, suc, ◌+◌, ◌-◌, ◌≤◌, String, true, false, none, some, List, [], ◌∷◌, ◌≡◌, ◌↔◌, refl,
  min, ltb, ◌*◌, ◌<◌, ◌⊎◌, inl, inr, length, Bool-cases, arith,
}
use mirror_memory.Prelude.Text.{str_eq, eq_refl, eq_iff}
use mirror_memory.Prelude.Dict.{get}
use mirror_memory.Prelude.Members.{Among}
use mirror_memory.Worker.{EvolutionJob, is_pending}
use mirror_memory.Worker.Lease.{sweep}
use mirror_memory.Worker.Tick.{
  Backoff, reconcile_gate, reconcile_record_failure, delay_after, power_of_two, failures_of,
  without, Tick, Started,
}

positive-power_of_two : (n : ℕ) → 1 ≤ power_of_two n
positive-power_of_two zero = ground arith
positive-power_of_two (suc n) = ground (arith, positive-power_of_two n)

power_of_two-rises : (n : ℕ) → power_of_two (n - 1) ≤ power_of_two n
power_of_two-rises zero = ground arith
power_of_two-rises (suc n) = ground (arith, positive-power_of_two n)

get-without :
    (k url : String) (b : Backoff) → str_eq url k ≡ false → get (without url b) k ≡ get b k
get-without k url [] n = refl
get-without k url ((j, v) ∷ b) n = elim (Bool-cases (str_eq j url)) [
  | inr o ↦ elim (Bool-cases (str_eq j k)) [
    | inl e ↦ rw o (rw e refl)
    | inr e ↦ rw o (rw e (get-without k url b n))
  ]
  | inl o ↦
      let e : str_eq j k ≡ false = ground (arith, o, n, eq_iff j url, eq_iff url k, eq_iff j k) in
      rw o (rw e (get-without k url b n))
]

-- What a failure is to leave behind: a delay from 2 to 60 seconds, at least the one after the failure
-- before it, the gate of the database shut until the delay has passed and open from then on, and the
-- gates of the other databases as they were.
abbrev pub IsBackedOff : String → ℕ → Backoff → ℕ × Backoff → Type 0
IsBackedOff url now b (delay, after) =
    (2 ≤ delay)
    × (delay ≤ 60)
    × ((before : ℕ) → delay_after (failures_of (get b url)) ≡ some before → before ≤ delay)
    × ((later : ℕ) → (reconcile_gate url later after ≡ true) ↔ (now + delay ≤ later))
    × ((other : String) (later : ℕ)
        → str_eq url other ≡ false
        → reconcile_gate other later after ≡ reconcile_gate other later b)

backed_off :
    (url : String) (now : ℕ) (b : Backoff)
    → let n = failures_of (get b url) in
      let delay = min (2 * power_of_two n) 60 in
      IsBackedOff url now b (delay, (url, (n + 1, now + delay)) ∷ without url b)
unfolding reconcile_gate delay_after
backed_off url now b =
    let n = failures_of (get b url) in
    (
      ground (arith, positive-power_of_two n),
      ground arith,
      λ before e. ground (arith, e, power_of_two-rises n, positive-power_of_two n),
      λ later. rw (eq_refl url, reconcile_gate) (ground arith),
      λ other later o. rw (o, reconcile_gate) (rw (get-without other url b o) refl),
    )

-- After each of the first 1024 consecutive failures of a database's reconciliation the delay is from 2
-- to 60 seconds, at least the one of the failure before it, and the gate of that database is shut until
-- the delay has passed and open from then on, while the gates of the other databases are as they were.
-- From the next failure on none is recorded.
pub reconcile_record_failure-gate :
    (url : String) (now : ℕ) (b : Backoff)
    → ((failures_of (get b url) < 1024)
        × (done : ℕ × Backoff) × (reconcile_record_failure url now b ≡ some done)
        × IsBackedOff url now b done)
      ⊎ ((1024 ≤ failures_of (get b url)) × (reconcile_record_failure url now b ≡ none))
unfolding reconcile_record_failure delay_after
reconcile_record_failure-gate url now b =
    let n = failures_of (get b url) in
    let delay = min (2 * power_of_two n) 60 in
    let back : n + 1 - 1 ≡ n = omega arith in
    elim (Bool-cases (ltb 1024 (n + 1))) [
      | inl big ↦ inr (ground (arith, big), rw (big, reconcile_record_failure) refl)
      | inr small ↦ inl (
        ground (arith, small),
        (delay, (url, (n + 1, now + delay)) ∷ without url b),
        rw (small, reconcile_record_failure) (rw back refl),
        backed_off url now b,
      )
    ]

module _ (t : Tick) (b : Backoff) (q : List EvolutionJob) where
  -- The jobs that a tick starts on the queue that its sweep leaves: at most 5 pending ones of it, and
  -- all of the pending ones where they are fewer.
  pub record IsBatch (js : List EvolutionJob) : Type 0 where
    pub few : length js ≤ 5
    pub own : All (λ j. Among j (sweep t.now q) × (is_pending j.status ≡ true)) js
    pub rest :
        length js < 5
        → (j : EvolutionJob) → Among j (sweep t.now q)
        → is_pending j.status ≡ true
        → Among j js

  abbrev pub StartsAligned : Started → Type 0
  StartsAligned s =
      (s.jobs ≡ none → s.queue ≡ q)
      × ((js : List EvolutionJob)
          → s.jobs ≡ some js
          → (t.has_log ≡ true → (t.aligned ≡ true) × (reconcile_gate t.url t.monotonic b ≡ true))
            × (s.queue ≡ sweep t.now q)
            × IsBatch js)
