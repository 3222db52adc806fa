-- ===== src/Worker/Counting.antt =====
-- worker/evolution.py: how many rows of the queue pass a test, before and after an UPDATE.
use mirror_memory.Prelude.{
  ℕ, ◌+◌, ◌≤◌, Bool, true, false, none, some, List, [], ◌∷◌, ◌++◌, ◌&&◌, ◌≡◌, refl, ap, inl, inr,
  Bool-cases, if◌then◌else◌, arith, some_eq, subst, sym,
}
use mirror_memory.Worker.{EvolutionJob, first_job, update_jobs, count_jobs}

abbrev pub one : Bool → ℕ
one b = if b then 1 else 0

pub count_mono :
    (P Q : EvolutionJob → Bool) (q : List EvolutionJob)
    → ((j : EvolutionJob) → P j ≡ true → Q j ≡ true)
    → count_jobs P q ≤ count_jobs Q q
unfolding count_jobs
count_mono P Q [] h = ground arith
count_mono P Q (j ∷ q) h = elim (Bool-cases (P j)) [
  | inl p ↦ ground (arith, p, h j p, count_mono P Q q h)
  | inr p ↦ ground (arith, p, count_mono P Q q h)
]

-- An UPDATE that makes no row pass the test.
pub count-update :
    (P test : EvolutionJob → Bool) (f : EvolutionJob → EvolutionJob) (q : List EvolutionJob)
    → ((j : EvolutionJob) → test j ≡ true → P (f j) ≡ true → P j ≡ true)
    → count_jobs P (update_jobs test f q) ≤ count_jobs P q
unfolding count_jobs update_jobs
count-update P test f [] h = ground arith
count-update P test f (j ∷ q) h = elim (Bool-cases (test j)) [
  | inr t ↦ rw t (ground (arith, count-update P test f q h))
  | inl t ↦ elim (Bool-cases (P (f j))) [
    | inr p ↦ rw t (ground (arith, p, count-update P test f q h))
    | inl p ↦ rw t (ground (arith, p, h j t p, count-update P test f q h))
  ]
]

-- An UPDATE that leaves the test of every row as it was.
pub count-update_same :
    (P test : EvolutionJob → Bool) (f : EvolutionJob → EvolutionJob) (q : List EvolutionJob)
    → ((j : EvolutionJob) → P (f j) ≡ P j)
    → count_jobs P (update_jobs test f q) ≡ count_jobs P q
unfolding count_jobs update_jobs
count-update_same P test f [] h = refl
count-update_same P test f (j ∷ q) h = elim (Bool-cases (test j)) [
  | inr t ↦ rw t (rw (count-update_same P test f q h) refl)
  | inl t ↦ rw t (rw (count-update_same P test f q h) (rw (h j) refl))
]

pub count_snoc :
    (P : EvolutionJob → Bool) (q : List EvolutionJob) (x : EvolutionJob)
    → count_jobs P (q ++ x ∷ []) ≡ count_jobs P q + one (P x)
unfolding count_jobs
count_snoc P [] x = ground arith
count_snoc P (j ∷ q) x = ground (arith, count_snoc P q x)

pub count-none :
    (P : EvolutionJob → Bool) (q : List EvolutionJob) → first_job P q ≡ none → count_jobs P q ≡ 0
unfolding count_jobs first_job
count-none P [] h = refl
count-none P (j ∷ q) h = elim (Bool-cases (P j)) [
  | inl p ↦ absurd (ground (arith, p, h))
  | inr p ↦ ground (arith, p, count-none P q (ground (arith, p, h)))
]

pub first_job-count :
    (P : EvolutionJob → Bool) (q : List EvolutionJob) → count_jobs P q ≡ 0 → first_job P q ≡ none
unfolding count_jobs first_job
first_job-count P [] h = refl
first_job-count P (j ∷ q) h = elim (Bool-cases (P j)) [
  | inl p ↦ absurd (ground (arith, p, h))
  | inr p ↦ rw p (first_job-count P q (ground (arith, p, h)))
]

-- The row found passes the test, and is a row.
pub first_job-passes :
    (P : EvolutionJob → Bool) (q : List EvolutionJob) (x : EvolutionJob)
    → first_job P q ≡ some x
    → P x ≡ true
unfolding first_job
first_job-passes P [] x h = absurd (ground (arith, h))
first_job-passes P (j ∷ q) x h = elim (Bool-cases (P j)) [
  | inl p ↦ ground (arith, p, h)
  | inr p ↦ first_job-passes P q x (ground (arith, p, h))
]

pub count-first_job :
    (P Q : EvolutionJob → Bool) (q : List EvolutionJob) (x : EvolutionJob)
    → first_job P q ≡ some x
    → Q x ≡ true
    → 1 ≤ count_jobs Q q
unfolding first_job count_jobs
count-first_job P Q [] x h c = absurd (ground (arith, h))
count-first_job P Q (j ∷ q) x h c = elim (Bool-cases (P j)) [
  | inl p ↦ ground (arith, p, h, c)
  | inr p ↦ ground (arith, count-first_job P Q q x (ground (arith, p, h)) c)
]

-- An UPDATE that matches no row.
pub update-none :
    (test : EvolutionJob → Bool) (f : EvolutionJob → EvolutionJob) (q : List EvolutionJob)
    → count_jobs test q ≡ 0
    → update_jobs test f q ≡ q
unfolding count_jobs update_jobs
update-none test f [] h = refl
update-none test f (j ∷ q) h = elim (Bool-cases (test j)) [
  | inl t ↦ absurd (ground (arith, t, h))
  | inr t ↦ rw t (ap (λ r. j ∷ r) (update-none test f q (ground (arith, t, h))))
]

-- Where at most one row is of the key, and the row found is: an UPDATE and a count of that key's rows
-- are those of the row found.
module _ (key s : EvolutionJob → Bool) (t : EvolutionJob → Bool) (x : EvolutionJob)
    (at_key : key x ≡ true) where
  abbrev narrowed : EvolutionJob → Bool
  narrowed j = key j && s j

  pub count-one_row :
      (q : List EvolutionJob)
      → count_jobs key q ≤ 1
      → first_job t q ≡ some x
      → count_jobs narrowed q ≡ one (s x)
  unfolding count_jobs first_job
  count-one_row [] u h = absurd (ground (arith, h))
  count-one_row (j ∷ q) u h = elim (Bool-cases (t j)) [
    | inl p ↦ ground (arith, p, h, at_key, u, count_mono narrowed key q (λ i c. ground (arith, c)))
    | inr p ↦
        let e : first_job t q ≡ some x = ground (arith, p, h) in
        ground (arith, u, count-first_job t key q x e at_key, count-one_row q (ground (arith, u)) e)
  ]

  pub count-update_row :
      (P : EvolutionJob → Bool) (f : EvolutionJob → EvolutionJob) (q : List EvolutionJob)
      → s x ≡ true
      → count_jobs key q ≤ 1
      → first_job t q ≡ some x
      → count_jobs P (update_jobs narrowed f q) + one (P x) ≡ count_jobs P q + one (P (f x))
  unfolding count_jobs update_jobs first_job
  count-update_row P f [] c u h = absurd (ground (arith, h))
  count-update_row P f (j ∷ q) c u h = elim (Bool-cases (t j)) [
    | inl p ↦
        let e = some_eq {x = j} {y = x} (ground (arith, p, h)) in
        let at = subst (λ (i : EvolutionJob). key i ≡ true) (sym e) at_key in
        let none_left = count_mono narrowed key q (λ i d. ground (arith, d)) in
        rw (update-none narrowed f q (ground (arith, at, u, none_left))) (
          subst
            (λ (i : EvolutionJob).
              (if P (if key i && s i then f i else i) then count_jobs P q + 1 else count_jobs P q)
                + one (P x)
              ≡ (if P i then count_jobs P q + 1 else count_jobs P q) + one (P (f x)))
            (sym e) (rw at_key (rw c (ground arith))))
    | inr p ↦
        let e : first_job t q ≡ some x = ground (arith, p, h) in
        let rest = count-update_row P f q c (ground (arith, u)) e in
        let off : key j ≡ false = ground (arith, u, count-first_job t key q x e at_key) in
        rw off (ground (arith, rest))
  ]

  -- An UPDATE that leaves the row found as it was.
  pub update-same_row :
      (f : EvolutionJob → EvolutionJob) (q : List EvolutionJob)
      → f x ≡ x
      → count_jobs key q ≤ 1
      → first_job t q ≡ some x
      → update_jobs narrowed f q ≡ q
  unfolding count_jobs update_jobs first_job
  update-same_row f [] c u h = absurd (ground (arith, h))
  update-same_row f (j ∷ q) c u h = elim (Bool-cases (t j)) [
    | inl p ↦
        let e = some_eq {x = j} {y = x} (ground (arith, p, h)) in
        let at = subst (λ (i : EvolutionJob). key i ≡ true) (sym e) at_key in
        let none_left = count_mono narrowed key q (λ i d. ground (arith, d)) in
        rw (update-none narrowed f q (ground (arith, at, u, none_left))) (
          subst (λ (i : EvolutionJob). ((if key i && s i then f i else i) ∷ q) ≡ i ∷ q) (sym e)
            (elim (Bool-cases (s x)) [
              | inl g ↦ rw at_key (rw g (ap (λ i. i ∷ q) c))
              | inr g ↦ rw at_key (rw g refl)
            ]))
    | inr p ↦
        let e : first_job t q ≡ some x = ground (arith, p, h) in
        let off : key j ≡ false = ground (arith, u, count-first_job t key q x e at_key) in
        rw off (ap (λ r. j ∷ r) (update-same_row f q c (ground (arith, u)) e))
  ]

  -- The row found, where no row passed the test and its new columns do.
  pub first_job-update_row :
      (P : EvolutionJob → Bool) (f : EvolutionJob → EvolutionJob) (q : List EvolutionJob)
      → s x ≡ true
      → P (f x) ≡ true
      → count_jobs key q ≤ 1
      → count_jobs P q ≡ 0
      → first_job t q ≡ some x
      → first_job P (update_jobs narrowed f q) ≡ some (f x)
  unfolding count_jobs update_jobs first_job
  first_job-update_row P f [] c d u z h = absurd (ground (arith, h))
  first_job-update_row P f (j ∷ q) c d u z h = elim (Bool-cases (t j)) [
    | inl p ↦
        let e = some_eq {x = j} {y = x} (ground (arith, p, h)) in
        subst
          (λ (i : EvolutionJob).
            first_job P ((if key i && s i then f i else i) ∷ update_jobs narrowed f q) ≡ some (f x))
          (sym e) (rw at_key (rw c (rw d refl)))
    | inr p ↦
        let e : first_job t q ≡ some x = ground (arith, p, h) in
        let off : key j ≡ false = ground (arith, u, count-first_job t key q x e at_key) in
        let fails : P j ≡ false = ground (arith, z) in
        rw off (
          rw fails
            (first_job-update_row P f q c d (ground (arith, u)) (ground (arith, z, fails)) e))
  ]

-- The first row that passes a test which an UPDATE leaves alone.
pub first_job-update :
    (P test : EvolutionJob → Bool) (f : EvolutionJob → EvolutionJob) (q : List EvolutionJob)
    (x : EvolutionJob)
    → ((j : EvolutionJob) → P (f j) ≡ P j)
    → test x ≡ true
    → first_job P q ≡ some x
    → first_job P (update_jobs test f q) ≡ some (f x)
unfolding first_job update_jobs
first_job-update P test f [] x keep c h = absurd (ground (arith, h))
first_job-update P test f (j ∷ q) x keep c h = elim (Bool-cases (P j)) [
  | inl p ↦
      let e = some_eq {x = j} {y = x} (ground (arith, p, h)) in
      subst
        (λ (i : EvolutionJob).
          first_job P ((if test i then f i else i) ∷ update_jobs test f q) ≡ some (f x))
        (sym e) (rw c (rw (keep x) (rw (subst (λ (i : EvolutionJob). P i ≡ true) e p) refl)))
  | inr p ↦
      let rest = first_job-update P test f q x keep c (ground (arith, p, h)) in
      elim (Bool-cases (test j)) [
        | inl t ↦ rw t (rw (keep j) (rw p rest))
        | inr t ↦ rw t (rw p rest)
      ]
]

pub first_job_snoc :
    (P : EvolutionJob → Bool) (q : List EvolutionJob) (x : EvolutionJob)
    → count_jobs P q ≡ 0
    → P x ≡ true
    → first_job P (q ++ x ∷ []) ≡ some x
unfolding first_job count_jobs
first_job_snoc P [] x z c = rw c refl
first_job_snoc P (j ∷ q) x z c =
    let fails : P j ≡ false = ground (arith, z) in
    rw fails (first_job_snoc P q x (ground (arith, z, fails)) c)

-- Two tests that no row passes both.
pub count_disjoint :
    (P A B : EvolutionJob → Bool) (q : List EvolutionJob)
    → ((j : EvolutionJob) → A j ≡ true → P j ≡ true)
    → ((j : EvolutionJob) → B j ≡ true → (P j ≡ true) × (A j ≡ false))
    → count_jobs A q + count_jobs B q ≤ count_jobs P q
unfolding count_jobs
count_disjoint P A B [] a b = ground arith
count_disjoint P A B (j ∷ q) a b = elim (Bool-cases (B j)) [
  | inl d ↦ ground (arith, d, (b j d).0, (b j d).1, count_disjoint P A B q a b)
  | inr d ↦ elim (Bool-cases (A j)) [
    | inl c ↦ ground (arith, c, d, a j c, count_disjoint P A B q a b)
    | inr c ↦ ground (arith, c, d, count_disjoint P A B q a b)
  ]
]
