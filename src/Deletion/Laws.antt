-- ===== src/Deletion/Laws.antt =====
-- The lists of log entries: positions that ascend, what is read above a position, and chains of two
-- parts.
use mirror_memory.Prelude.{
  ℕ, ◌<◌, ◌≤◌, String, Bool, true, none, some, [], ◌∷◌, ◌++◌, ◌≡◌, refl, ap, ◌∙◌, sym, ◌&&◌, ◌==◌,
  ltb, all, filter, inl, inr, Bool-cases, some_eq, arith,
}
use mirror_memory.Deletion.{DeletionEntry, Payload, Log}
use mirror_memory.Deletion.Log.{read_from, tail, first_at, break_after}

-- Every position is above the one before it, and the first above `n`.
abbrev pub ascending : ℕ → Log → Bool
ascending n [] = true
ascending n (e ∷ es) = ltb n e.seq && ascending e.seq es

-- The greatest position of an ascending list is its last.
abbrev pub last_seq : ℕ → Log → ℕ
last_seq n [] = n
last_seq n (e ∷ es) = last_seq e.seq es

abbrev pub last_hash : String → Log → String
last_hash h [] = h
last_hash h (e ∷ es) = last_hash e.hash es

pub last_seq-above : (n : ℕ) (es : Log) → ascending n es ≡ true → n ≤ last_seq n es
last_seq-above n [] a = omega arith
last_seq-above n (e ∷ es) a = ground (arith, a, last_seq-above e.seq es)

-- The tail of an ascending log.
pub tail-ascending :
    (e : DeletionEntry) (es : Log)
    → ascending e.seq es ≡ true
    → tail (e ∷ es) ≡ some (last_seq e.seq es, last_hash e.hash es)
unfolding tail
tail-ascending e [] a = refl
tail-ascending e (x ∷ xs) a = ground (arith, a, tail-ascending x xs, last_seq-above x.seq xs)

pub ascending-snoc :
    (n : ℕ) (es : Log) (e : DeletionEntry)
    → ascending n es ≡ true
    → last_seq n es < e.seq
    → ascending n (es ++ e ∷ []) ≡ true
ascending-snoc n [] e a l = ground (arith, l)
ascending-snoc n (x ∷ xs) e a l = ground (arith, a, l, ascending-snoc x.seq xs e)

-- Above a position below all of an ascending list, all is read.
pub read_from-all : (n m : ℕ) (es : Log) → m ≤ n → ascending n es ≡ true → read_from m es ≡ es
unfolding read_from
read_from-all n m [] le a = refl
read_from-all n m (e ∷ es) le a = ground (arith, le, a, read_from-all e.seq m es)

-- Reading twice is reading above the greater position.
pub read_from-read_from :
    (n m : ℕ) (es : Log) → n ≤ m → read_from m (read_from n es) ≡ read_from m es
unfolding read_from
read_from-read_from n m [] le = refl
read_from-read_from n m (e ∷ es) le = ground (arith, le, read_from-read_from n m es)

pub first_at-above :
    (n before : ℕ) (es : Log) (last : DeletionEntry)
    → ascending n es ≡ true
    → first_at before es ≡ some last
    → n < before
unfolding first_at
first_at-above n before [] last a f = absurd (ground (arith, f))
first_at-above n before (e ∷ es) last a f = elim (Bool-cases (e.seq == before)) [
  | inl k ↦ ground (arith, k, a)
  | inr k ↦ ground (arith, k, a, f, first_at-above e.seq before es last)
]

pub filter-all : (p : DeletionEntry → Bool) (es : Log) → all p es ≡ true → filter p es ≡ es
filter-all p [] a = refl
filter-all p (e ∷ es) a = ground (arith, a, filter-all p es)

pub all-read_from :
    (p : DeletionEntry → Bool) (n : ℕ) (es : Log) → all p es ≡ true → all p (read_from n es) ≡ true
unfolding read_from
all-read_from p n [] a = refl
all-read_from p n (e ∷ es) a = ground (arith, a, all-read_from p n es)

pub ascending-read_from :
    (n m : ℕ) (es : Log) → ascending n es ≡ true → ascending m (read_from m es) ≡ true
unfolding read_from
ascending-read_from n m [] a = refl
ascending-read_from n m (e ∷ es) a = elim (Bool-cases (ltb m e.seq)) [
  | inl k ↦ ground (arith, k, a, read_from-all e.seq m es)
  | inr k ↦ ground (arith, k, a, ascending-read_from e.seq m es)
]

-- The last entry of an ascending list is above a position that it reaches, or at it.
pub last-read_from :
    (n before : ℕ) (h : String) (es : Log) (last : DeletionEntry)
    → ascending n es ≡ true
    → first_at before es ≡ some last
    → (last_seq before (read_from before es) ≡ last_seq n es)
      × (last_hash last.hash (read_from before es) ≡ last_hash h es)
unfolding read_from first_at
last-read_from n before h [] last a f = absurd (ground (arith, f))
last-read_from n before h (e ∷ es) last a f = elim (Bool-cases (e.seq == before)) [
  | inl k ↦
      let same = some_eq {x = e} {y = last} (sym (rw (k, first_at) refl) ∙ f) in
      ground (arith, k, a, ap (λ x. x.hash) same, read_from-all e.seq before es)
  | inr k ↦ ground (
    arith,
    k,
    a,
    f,
    first_at-above e.seq before es last,
    last-read_from e.seq before e.hash es last,
  )
]

module _ (digest : Payload → String) where
  -- A chain of two parts.
  pub break_after-append :
      (prev : String) (xs ys : Log)
      → break_after digest prev xs ≡ none
      → break_after digest prev (xs ++ ys) ≡ break_after digest (last_hash prev xs) ys
  unfolding break_after
  break_after-append prev [] ys h = refl
  break_after-append prev (x ∷ xs) ys h = ground (arith, h, break_after-append x.hash xs ys)

  -- The chain above a position of an ascending list continues from the hash there.
  pub break_after-read_from :
      (prev : String) (n before : ℕ) (es : Log) (last : DeletionEntry)
      → ascending n es ≡ true
      → break_after digest prev es ≡ none
      → first_at before es ≡ some last
      → break_after digest last.hash (read_from before es) ≡ none
  unfolding break_after read_from first_at
  break_after-read_from prev n before [] last a b f = absurd (ground (arith, f))
  break_after-read_from prev n before (e ∷ es) last a b f = elim (Bool-cases (e.seq == before)) [
    | inl k ↦ ground (
      arith,
      k,
      a,
      b,
      ap (λ x. x.hash) (some_eq {x = e} {y = last} (sym (rw (k, first_at) refl) ∙ f)),
      read_from-all e.seq before es,
    )
    | inr k ↦ ground (
      arith,
      k,
      a,
      b,
      f,
      first_at-above e.seq before es last,
      break_after-read_from e.hash e.seq before es last,
    )
  ]
