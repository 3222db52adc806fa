-- ===== src/Core/Store/Keys.antt =====
-- Evidence by its keys: where as many rows are found as ids are asked for, every id has its row.
use mirror_memory.Prelude.{
  ℕ, suc, ◌+◌, ◌≤◌, Bool, true, false, Option, none, some, List, [], ◌∷◌, ◌≡◌, ◌≢◌, ◌==◌, refl, ap,
  ◌∙◌, map, length, filter, any, mem, if◌then◌else◌, arith, Bool-cases, inl, inr,
}
use mirror_memory.Prelude.Sort.{dedupe, mem-dedupe}
use mirror_memory.Core.Rows.{Evidence}
use mirror_memory.Core.Store.{find_evidence}

-- The primary key: no two members are equal.
abbrev pub IsDistinct : List ℕ → Type 0
IsDistinct [] = Unit
IsDistinct (x ∷ xs) = (mem x xs ≡ false) × IsDistinct xs

dedupe-IsDistinct : (xs : List ℕ) → IsDistinct (dedupe xs)
unfolding dedupe
dedupe-IsDistinct [] = tt
dedupe-IsDistinct (x ∷ xs) = elim (Bool-cases (mem x xs)) [
  | inl e ↦ rw e (dedupe-IsDistinct xs)
  | inr e ↦ rw e (mem-dedupe x xs ∙ e, dedupe-IsDistinct xs)
]

abbrev pub evidence_ids : List Evidence → List ℕ
evidence_ids = map (λ e. e.id)

abbrev with_id : ℕ → List Evidence → List Evidence
with_id a = filter (λ e. e.id == a)

abbrev pub among : List ℕ → List Evidence → List Evidence
among d = filter (λ e. mem e.id d)

mem-cong : (a b : ℕ) (d : List ℕ) → (a == b) ≡ true → mem b d ≡ false → mem a d ≡ false
mem-cong a b [] e h = refl
mem-cong a b (x ∷ d) e h = ground (arith, mem-cong a b d)

mem-same : (a b : ℕ) (d : List ℕ) → (a == b) ≡ true → mem b d ≡ true → mem a d ≡ true
mem-same a b [] e h = h
mem-same a b (x ∷ d) e h = ground (arith, mem-same a b d)

length-among-cons :
    (a : ℕ) (d : List ℕ) (ev : List Evidence)
    → mem a d ≡ false
    → length (among (a ∷ d) ev) ≡ length (with_id a ev) + length (among d ev)
length-among-cons a d [] h = omega arith
length-among-cons a d (e ∷ ev) h = elim (Bool-cases (e.id == a)) [
  | inl t ↦ rw (t, mem-cong e.id a d t h) (omega (arith, length-among-cons a d ev h))
  | inr f ↦ ground (arith, f, length-among-cons a d ev)
]

with_id-absent :
    (a : ℕ) (ev : List Evidence) → mem a (evidence_ids ev) ≡ false → length (with_id a ev) ≡ 0
with_id-absent a [] h = refl
with_id-absent a (e ∷ ev) h = ground (arith, with_id-absent a ev)

abbrev found : Option Evidence → ℕ
found none = 0
found (some e) = 1

length-with_id :
    (a : ℕ) (ev : List Evidence)
    → IsDistinct (evidence_ids ev)
    → length (with_id a ev) ≡ found (find_evidence a ev)
unfolding find_evidence
length-with_id a [] h = refl
length-with_id a (e ∷ ev) h = elim (Bool-cases (e.id == a)) [
  | inl t ↦ rw t (omega (arith, with_id-absent a ev (same e.id t (h.0))))
  | inr f ↦ rw f (length-with_id a ev h.1)
]
  where
    same :
        (i : ℕ)
        → (i == a) ≡ true
        → mem i (evidence_ids ev) ≡ false
        → mem a (evidence_ids ev) ≡ false
    same i t m = mem-cong a i (evidence_ids ev) (ground arith) m

found-le_one : (o : Option Evidence) → found o ≤ 1
found-le_one none = omega arith
found-le_one (some e) = omega arith

length-among :
    (d : List ℕ) (ev : List Evidence)
    → IsDistinct d
    → IsDistinct (evidence_ids ev)
    → length (among d ev) ≤ length d
length-among [] [] u v = omega arith
length-among [] (e ∷ ev) u v = length-among [] ev u v.1
length-among (a ∷ d) ev u v = omega (
  arith,
  length-among-cons a d ev u.0,
  length-with_id a ev v,
  length-among d ev u.1 v,
  found-le_one (find_evidence a ev),
)

abbrev pub IsFound : List Evidence → ℕ → Type 0
IsFound ev a = (e : Evidence) × (find_evidence a ev ≡ some e)

found-one : (a : ℕ) (ev : List Evidence) → found (find_evidence a ev) ≢ 0 → IsFound ev a
found-one a ev = by_row (find_evidence a ev) refl
  where
    by_row : (o : Option Evidence) → find_evidence a ev ≡ o → found o ≢ 0 → IsFound ev a
    by_row none e h = absurd (h refl)
    by_row (some r) e h = (r, e)

all-IsFound :
    (d : List ℕ) (ev : List Evidence) (a : ℕ)
    → IsDistinct d
    → IsDistinct (evidence_ids ev)
    → length (among d ev) ≡ length d
    → mem a d ≡ true
    → IsFound ev a
all-IsFound [] ev a u v h m = cc
all-IsFound (x ∷ d) ev a u v h m = elim (Bool-cases (a == x)) [
  | inl e ↦
      found-one a ev (λ z. omega (arith, counts, ap (λ n. found (find_evidence n ev)) (same e), z))
  | inr e ↦
      all-IsFound d ev a u.1 v
        (omega (arith, counts, found-le_one (find_evidence x ev), length-among d ev u.1 v))
        (rw e at m)
]
  where
    counts :
        (length (with_id x ev) + length (among d ev) ≡ suc (length d))
        × (length (with_id x ev) ≡ found (find_evidence x ev))
        × (length (among d ev) ≤ length d)
    counts = (
      omega (arith, length-among-cons x d ev u.0),
      length-with_id x ev v,
      length-among d ev u.1 v,
    )

    same : (a == x) ≡ true → a ≡ x
    same e = ground arith

among-dedupe :
    (ids : List ℕ) (ev : List Evidence) → length (among (dedupe ids) ev) ≡ length (among ids ev)
among-dedupe ids [] = refl
among-dedupe ids (e ∷ ev) = rw mem-dedupe (ground (arith, among-dedupe ids ev))

-- Evidence ids are the table's key. If a query for some ids returns as many rows as the ids have
-- distinct values, then each of the ids has a row.
pub evidence-IsFound :
    (ids : List ℕ) (ev : List Evidence) (a : ℕ)
    → IsDistinct (evidence_ids ev)
    → length (among ids ev) ≡ length (dedupe ids)
    → mem a ids ≡ true
    → IsFound ev a
evidence-IsFound ids ev a v h m =
    all-IsFound (dedupe ids) ev a (dedupe-IsDistinct ids) v (among-dedupe ids ev ∙ h)
      (mem-dedupe a ids ∙ m)

-- A test that fails on every row of the query fails on the row of each id.
pub cited_passes :
    (test : Evidence → Bool) (ids : List ℕ) (ev : List Evidence) (a : ℕ) {e : Evidence}
    → any test (among ids ev) ≡ false
    → find_evidence a ev ≡ some e
    → mem a ids ≡ true
    → test e ≡ false
unfolding find_evidence
cited_passes test ids [] a h f m = cc
cited_passes test ids (x ∷ ev) a {e} h f m = elim (Bool-cases (x.id == a)) [
  | inl t ↦ ground (arith, t, mem-same x.id a ids t m)
  | inr n ↦ cited_passes test ids ev a (skip (mem x.id ids) h) (ground (arith, n)) m
]
  where
    skip :
        (b : Bool)
        → any test (if b then x ∷ among ids ev else among ids ev) ≡ false
        → any test (among ids ev) ≡ false
    skip true k = ground arith
    skip false k = k
