-- ===== src/Metabolism/Compact/Selection.antt =====
-- What `plan_compaction` keeps and folds.
use mirror_memory.Prelude.{
  ℕ, zero, suc, ◌+◌, ◌-◌, ◌≤◌, ◌≡◌, refl, ◌∙◌, ap, sym, subst, All, true, false, not, ◌&&◌, ◌||◌,
  Option, some, List, [], ◌∷◌, ◌++◌, length, take, drop, filter, mem, ltb, leb, ◌==◌, arith,
  if◌then◌else◌, Bool-cases, inl, inr, ◌⊎◌,
}
use mirror_memory.Prelude.Sort.{
  sort, dedupe, mem-append, mem-dedupe, mem-sort_ids, mem-sort, length-append, length-take,
  length-drop, length-map, length-sort, length-dedupe, IsOrder, sort-IsFirst,
}
use mirror_memory.Metabolism.Compact.{
  EvidenceGraphRow, KeepPolicy, CompactionPlan, is_load_bearing, ids, live_support, keep_set,
  time_le, plan_compaction, oldest_rows, recent_rows, authority_rows, by_time, by_authority,
}

mem-filter-not :
    (a : ℕ) (keep xs : List ℕ)
    → mem a (filter (λ i. not (mem i keep)) xs) ≡ (mem a xs && not (mem a keep))
mem-filter-not a keep [] = refl
mem-filter-not a keep (x ∷ xs) = elim (Bool-cases (a == x)) [
  | inl e ↦ ground (arith, mem-filter-not a keep xs)
  | inr e ↦ ground (arith, mem-filter-not a keep xs)
]

length-ids_append :
    (xs : List EvidenceGraphRow) (ys : List ℕ) → length (ids xs ++ ys) ≡ length xs + length ys
length-ids_append xs ys =
    omega
      (arith, length-append (ids xs) ys, length-map (λ (r : EvidenceGraphRow). r.evidence_id) xs)

length-recent :
    (n : ℕ) (xs : List EvidenceGraphRow)
    → length (if ltb 0 n then drop (length xs - n) xs else []) ≤ n
length-recent n xs = elim (Bool-cases (ltb 0 n)) [
  | inl e ↦ rw e (omega (arith, length-drop (length xs - n) xs))
  | inr e ↦ rw e (omega arith)
]

mem_append_left : (a : ℕ) (xs ys : List ℕ) → mem a xs ≡ true → mem a (xs ++ ys) ≡ true
mem_append_left a xs ys h = mem-append a xs ys ∙ ap (λ c. c || mem a ys) h

mem_append_right : (a : ℕ) (xs ys : List ℕ) → mem a ys ≡ true → mem a (xs ++ ys) ≡ true
mem_append_right a xs ys h = ground (arith, mem-append a xs ys)

mem-take_head :
    (n : ℕ) (r : EvidenceGraphRow) (rest : List EvidenceGraphRow)
    → 1 ≤ n
    → mem r.evidence_id (ids (take n (r ∷ rest))) ≡ true
mem-take_head zero r rest h = absurd (omega arith)
mem-take_head (suc n) r rest h = ground arith

length-keep_set :
    (p : KeepPolicy) (rows : List EvidenceGraphRow)
    → length (keep_set p rows)
      ≤ length (filter is_load_bearing rows) + p.oldest + p.recent + p.highest_authority
unfolding keep_set
length-keep_set p rows =
    let bearing = filter is_load_bearing rows in
    let old = oldest_rows p rows in
    let new = recent_rows p rows in
    let top = authority_rows p rows in
    omega (
      arith,
      length-ids_append bearing (ids old ++ (ids new ++ ids top)),
      length-ids_append old (ids new ++ ids top),
      length-ids_append new (ids top),
      length-map (λ (r : EvidenceGraphRow). r.evidence_id) top,
      length-take p.oldest (sort by_time (live_support rows)),
      length-take p.highest_authority (sort by_authority (live_support rows)),
      length-recent p.recent (sort by_time (live_support rows)),
    )

time_total : (s t : Option ℕ) (i j : ℕ) → (time_le s t i j ≡ true) ⊎ (time_le t s j i ≡ true)
unfolding time_le
time_total s t i j = ground arith

time_trans :
    (s t u : Option ℕ) (i j k : ℕ)
    → time_le s t i j ≡ true
    → time_le t u j k ≡ true
    → time_le s u i k ≡ true
unfolding time_le
time_trans s t u i j k h l = ground arith

by_time-IsOrder : IsOrder by_time
unfolding by_time
by_time-IsOrder = record {
  total = λ r s. time_total r.observed_at s.observed_at r.evidence_id s.evidence_id;
  trans = λ r s u.
      time_trans r.observed_at s.observed_at u.observed_at r.evidence_id s.evidence_id
        u.evidence_id;
}

mem_head :
    (r : EvidenceGraphRow) {xs : List EvidenceGraphRow} (rest : List EvidenceGraphRow)
    → xs ≡ r ∷ rest
    → mem r.evidence_id (ids xs) ≡ true
mem_head r rest e = rw e (ground arith)

keep_set-oldest :
    (p : KeepPolicy) (rows : List EvidenceGraphRow) (r : EvidenceGraphRow)
    (rest : List EvidenceGraphRow)
    → sort by_time (live_support rows) ≡ r ∷ rest
    → 1 ≤ p.oldest
    → mem r.evidence_id (keep_set p rows) ≡ true
unfolding keep_set
keep_set-oldest p rows r rest e h =
    mem_append_right r.evidence_id (ids (filter is_load_bearing rows)) _ (
      mem_append_left r.evidence_id (ids (oldest_rows p rows)) _
        (rw e (mem-take_head p.oldest r rest h)))

module _ (rows : List EvidenceGraphRow) (b : ℕ) (p : KeepPolicy) (m : ℕ) {plan : CompactionPlan}
    (planned : plan_compaction rows b p m ≡ some plan) where
  plan-fields :
      (plan.keep_ids ≡ sort leb (dedupe (keep_set p rows)))
      × (plan.fold_ids
          ≡ sort leb (filter (λ i. not (mem i (keep_set p rows))) (ids (live_support rows))))
  unfolding plan_compaction
  plan-fields = ground arith

  keep_ids-mem : (a : ℕ) → mem a plan.keep_ids ≡ mem a (keep_set p rows)
  keep_ids-mem a = ap (mem a) plan-fields.0 ∙ mem-sort_ids a _ ∙ mem-dedupe a (keep_set p rows)

  -- The plan folds exactly the live support rows that it does not keep.
  pub fold_ids-exact :
      (a : ℕ) → mem a plan.fold_ids ≡ (mem a (ids (live_support rows)) && not (mem a plan.keep_ids))
  fold_ids-exact a = rw keep_ids-mem (
      ap (mem a) plan-fields.1
      ∙ mem-sort_ids a _
      ∙ mem-filter-not a (keep_set p rows) (ids (live_support rows)))

  -- No row behind a correction, a contradiction or a verification is folded.
  pub fold_ids-not-load_bearing :
      (a : ℕ) → mem a (ids (filter is_load_bearing rows)) ≡ true → mem a plan.fold_ids ≡ false
  unfolding keep_set
  fold_ids-not-load_bearing a h = ground (
    arith,
    fold_ids-exact a,
    keep_ids-mem a,
    mem-append a (ids (filter is_load_bearing rows))
        (ids (oldest_rows p rows) ++ (ids (recent_rows p rows) ++ ids (authority_rows p rows))),
  )

  -- The sample is small: beside the load-bearing rows, at most one row for each slot of the policy.
  length-keep_ids :
      length plan.keep_ids
      ≤ length (filter is_load_bearing rows) + p.oldest + p.recent + p.highest_authority
  length-keep_ids = omega (
    arith,
    ap length plan-fields.0,
    length-sort leb (dedupe (keep_set p rows)),
    length-dedupe (keep_set p rows),
    length-keep_set p rows,
  )

  -- Where the policy has an oldest slot and some support row is live, a live support row that is
  -- not later than any other is kept.
  keep_ids-earliest :
      (x : EvidenceGraphRow) (xs : List EvidenceGraphRow)
      → live_support rows ≡ x ∷ xs
      → 1 ≤ p.oldest
      → (r : EvidenceGraphRow) × (mem r.evidence_id (ids (live_support rows)) ≡ true)
        × All (λ s. by_time r s ≡ true) (live_support rows)
        × (mem r.evidence_id plan.keep_ids ≡ true)
  keep_ids-earliest x xs e h =
      let (r, rest, sorted, least) = sort-IsFirst by_time by_time-IsOrder x xs in
      let sorted' : sort by_time (live_support rows) ≡ r ∷ rest = ap (sort by_time) e ∙ sorted in
      (
        r,
        sym (mem-sort (λ s. s.evidence_id) by_time r.evidence_id (live_support rows))
            ∙ mem_head r rest sorted',
        subst (All (λ s. by_time r s ≡ true)) (sym e) least,
        keep_ids-mem r.evidence_id ∙ keep_set-oldest p rows r rest sorted' h,
      )
