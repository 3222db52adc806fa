-- ===== src/Metabolism/Compact.antt =====
-- metabolism/compact.py: which observations of a belief survive a compaction.
pub mod Selection
pub mod Digest
use mirror_memory.Prelude.{
  ℕ, ◌+◌, ◌-◌, String, ◌≡◌, Bool, true, false, not, ◌&&◌, ◌||◌, Option, none, some, List, [], ◌∷◌,
  ◌++◌, map, min, max, length, take, drop, filter, mem, ltb, leb, ◌==◌, if◌then◌else◌,
}
use mirror_memory.Prelude.Text.{str_eq, one_of}
use mirror_memory.Prelude.Sort.{sort, dedupe}

-- One typed link joined with its evidence row; `observed_at` as in core/models.py.
pub record EvidenceGraphRow : Type 0 where
  pub evidence_id : ℕ
  pub relation : String
  pub authority : String
  pub source_type : String
  pub observed_at : Option ℕ
  pub retention_state : String

pub record KeepPolicy : Type 0 where
  pub oldest : ℕ
  pub recent : ℕ
  pub highest_authority : ℕ

abbrev pub default_keep_policy : KeepPolicy
default_keep_policy = record { oldest = 1; recent = 3; highest_authority = 2 }

abbrev pub min_support_links : ℕ
min_support_links = 12

-- The three slots of a payload's policy, each missing or a number.
pub record RawPolicy : Type 0 where
  pub oldest : Option ℕ
  pub recent : Option ℕ
  pub highest_authority : Option ℕ

slot : Option ℕ → ℕ → ℕ
slot none default = min (max default 1) 10
slot (some n) default = min (max n 1) 10

unfoldable pub clamp_policy : RawPolicy → KeepPolicy
unfolding slot
clamp_policy raw = record {
  oldest = slot raw.oldest 1;
  recent = slot raw.recent 3;
  highest_authority = slot raw.highest_authority 2;
}

abbrev pub always_keep_relations : List String
always_keep_relations = "correct" ∷ "contradict" ∷ "verify" ∷ []

unfoldable pub authority_rank : String → ℕ
authority_rank a =
    if str_eq a "user"
    then 0
    else if str_eq a "system"
    then 1
    else if str_eq a "assistant"
    then 2
    else if str_eq a "derived"
    then 3
    else 99

pub record CompactionPlan : Type 0 where
  pub belief_id : ℕ
  pub keep_ids : List ℕ
  pub fold_ids : List ℕ

-- The lexicographic keys of the two sorts: not after, as tuples of Python compare.
time_le : Option ℕ → Option ℕ → ℕ → ℕ → Bool
time_le none none i j = leb i j
time_le none (some t) i j = true
time_le (some s) none i j = false
time_le (some s) (some t) i j = ltb s t || ((s == t) && leb i j)

unfoldable pub by_time : EvidenceGraphRow → EvidenceGraphRow → Bool
unfolding time_le
by_time r s = time_le r.observed_at s.observed_at r.evidence_id s.evidence_id

unfoldable pub by_authority : EvidenceGraphRow → EvidenceGraphRow → Bool
unfolding authority_rank
by_authority r s =
    let a = authority_rank r.authority in
    let b = authority_rank s.authority in ltb a b || ((a == b) && leb r.evidence_id s.evidence_id)

abbrev pub is_support : EvidenceGraphRow → Bool
is_support r = str_eq r.relation "support"

abbrev pub is_load_bearing : EvidenceGraphRow → Bool
is_load_bearing r = one_of r.relation always_keep_relations

abbrev pub is_live : EvidenceGraphRow → Bool
is_live r = not (str_eq r.retention_state "compacted")

abbrev pub ids : List EvidenceGraphRow → List ℕ
ids = map (λ r. r.evidence_id)

abbrev pub live_support : List EvidenceGraphRow → List EvidenceGraphRow
live_support rows = filter is_live (filter is_support rows)

-- `xs[-n:]`
abbrev take_last {ℓ} : {A : Type ℓ} → ℕ → List A → List A
take_last n xs = drop (length xs - n) xs

abbrev oldest_rows : KeepPolicy → List EvidenceGraphRow → List EvidenceGraphRow
oldest_rows p rows = take p.oldest (sort by_time (live_support rows))

-- `if keep_policy.recent > 0`: without the test a slice of 0 would be the whole list.
abbrev recent_rows : KeepPolicy → List EvidenceGraphRow → List EvidenceGraphRow
recent_rows p rows =
    if ltb 0 p.recent then take_last p.recent (sort by_time (live_support rows)) else []

abbrev authority_rows : KeepPolicy → List EvidenceGraphRow → List EvidenceGraphRow
authority_rows p rows = take p.highest_authority (sort by_authority (live_support rows))

-- The set `keep`, with repetitions.
unfoldable pub keep_set : KeepPolicy → List EvidenceGraphRow → List ℕ
keep_set p rows =
    ids (filter is_load_bearing rows)
    ++ (ids (oldest_rows p rows) ++ (ids (recent_rows p rows) ++ ids (authority_rows p rows)))

unfoldable pub plan_compaction : List EvidenceGraphRow → ℕ → KeepPolicy → ℕ → Option CompactionPlan
plan_compaction rows belief_id policy min_support =
    if leb (length (filter is_support rows)) min_support
    then none
    else some (record {
      belief_id = belief_id;
      keep_ids = sort leb (dedupe (keep_set policy rows));
      fold_ids =
          sort leb (filter (λ i. not (mem i (keep_set policy rows))) (ids (live_support rows)));
    })

unfoldable pub folds_anything : CompactionPlan → Bool
folds_anything plan = elim plan.fold_ids [ [] ↦ false | _ ∷ _ ↦ true ]
