-- ===== src/Metabolism/Compact/Digest.antt =====
-- metabolism/compact.py, `build_digest_fields`: the aggregate that a compaction writes.
use mirror_memory.Prelude.{
  ℕ, ◌+◌, String, Option, none, some, List, [], ◌∷◌, min, max, length, filter, ltb, leb,
  if◌then◌else◌,
}
use mirror_memory.Prelude.Text.{str_eq}
use mirror_memory.Prelude.Sort.{sort}
use mirror_memory.Prelude.Dict.{Dict}
use mirror_memory.Metabolism.Compact.{EvidenceGraphRow, is_support}

-- `counts[k] = counts.get(k, 0) + 1`, a new key at the end
unfoldable pub bump : String → Dict ℕ → Dict ℕ
bump k [] = (k, 1) ∷ []
bump k ((j, n) ∷ d) = if str_eq j k then (j, n + 1) ∷ d else (j, n) ∷ bump k d

tally : (EvidenceGraphRow → String) → Dict ℕ → List EvidenceGraphRow → Dict ℕ
tally f d [] = d
tally f d (r ∷ rs) = tally f (bump (f r) d) rs

-- `max(sources, key=sources.get)`: the first key of the greatest count, "" for none
top_of : String → ℕ → Dict ℕ → String
top_of best n [] = best
top_of best n ((k, m) ∷ d) = if ltb n m then top_of k m d else top_of best n d

top_key : Dict ℕ → String
unfolding top_of
top_key [] = ""
top_key ((k, n) ∷ d) = top_of k n d

pick : (ℕ → ℕ → ℕ) → Option ℕ → Option ℕ → Option ℕ
pick f none o = o
pick f (some t) none = some t
pick f (some t) (some u) = some (f t u)

extreme : (ℕ → ℕ → ℕ) → List EvidenceGraphRow → Option ℕ
extreme f [] = none
extreme f (r ∷ rs) = pick f r.observed_at (extreme f rs)

abbrev pub count_of : String → List EvidenceGraphRow → ℕ
count_of relation rows = length (filter (λ r. str_eq r.relation relation) rows)

-- The two distributions are in the order of first occurrence; `dict(sorted(…))` only reorders them.
-- The text of the summary is made of `support_count`, `first_seen_at`, `kept` and `top_source`.
pub record DigestFields : Type 0 where
  pub support_count : ℕ
  pub contradict_count : ℕ
  pub verify_count : ℕ
  pub correct_count : ℕ
  pub first_seen_at : Option ℕ
  pub last_seen_at : Option ℕ
  pub representative_ids : List ℕ
  pub source_distribution : Dict ℕ
  pub authority_distribution : Dict ℕ
  pub kept : ℕ
  pub top_source : String

unfoldable pub build_digest_fields : List EvidenceGraphRow → List ℕ → DigestFields
unfolding tally bump top_key pick extreme
build_digest_fields rows keep_ids =
    let sources = tally (λ r. r.source_type) [] (filter is_support rows) in
    record {
      support_count = count_of "support" rows;
      contradict_count = count_of "contradict" rows;
      verify_count = count_of "verify" rows;
      correct_count = count_of "correct" rows;
      first_seen_at = extreme min rows;
      last_seen_at = extreme max rows;
      representative_ids = sort leb keep_ids;
      source_distribution = sources;
      authority_distribution = tally (λ r. r.authority) [] (filter is_support rows);
      kept = length keep_ids;
      top_source = top_key sources;
    }
