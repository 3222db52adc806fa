-- ===== src/Core/Repository/Compaction.antt =====
-- core/repository.py, `apply_evidence_compaction`: the digest is written, the rows are marked.
use mirror_memory.Prelude.{
  ℕ, ◌+◌, String, Option, none, some, List, [], ◌∷◌, ◌++◌, ◌==◌, map, filter, mem, if◌then◌else◌,
}
use mirror_memory.Prelude.Text.{str_eq, one_of}
use mirror_memory.Metabolism.Compact.Digest.{DigestFields}
use mirror_memory.Core.Rows.{Belief, Evidence, EvidenceDigest}
use mirror_memory.Core.Store.{Store, update_belief, append_event}

unfoldable pub find_digest : ℕ → List EvidenceDigest → Option EvidenceDigest
find_digest id [] = none
find_digest id (d ∷ ds) = if d.belief_id == id then some d else find_digest id ds

-- A set of texts as a list without repetition; an empty text is left out.
add_purpose : String → List String → List String
add_purpose p ps = if str_eq p "" then ps else if one_of p ps then ps else p ∷ ps

add_purposes : List Evidence → List String → List String
add_purposes [] ps = ps
add_purposes (e ∷ es) ps = add_purpose e.source_purpose (add_purposes es ps)

old_id : Option EvidenceDigest → ℕ → ℕ
old_id none fresh = fresh
old_id (some d) fresh = d.id

old_purposes : Option EvidenceDigest → List String
old_purposes none = []
old_purposes (some d) = d.source_purposes

put_digest : EvidenceDigest → List EvidenceDigest → List EvidenceDigest
put_digest n [] = n ∷ []
put_digest n (d ∷ ds) = if d.belief_id == n.belief_id then n ∷ ds else d ∷ put_digest n ds

-- The rows that the plan names: a folded one keeps its metadata and releases its content.
unfoldable pub mark : ℕ → List ℕ → List ℕ → Evidence → Evidence
mark digest keep fold e =
    if mem e.id fold
    then record e { retention_state = "compacted"; compaction_group_id = some digest; content = "" }
    else if mem e.id keep
    then record e { retention_state = "representative" }
    else e

unfoldable pub apply_evidence_compaction : Store → Belief → List ℕ → List ℕ → DigestFields → Store
unfolding add_purpose add_purposes old_id old_purposes put_digest mark
apply_evidence_compaction s b keep fold f =
    let old = find_digest b.id s.digests in
    let digest_id = old_id old s.next_id in
    let touched = filter (λ e. mem e.id (keep ++ fold)) s.evidence in
    append_event b "evidence_compacted" (record s {
      digests =
          put_digest
            (record {
              id = digest_id;
              user_id = b.user_id;
              belief_id = b.id;
              support_count = f.support_count;
              contradict_count = f.contradict_count;
              verify_count = f.verify_count;
              correct_count = f.correct_count;
              first_seen_at = f.first_seen_at;
              last_seen_at = f.last_seen_at;
              representative_ids = f.representative_ids;
              source_distribution = f.source_distribution;
              authority_distribution = f.authority_distribution;
              source_purposes = add_purpose s.purpose (add_purposes touched (old_purposes old));
            })
            s.digests;
      evidence = map (mark digest_id keep fold) s.evidence;
      beliefs = update_belief b.id (λ c. record c { compacted_into = some digest_id }) s.beliefs;
      next_id = elim old [ none ↦ s.next_id + 1 | some _ ↦ s.next_id ];
    })
