-- ===== src/Core/Repository/Provenance.antt =====
-- core/repository.py: the typed evidence graph of a belief, and its relation counts.
use mirror_memory.Prelude.{
  ℕ, String, none, some, List, [], ◌∷◌, ◌==◌, leb, length, filter, if◌then◌else◌, ◌&&◌,
}
use mirror_memory.Prelude.Text.{str_eq}
use mirror_memory.Prelude.Sort.{sort}
use mirror_memory.Metabolism.Compact.{EvidenceGraphRow}
use mirror_memory.Core.Rows.{Evidence, EvidenceLink}
use mirror_memory.Core.Store.{Store, find_evidence}

-- `counts.get(relation, 0)` of one belief
unfoldable pub evidence_relation_count : Store → ℕ → String → ℕ
evidence_relation_count s id relation =
    length (filter (λ l. (l.belief_id == id) && str_eq l.relation relation) s.links)

-- `text or default`
abbrev text_or : String → String → String
text_or t default = if str_eq t "" then default else t

graph_row : EvidenceLink → Evidence → EvidenceGraphRow
graph_row l e = record {
  evidence_id = e.id;
  relation = l.relation;
  authority = text_or e.authority "user";
  source_type = text_or e.source_type "message";
  observed_at = e.observed_at;
  retention_state = text_or e.retention_state "hot";
}

-- The inner join of a belief's links with the evidence.
join_rows : ℕ → List Evidence → List EvidenceLink → List EvidenceGraphRow
join_rows id evidence [] = []
join_rows id evidence (l ∷ ls) =
    let rest = join_rows id evidence ls in
    if l.belief_id == id
    then elim (find_evidence l.evidence_id evidence) [ none ↦ rest | some e ↦ graph_row l e ∷ rest ]
    else rest

unfoldable pub evidence_graph : Store → ℕ → List EvidenceGraphRow
unfolding join_rows graph_row
evidence_graph s id =
    sort (λ r t. leb r.evidence_id t.evidence_id) (join_rows id s.evidence s.links)
