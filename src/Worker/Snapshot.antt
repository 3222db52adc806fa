-- ===== src/Worker/Snapshot.antt =====
-- worker/snapshot.py: the versioned snapshots of what is understood of a user, as the rows of one
-- tenant.
use mirror_memory.Prelude.{
  ℕ, ◌+◌, String, Bool, true, false, Option, none, some, List, [], ◌∷◌, ◌++◌, ◌&&◌, leb, ltb, map,
  not, any, filter, if◌then◌else◌,
}
use mirror_memory.Prelude.Text.{str_eq, str_leb}
use mirror_memory.Prelude.Sort.{sort}

pub data SnapshotStatus : Type 0 where
  active shadow retired : SnapshotStatus

pub record Snapshot : Type 0 where
  pub id : String
  pub user_id : String
  pub version : ℕ
  pub status : SnapshotStatus
  pub content_json : String
  pub support_policy_json : String
  pub evidence_watermark : String
  pub prompt_version : String
  pub source_purpose : String
  pub source_purposes : List String
  pub source_generation : Option ℕ

-- The columns of a belief that the worker reads.
pub record BeliefStamp : Type 0 where
  pub user_id : String
  pub is_active : Bool
  pub updated_at : ℕ
  pub origin_session_id : Option String

-- `status.in_(("active", "shadow"))` and `status == "shadow"`
unfoldable pub is_live : SnapshotStatus → Bool
is_live retired = false
is_live _ = true

unfoldable pub is_shadow : SnapshotStatus → Bool
is_shadow shadow = true
is_shadow _ = false

-- `order_by(version.desc()).limit(1).first()` of the rows that pass the test.
abbrev newer : Snapshot → Option Snapshot → Snapshot
newer s none = s
newer s (some t) = if ltb s.version t.version then t else s

unfoldable pub latest : (Snapshot → Bool) → List Snapshot → Option Snapshot
latest test [] = none
latest test (s ∷ ss) = let rest = latest test ss in if test s then some (newer s rest) else rest

abbrev pub of_user : String → Snapshot → Bool
of_user user s = str_eq s.user_id user

abbrev pub live_of : String → Snapshot → Bool
live_of user s = of_user user s && is_live s.status

abbrev pub next_version : Option Snapshot → ℕ
next_version none = 1
next_version (some s) = s.version + 1

abbrev pub retire : Snapshot → Snapshot
retire s = record s { status = retired }

abbrev pub update_where : (Snapshot → Bool) → (Snapshot → Snapshot) → List Snapshot → List Snapshot
update_where test f ss = map (λ s. if test s then f s else s) ss

-- `sorted(set(...))`
unfoldable pub distinct : List String → List String
distinct [] = []
distinct (p ∷ ps) = let rest = distinct ps in if any (str_eq p) rest then rest else p ∷ rest

-- The arguments of `persist_snapshot` with the ambient purpose and the new id; `content` and
-- `policy` are the texts that `json.dumps` gives.
pub record SnapshotRequest : Type 0 where
  pub id : String
  pub user_id : String
  pub content : String
  pub policy : String
  pub watermark : String
  pub is_shadow : Bool
  pub source_purposes : List String
  pub source_generation : Option ℕ
  pub purpose : String

abbrev pub new_snapshot : SnapshotRequest → ℕ → Snapshot
new_snapshot r version = record {
  id = r.id;
  user_id = r.user_id;
  version = version;
  status = if r.is_shadow then shadow else active;
  content_json = r.content;
  support_policy_json = r.policy;
  evidence_watermark = r.watermark;
  prompt_version = "v1";
  source_purpose = r.purpose;
  source_purposes = sort str_leb (distinct r.source_purposes);
  source_generation = r.source_generation;
}

unfoldable pub persist_snapshot : SnapshotRequest → List Snapshot → List Snapshot
persist_snapshot r ss =
    update_where (live_of r.user_id) retire ss
    ++ new_snapshot r (next_version (latest (of_user r.user_id) ss)) ∷ []

-- Equality of a nullable column under DISTINCT, where NULL is a value like any other.
unfoldable pub same_session : Option String → Option String → Bool
same_session none none = true
same_session (some a) (some b) = str_eq a b
same_session none (some b) = false
same_session (some a) none = false

-- `SELECT count(*) FROM (SELECT DISTINCT ...)`
unfoldable pub count_distinct : List (Option String) → ℕ
unfolding same_session
count_distinct [] = 0
count_distinct (o ∷ os) =
    let rest = count_distinct os in if any (same_session o) os then rest else rest + 1

abbrev pub active_of : String → BeliefStamp → Bool
active_of user b = str_eq b.user_id user && b.is_active

abbrev pub sessions_of : String → List BeliefStamp → List (Option String)
sessions_of user bs = map (λ b. b.origin_session_id) (filter (active_of user) bs)

abbrev pub shadow_of : String → Snapshot → Bool
shadow_of user s = of_user user s && is_shadow s.status

abbrev pub activate : Snapshot → Snapshot
activate s = record s { status = active }

abbrev promoted : String → Snapshot → Bool
promoted id s = str_eq s.id id && is_shadow s.status

unfoldable pub promote_shadow_if_ready :
    String → List BeliefStamp → List Snapshot → Bool × List Snapshot
unfolding latest count_distinct
promote_shadow_if_ready user bs ss = elim (latest (shadow_of user) ss) [
  | none ↦ (false, ss)
  | some s ↦
      if leb 2 (count_distinct (sessions_of user bs))
      then (true, update_where (promoted s.id) activate ss)
      else (false, ss)
]

-- A session id that counts as true in Python.
abbrev pub is_named : Option String → Bool
is_named none = false
is_named (some t) = not (str_eq t "")

-- `_load_evidence`: `len({b.origin_session_id for b in beliefs if b.origin_session_id})`, where the
-- beliefs are the visible ones of a page of active ones.
unfoldable pub distinct_sessions : List BeliefStamp → ℕ
unfolding count_distinct
distinct_sessions bs = count_distinct (filter is_named (map (λ b. b.origin_session_id) bs))

-- The provenance of a snapshot row: the union, or the single purpose of an older row.
abbrev pub snapshot_purposes : Snapshot → List String
snapshot_purposes s =
    let listed = filter (λ p. not (str_eq p "")) s.source_purposes in
    elim listed [
      | p ∷ ps ↦ p ∷ ps
      | [] ↦ if str_eq s.source_purpose "" then [] else s.source_purpose ∷ []
    ]

-- `_previous_snapshot_purposes`, a set as the list of its members.
unfoldable pub previous_snapshot_purposes : String → List Snapshot → List String
previous_snapshot_purposes user [] = []
previous_snapshot_purposes user (s ∷ ss) =
    let rest = previous_snapshot_purposes user ss in
    if live_of user s then snapshot_purposes s ++ rest else rest
