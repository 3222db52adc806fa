-- ===== src/Access/Grants.antt =====
-- core/authorization.py, `grant_purpose`, `revoke_purpose` and `record_purpose_invocation`. A call
-- reads the grant and writes later: `seen` is the row it has read, and the write runs on the tables
-- as they are then. A call that raises leaves the tables as they were.
use mirror_memory.Prelude.{
  ℕ, ◌+◌, String, Bool, true, false, Option, none, some, List, [], ◌∷◌, ◌++◌, ◌==◌, all,
  if◌then◌else◌,
}
use mirror_memory.Prelude.Text.{one_of, strip, str_take, str_leb}
use mirror_memory.Prelude.Sort.{sort}
use mirror_memory.Access.{
  PurposeGrant, PurposeGrantEvent, GrantAction, granted, updated, Tables, same_key, find_grant,
  Result, returned, raised, unknown_operation, stale_grant_version, value_error,
}
use mirror_memory.Access.Authorize.{is_operation, blank}

abbrev pub distinct : List String → Bool
distinct [] = true
distinct (x ∷ xs) = if one_of x xs then false else distinct xs

-- `_operations_json`: the sorted list, or a refusal of the vocabulary.
unfoldable pub operations_json : List String → Option (List String)
unfolding is_operation
operations_json [] = none
operations_json (op ∷ ops) =
    if all is_operation (op ∷ ops)
    then if distinct (op ∷ ops) then some (sort str_leb (op ∷ ops)) else none
    else none

-- The ORM's `UPDATE` of the row of a key.
unfoldable pub update_grant :
    String → String → (PurposeGrant → PurposeGrant) → List PurposeGrant → List PurposeGrant
update_grant user purpose f [] = []
update_grant user purpose f (g ∷ gs) =
    if same_key user purpose g then f g ∷ gs else g ∷ update_grant user purpose f gs

abbrev pub change :
    String → String → GrantAction → Option ℕ → ℕ → String → String → PurposeGrantEvent
change user purpose action old new actor reason = record {
  user_id = user;
  purpose = purpose;
  action = action;
  operation = "";
  decision = "";
  old_version = old;
  new_version = some new;
  actor = actor;
  reason = str_take 200 reason;
}

abbrev pub log : PurposeGrantEvent → Tables → Tables
log e s = record s { grant_events = s.grant_events ++ e ∷ [] }

-- What the caller of `grant_purpose` asks for, the purpose stripped and the operations sorted.
pub record Terms : Type 0 where
  pub user_id : String
  pub purpose : String
  pub operations : List String
  pub issuer : String
  pub expires_at : Option ℕ
  pub reason : String

abbrev pub first_grant : Terms → PurposeGrant
first_grant t = record {
  user_id = t.user_id;
  purpose = t.purpose;
  version = 1;
  allowed_operations = t.operations;
  issuer = t.issuer;
  expires_at = t.expires_at;
  revoked_at = none;
}

abbrev pub regrant : Terms → PurposeGrant → PurposeGrant
regrant t g = record g {
  version = g.version + 1;
  allowed_operations = t.operations;
  issuer = t.issuer;
  expires_at = t.expires_at;
  revoked_at = none;
}

abbrev pub issued : Terms → Tables → PurposeGrant × Tables
issued t s = (
  first_grant t,
  log (change t.user_id t.purpose granted none 1 t.issuer t.reason)
      (record s { grants = s.grants ++ first_grant t ∷ [] }),
)

-- The INSERT of a first issuance: the primary key refuses a second row.
unfoldable pub issue : Terms → Tables → Result (PurposeGrant × Tables)
issue t s = elim (find_grant t.user_id t.purpose s.grants) [
  | some _ ↦ raised stale_grant_version
  | none ↦ returned (issued t s)
]

abbrev pub swapped :
    String
    → String
    → (PurposeGrant → PurposeGrant)
    → PurposeGrantEvent
    → Tables
    → PurposeGrant
    → PurposeGrant × Tables
swapped user purpose f e s g =
    (f g, log e (record s { grants = update_grant user purpose f s.grants }))

-- The UPDATE of a row that still holds the version expected, and no other.
unfoldable pub swap_grant :
    String
    → String
    → ℕ
    → (PurposeGrant → PurposeGrant)
    → (PurposeGrant → PurposeGrantEvent)
    → Tables
    → Result (PurposeGrant × Tables)
swap_grant user purpose expected f event s = elim (find_grant user purpose s.grants) [
  | none ↦ raised stale_grant_version
  | some g ↦
      if g.version == expected
      then returned (swapped user purpose f (event g) s g)
      else raised stale_grant_version
]

abbrev pub reissue_event : Terms → ℕ → PurposeGrant → PurposeGrantEvent
reissue_event t expected g =
    change t.user_id t.purpose updated (some expected) (g.version + 1) t.issuer t.reason

unfoldable pub reissue : Terms → ℕ → Tables → Result (PurposeGrant × Tables)
unfolding swap_grant
reissue t expected s =
    swap_grant t.user_id t.purpose expected (regrant t) (reissue_event t expected) s

-- The branches on the row seen and on the version expected.
unfoldable pub grant_seen :
    Option PurposeGrant → Option ℕ → Terms → Tables → Result (PurposeGrant × Tables)
unfolding issue reissue
grant_seen none none t s = issue t s
grant_seen none (some expected) t s = raised stale_grant_version
grant_seen (some _) none t s = raised stale_grant_version
grant_seen (some _) (some expected) t s = reissue t expected s

-- The arguments of `grant_purpose`, as given.
pub record GrantRequest : Type 0 where
  pub user_id : String
  pub purpose : String
  pub operations : List String
  pub issuer : String
  pub expires_at : Option ℕ
  pub expected_version : Option ℕ
  pub reason : String

abbrev pub terms_of : GrantRequest → List String → Terms
terms_of r ops = record {
  user_id = r.user_id;
  purpose = strip r.purpose;
  operations = ops;
  issuer = r.issuer;
  expires_at = r.expires_at;
  reason = r.reason;
}

unfoldable pub grant_purpose_on :
    Option PurposeGrant → GrantRequest → Tables → Result (PurposeGrant × Tables)
unfolding grant_seen operations_json
grant_purpose_on seen r s =
    if blank r.purpose
    then raised value_error
    else if blank r.user_id
    then raised value_error
    else elim (operations_json r.operations) [
      | none ↦ raised unknown_operation
      | some ops ↦
          if blank r.issuer
          then raised value_error
          else grant_seen seen r.expected_version (terms_of r ops) s
    ]

-- Without another writer between the read and the write.
unfoldable pub grant_purpose : GrantRequest → Tables → Result (PurposeGrant × Tables)
unfolding grant_purpose_on
grant_purpose r s = grant_purpose_on (find_grant r.user_id (strip r.purpose) s.grants) r s
