-- ===== src/Access.antt =====
-- core/authorization.py and core/models.py: the rows of purpose authorization, and what its calls
-- return or raise.
pub mod Authorize
pub mod Grants
pub mod Revocation
pub mod Visibility
mod Laws
mod Issuing
mod Ledger
mod Vocabulary
pub mod Permission
pub mod Effect
pub mod History
pub mod Agreement
pub mod Shown
pub mod Clause
use mirror_memory.Prelude.{
  ℕ, String, Bool, Option, none, some, List, [], ◌∷◌, ◌&&◌, ◌≡◌, ap, if◌then◌else◌,
}
use mirror_memory.Prelude.Text.{str_eq}
use mirror_memory.Core.Rows.{MemoryPreference}

-- `allowed_operations` is the list that the column's JSON text holds.
pub record PurposeGrant : Type 0 where
  pub user_id : String
  pub purpose : String
  pub version : ℕ
  pub allowed_operations : List String
  pub issuer : String
  pub expires_at : Option ℕ
  pub revoked_at : Option ℕ

pub data GrantAction : Type 0 where
  granted updated revoked invoked : GrantAction

pub record PurposeGrantEvent : Type 0 where
  pub user_id : String
  pub purpose : String
  pub action : GrantAction
  pub operation : String
  pub decision : String
  pub old_version : Option ℕ
  pub new_version : Option ℕ
  pub actor : String
  pub reason : String

pub record ConsentGrant : Type 0 where
  pub user_id : String
  pub feature : String
  pub granted : Bool

-- The tables that authorization reads and writes, of one tenant.
pub record Tables : Type 0 where
  pub grants : List PurposeGrant
  pub grant_events : List PurposeGrantEvent
  pub consents : List ConsentGrant
  pub preferences : List MemoryPreference

pub data Failure : Type 0 where
  unknown_operation stale_grant_version purpose_denied value_error key_error : Failure
  runtime_error tenant_context_missing : Failure

pub data Result {ℓ} (A : Type ℓ) : Type ℓ where
  returned : A → Result A
  raised : Failure → Result A

-- The primary key of a grant, below the tenant's.
abbrev pub same_key : String → String → PurposeGrant → Bool
same_key user purpose g = str_eq g.user_id user && str_eq g.purpose purpose

-- `session.query(PurposeGrant).filter(...).first()`
unfoldable pub find_grant : String → String → List PurposeGrant → Option PurposeGrant
find_grant user purpose [] = none
find_grant user purpose (g ∷ gs) =
    if same_key user purpose g then some g else find_grant user purpose gs

-- The value that a call returns, or a default.
abbrev or_default {ℓ} : {A : Type ℓ} → Result A → A → A
or_default (returned a) d = a
or_default (raised e) d = d

pub returned_eq {ℓ} : {A : Type ℓ} {x y : A} → returned x ≡ returned y → x ≡ y
returned_eq {x = x} q = ap (λ r. or_default r x) q
