-- ===== src/Core/Repository/Revision.antt =====
-- core/repository.py: consent and the state revision, with its compare-and-swap.
use mirror_memory.Prelude.{
  ℕ, ◌+◌, String, Bool, true, Option, none, some, ◌≡◌, ap, ◌==◌, if◌then◌else◌, arith,
}
use mirror_memory.Prelude.Text.{str_eq}
use mirror_memory.Core.Rows.{MemoryPreference}
use mirror_memory.Core.Store.{Store}

-- A missing row counts as enabled.
unfoldable pub is_memory_enabled : Store → String → Bool
is_memory_enabled s user = elim (s.preferences user) [ none ↦ true | some p ↦ p.enabled ]

revision_of : Option MemoryPreference → ℕ
revision_of none = 1
revision_of (some p) = p.state_revision

unfoldable pub get_state_revision : Store → String → ℕ
unfolding revision_of
get_state_revision s user = revision_of (s.preferences user)

put_preference : String → MemoryPreference → Store → Store
put_preference user row s = record s {
  preferences = λ u. if str_eq u user then some row else s.preferences u;
}

-- A new row has the columns' defaults.
preference_row : String → Option MemoryPreference → MemoryPreference
preference_row user none = record { user_id = user; enabled = true; state_revision = 1 }
preference_row user (some p) = p

-- `UPDATE … WHERE revision = expected RETURNING`, after the row has been ensured: the new revision,
-- or `none`, and the store either way.
unfoldable pub cas_bump_state_revision : Store → String → ℕ → Option ℕ × Store
unfolding put_preference preference_row
cas_bump_state_revision s user expected =
    let row = preference_row user (s.preferences user) in
    if row.state_revision == expected
    then (
      some (row.state_revision + 1),
      put_preference user (record row { state_revision = row.state_revision + 1 }) s,
    )
    else (none, put_preference user row s)

module _ (s : Store) (user : String) (expected : ℕ) where
  -- The swap lands exactly when the live revision is the expected one.
  cas-lands :
      get_state_revision s user ≡ expected
      → (cas_bump_state_revision s user expected).0 ≡ some (expected + 1)
  unfolding cas_bump_state_revision get_state_revision
  cas-lands h = ground arith

  pub cas-inv :
      {r : ℕ}
      → (cas_bump_state_revision s user expected).0 ≡ some r
      → (get_state_revision s user ≡ expected) × (r ≡ expected + 1)
  unfolding cas_bump_state_revision get_state_revision
  cas-inv h = ground arith

  -- After a swap that landed the user's revision is one higher, and no other user's has moved.
  pub cas-revision :
      (u : String)
      → get_state_revision s user ≡ expected
      → get_state_revision (cas_bump_state_revision s user expected).1 u
        ≡ (if str_eq u user then expected + 1 else get_state_revision s u)
  unfolding cas_bump_state_revision get_state_revision
  cas-revision u h = ground arith

-- The revision is read from the preferences alone.
pub get_state_revision-cong :
    (s t : Store) (u : String)
    → s.preferences ≡ t.preferences
    → get_state_revision s u ≡ get_state_revision t u
unfolding get_state_revision
get_state_revision-cong s t u e = ap (λ (f : String → Option MemoryPreference). revision_of (f u)) e
