-- ===== src/Memory/Temporal/Intervals.antt =====
-- What the relation of two windows says of the instants in them.
use mirror_memory.Prelude.{ℕ, ◌<◌, true, false, Option, none, some, ◌≡◌, ◌↔◌, ◌⊎◌, max, arith}
use mirror_memory.Memory.Temporal.{
  TemporalWindow, follows, precedes, overlaps, contains, same, is_current, compare_windows,
}

-- A window that is not empty.
abbrev pub IsProper : TemporalWindow → Type 0
IsProper w = elim w.valid_from [
  | none ↦ Unit
  | some from ↦ elim w.valid_to [ none ↦ Unit | some to ↦ from < to ]
]

module _ (new old : TemporalWindow) where
  -- Where the new window follows or precedes the old one, no instant lies in both.
  compare_windows-disjoint :
      (at : ℕ)
      → (compare_windows new old ≡ follows) ⊎ (compare_windows new old ≡ precedes)
      → is_current new at ≡ true
      → is_current old at ≡ false
  unfolding compare_windows is_current
  compare_windows-disjoint at h c = ground (arith, h, c)

  start : Option ℕ → ℕ
  start none = 0
  start (some t) = t

  -- Where it overlaps, contains or equals the old one, and neither is empty, some instant lies in both.
  compare_windows-meet :
      IsProper new
      → IsProper old
      → (compare_windows new old ≡ overlaps)
        ⊎ ((compare_windows new old ≡ contains) ⊎ (compare_windows new old ≡ same))
      → (at : ℕ) × (is_current new at ≡ true) × (is_current old at ≡ true)
  unfolding compare_windows is_current start
  compare_windows-meet p q h = (
    max (start new.valid_from) (start old.valid_from),
    ground (arith, p, q, h),
    ground (arith, p, q, h),
  )

  -- Following is the mirror of preceding, for windows that are not empty.
  compare_windows-mirror :
      IsProper new
      → IsProper old
      → (compare_windows new old ≡ follows) ↔ (compare_windows old new ≡ precedes)
  unfolding compare_windows
  compare_windows-mirror p q = (λ h. ground (arith, p, q, h), λ h. ground (arith, p, q, h))

-- A new window that lies strictly inside the old one is reported as overlapping it, not as a
-- containment, which is only reported where the new window contains the old one.
pub compare_windows-inside :
    (a b c d : ℕ)
    → c < a
    → a < b
    → b < d
    → (compare_windows
          (record { valid_from = some a; valid_to = some b })
          (record { valid_from = some c; valid_to = some d })
        ≡ overlaps)
      × (compare_windows
            (record { valid_from = some c; valid_to = some d })
            (record { valid_from = some a; valid_to = some b })
          ≡ contains)
unfolding compare_windows
compare_windows-inside a b c d h k l = (ground arith, ground arith)
