-- ===== src/Worker/Versions.antt =====
-- worker/snapshot.py: the live snapshot of a user.
use mirror_memory.Prelude.{ℕ, ◌<◌, String, true, ◌≡◌}
use mirror_memory.Worker.Snapshot.{Snapshot, of_user}

module _ (user : String) where
  abbrev Older : ℕ → Snapshot → Type 0
  Older n s = of_user user s ≡ true → s.version < n
