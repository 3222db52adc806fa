-- ===== src/Metabolism.antt =====
-- metabolism/: storage tiers, retention, protection, heat, compaction and the daily planner.
pub mod Tiers
pub mod Retention
pub mod Protection
pub mod Heat
pub mod Eligibility
pub mod Compact
pub mod Planner
