-- ===== src/Core/Repository.antt =====
-- core/repository.py: the parts of the single writer's repository that are modelled.
pub mod Revision
pub mod Tiers
pub mod Provenance
pub mod Verification
pub mod Compaction
