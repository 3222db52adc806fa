-- ===== src/Core.antt =====
-- core/: the rows of the store, the proposals, and the Publisher that commits them.
pub mod Rows
pub mod Proposal
pub mod Store
pub mod Repository
pub mod Publisher
