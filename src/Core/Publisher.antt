-- ===== src/Core/Publisher.antt =====
-- core/publisher.py: the single writer. `Gates` refuses, `Commit` applies, and here they are put
-- together inside the savepoint; the theorems are in the other children.
pub mod Gates
pub mod Commit
pub mod Publish
pub mod Inversion
pub mod Atomicity
pub mod Revisions
pub mod Guards
pub mod Moves
pub mod Folds
