-- ===== src/Memory.antt =====
-- memory/: what a new claim is to the beliefs that are there, and what should happen.
pub mod Temporal
pub mod Lifecycle
pub mod Relation
pub mod Polarity
pub mod Resolution
pub mod Identity
