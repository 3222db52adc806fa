-- ===== src/Examples.antt =====
-- Runs of the model on small inputs.
mod Floats
mod Tables
mod Publishing
mod Metabolizing
mod Resolving
mod Cycling
mod Granting
mod Deleting
mod Working
