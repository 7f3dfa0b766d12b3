-- ===== src/Tests.antt =====
-- Runs of the definitions on small inputs, and the theorems applied to them.
mod Vectors
mod Sequences
mod Predicates
mod Streams
mod Windows
mod Threads
mod Dates
mod Dags
mod Catalogs
mod ValueTypes
