-- ===== src/Common.antt =====
-- The code under common/.
pub mod TupleIdSequence
