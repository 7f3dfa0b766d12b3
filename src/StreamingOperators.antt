-- ===== src/StreamingOperators.antt =====
-- The operators of streaming_operators/.
pub mod Select
