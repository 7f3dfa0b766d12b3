-- ===== src/Expressions.antt =====
-- The code under expressions/.
pub mod Scalar
pub mod Comparison
pub mod Predicate
pub mod WindowAggregation
