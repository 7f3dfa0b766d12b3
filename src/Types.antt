-- ===== src/Types.antt =====
-- The code under types/.
pub mod Values
pub mod Accessor
pub mod Comparator
pub mod DateOperators
pub mod ValueType
pub mod StringCoercion
