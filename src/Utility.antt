-- ===== src/Utility.antt =====
-- The code under utility/.
pub mod Word
pub mod BitVector
pub mod Dag
pub mod StringUtil
pub mod NameMap
pub mod PtrVector
