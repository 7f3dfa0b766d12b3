-- ===== src/Threading.antt =====
-- The code under threading/.
pub mod SpinSharedMutex
