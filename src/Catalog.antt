-- ===== src/Catalog.antt =====
-- The code under catalog/.
pub mod RelationSchema
pub mod Database
