-- ===== src/Export.antt =====
-- The export pipeline (openvtld/internal/export).
pub mod Chunker
pub mod Resume
