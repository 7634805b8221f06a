-- ===== src/Jobs.antt =====
-- The tasks of the AI workers (src/modules/jobs).
pub mod Types
pub mod Rows
pub mod Edges
pub mod Events
mod Tests
