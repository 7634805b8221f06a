-- ===== src/Schema.antt =====
-- src/modules/applications/schema-validator.ts.
pub mod Types
pub mod Scan
pub mod Nodes
pub mod Validate
mod Tests
