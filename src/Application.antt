-- ===== src/Application.antt =====
-- The module src/modules/applications: applications, their draft schemas and their versions.
pub mod Types
pub mod Service
