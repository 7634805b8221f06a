-- ===== src/Rules.antt =====
-- The module src/modules/rules: business rules, their conflicts and their versions.
pub mod Types
pub mod Conflict
pub mod Service
