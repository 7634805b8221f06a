-- ===== src/Canvas.antt =====
-- The module src/modules/canvas: a canvas of a workflow, its objects and its log of operations.
pub mod Types
pub mod Service
