-- ===== src/Preview.antt =====
-- The AI previews of a canvas: src/modules/canvas/services/canvas-ai-*.ts and canvas-snapshot-serializer.
pub mod Coordinator
pub mod Suggestions
