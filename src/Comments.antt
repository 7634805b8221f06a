-- ===== src/Comments.antt =====
-- The module src/modules/comments: threads of comments, and the approval of elements.
pub mod Types
pub mod Service
