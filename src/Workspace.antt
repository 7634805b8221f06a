-- ===== src/Workspace.antt =====
-- The permissions of src/modules/workspaces.
pub mod Permission
