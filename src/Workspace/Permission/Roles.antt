-- ===== src/Workspace/Permission/Roles.antt =====
-- Which role may do what.
use manbaa_backend.Base.{◌≤◌, ◌≡◌, ◌↔◌, true, arith}
use manbaa_backend.Workspace.Permission.{
  WorkspaceRole, owner, admin, editor, commenter, viewer, role_index, role_in, read_roles,
  edit_roles, comment_roles, manage_roles,
}

-- The four lists are the top two, three, four and five of the roles, in the order owner, admin,
-- editor, commenter, viewer.
pub roles_nested :
    (role : WorkspaceRole)
    → ((role_in manage_roles role ≡ true) ↔ (role_index role ≤ 1))
      × ((role_in edit_roles role ≡ true) ↔ (role_index role ≤ 2))
      × ((role_in comment_roles role ≡ true) ↔ (role_index role ≤ 3))
      × (role_in read_roles role ≡ true)
roles_nested owner = ground arith
roles_nested admin = ground arith
roles_nested editor = ground arith
roles_nested commenter = ground arith
roles_nested viewer = ground arith
