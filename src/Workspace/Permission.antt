-- ===== src/Workspace/Permission.antt =====
-- src/modules/workspaces/workspace-permission.service.ts.
pub mod Roles
pub mod Access
mod Tests
use manbaa_backend.Base.{
  ℕ, String, ◌≡◌, Bool, true, false, not, ◌&&◌, Option, none, some, List, [], ◌∷◌, any, is_some,
  ◌==◌, eqb,
}
use manbaa_backend.Exec.{Result, ok, err, forbidden}
use manbaa_backend.Repository.{Repository}

-- `WorkspaceRole` and `WorkspaceMemberStatus`
pub data WorkspaceRole : Type 0 where
  owner admin editor commenter viewer : WorkspaceRole

pub data WorkspaceMemberStatus : Type 0 where
  active suspended removed : WorkspaceMemberStatus

-- entities/workspace-member.entity.ts, the columns that the service asks for.
pub record WorkspaceMember : Type 0 where
  pub id : String
  pub organization_id : String
  pub workspace_id : String
  pub user_id : String
  pub role : WorkspaceRole
  pub status : WorkspaceMemberStatus

-- The columns of `OrganizationMember` that the service asks for.
pub record OrganizationMember : Type 0 where
  pub id : String
  pub organization_id : String
  pub user_id : String
  pub active : Bool

abbrev pub role_index : WorkspaceRole → ℕ
role_index owner = 0
role_index admin = 1
role_index editor = 2
role_index commenter = 3
role_index viewer = 4

-- `role: In(roles)`
abbrev pub role_in : List WorkspaceRole → WorkspaceRole → Bool
role_in roles role = any (λ r. eqb (role_index r) (role_index role)) roles

abbrev pub is_active : WorkspaceMemberStatus → Bool
is_active active = true
is_active _ = false

-- `READ`, `EDIT` and `COMMENT`, and the list of `canManageMembers`
abbrev pub read_roles : List WorkspaceRole
read_roles = owner ∷ admin ∷ editor ∷ commenter ∷ viewer ∷ []

abbrev pub edit_roles : List WorkspaceRole
edit_roles = owner ∷ admin ∷ editor ∷ []

abbrev pub comment_roles : List WorkspaceRole
comment_roles = owner ∷ admin ∷ editor ∷ commenter ∷ []

abbrev pub manage_roles : List WorkspaceRole
manage_roles = owner ∷ admin ∷ []

pub record Env : Type 1 where
  pub members : Repository WorkspaceMember
  pub organization_members : Repository OrganizationMember

-- The `where` clause that `requireRole` and `can` share.
abbrev pub fits : String → String → List WorkspaceRole → WorkspaceMember → Bool
fits user_id workspace_id roles m =
    m.user_id == user_id
    && (m.workspace_id == workspace_id && (is_active m.status && role_in roles m.role))

module _ (env : Env) (members : env.members.Store) where
  unfoldable pub require_role : String → String → List WorkspaceRole → Result WorkspaceMember
  require_role user_id workspace_id roles =
      elim (env.members.find_where (fits user_id workspace_id roles) members) [
        | none ↦ err (forbidden "Workspace access denied")
        | some m ↦ ok m
      ]

  unfoldable pub require_member : String → String → Result WorkspaceMember
  require_member user_id workspace_id = require_role user_id workspace_id read_roles

  -- `exist`
  unfoldable pub can : String → String → List WorkspaceRole → Bool
  can user_id workspace_id roles =
      is_some (env.members.find_where (fits user_id workspace_id roles) members)

  unfoldable pub can_read : String → String → Bool
  can_read user_id workspace_id = can user_id workspace_id read_roles

  unfoldable pub can_edit : String → String → Bool
  can_edit user_id workspace_id = can user_id workspace_id edit_roles

  unfoldable pub can_comment : String → String → Bool
  can_comment user_id workspace_id = can user_id workspace_id comment_roles

  unfoldable pub can_manage_members : String → String → Bool
  can_manage_members user_id workspace_id = can user_id workspace_id manage_roles

  unfoldable pub can_approve : String → String → Bool
  can_approve user_id workspace_id = can user_id workspace_id edit_roles

  unfoldable pub can_export : String → String → Bool
  can_export user_id workspace_id = can user_id workspace_id edit_roles

  unfoldable pub require_editor :
      env.organization_members.Store → String → String → String → Result WorkspaceMember
  require_editor organization_members user_id workspace_id organization_id =
      let in_organization =
        env.organization_members.find_where
          (λ o. o.user_id == user_id && (o.organization_id == organization_id && o.active))
          organization_members in
      let member =
        env.members.find_where
          (λ m. fits user_id workspace_id edit_roles m && m.organization_id == organization_id)
          members in
      elim in_organization [
        | none ↦ err (forbidden "Workspace access denied")
        | some o ↦ elim member [ none ↦ err (forbidden "Workspace access denied") | some m ↦ ok m ]
      ]
