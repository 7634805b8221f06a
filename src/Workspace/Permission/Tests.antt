-- ===== src/Workspace/Permission/Tests.antt =====
-- An editor, and the theorems at concrete inputs.
use manbaa_backend.Base.{◌≡◌, refl, true, [], ◌∷◌, some}
use manbaa_backend.Exec.{ok}
use manbaa_backend.Repository.Assoc.{assoc}
use manbaa_backend.Workspace.Permission.{
  editor, active, edit_roles, WorkspaceMember, OrganizationMember, Env, can_edit, require_editor,
}
use manbaa_backend.Workspace.Permission.Access.{IsMember, require_editor_lem}

abbrev env : Env
env = record { members = assoc (λ m. m.id); organization_members = assoc (λ o. o.id) }

abbrev member : WorkspaceMember
member = record {
  id = "m1";
  organization_id = "o1";
  workspace_id = "w1";
  user_id = "u1";
  role = editor;
  status = active;
}

abbrev in_organization : OrganizationMember
in_organization = record { id = "k1"; organization_id = "o1"; user_id = "u1"; active = true }

let_in : require_editor env (member ∷ []) (in_organization ∷ []) "u1" "w1" "o1" ≡ ok member
unfolding require_editor
let_in = refl

require_editor_lem_example :
    IsMember env (member ∷ []) "u1" "w1" edit_roles member
    × (member.organization_id ≡ "o1")
    × (can_edit env (member ∷ []) "u1" "w1" ≡ true)
    × (o : OrganizationMember) × (env.organization_members.get
          (env.organization_members.key o)
          (in_organization ∷ [])
        ≡ some o)
    × (o.user_id ≡ member.user_id)
    × (o.organization_id ≡ member.organization_id)
    × (o.active ≡ true)
require_editor_lem_example =
    require_editor_lem env (member ∷ []) "u1" "w1" (in_organization ∷ []) "o1" member let_in
