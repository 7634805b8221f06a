-- ===== src/Workspace/Permission/Access.antt =====
-- Who gets in.
use manbaa_backend.Base.{
  String, ◌≡◌, refl, true, false, ◌&&◌, some, List, arith, eq_iff, subst, Option-cases, inl, inr,
  ◌⊎◌, ◌==◌,
}
use manbaa_backend.Exec.{ok, err, forbidden}
use manbaa_backend.Workspace.Permission.{
  WorkspaceRole, active, WorkspaceMember, OrganizationMember, role_in, fits, read_roles, edit_roles,
  comment_roles, manage_roles, Env, require_role, can, can_read, can_edit, can_comment,
  can_manage_members, can_approve, can_export, require_editor,
}

module _ (env : Env) (store : env.members.Store) (user_id workspace_id : String) where
  open env use {members}

  -- A stored row makes the user an active member of the workspace in one of the roles.
  pub record IsMember (roles : List WorkspaceRole) (m : WorkspaceMember) : Type 0 where
    pub stored : members.get (members.key m) store ≡ some m
    pub user : m.user_id ≡ user_id
    pub workspace : m.workspace_id ≡ workspace_id
    pub standing : m.status ≡ active
    pub role : role_in roles m.role ≡ true

  fits-IsMember :
      (roles : List WorkspaceRole) (m : WorkspaceMember)
      → fits user_id workspace_id roles m ≡ true
      → members.get (members.key m) store ≡ some m
      → IsMember roles m
  fits-IsMember roles m h there = record {
    stored = there;
    user = ground (arith, eq_iff m.user_id user_id);
    workspace = ground (arith, eq_iff m.workspace_id workspace_id);
    standing = ground arith;
    role = ground arith;
  }

  IsMember-fits :
      (roles : List WorkspaceRole) (m : WorkspaceMember)
      → IsMember roles m
      → fits user_id workspace_id roles m ≡ true
  IsMember-fits roles m i = ground (
    arith,
    i.user,
    i.workspace,
    i.standing,
    i.role,
    eq_iff m.user_id user_id,
    eq_iff m.workspace_id workspace_id,
  )

  -- `requireRole` answers with a stored active member of the workspace in one of the roles, and
  -- refuses only if there is no such row.
  pub require_role_lem :
      (roles : List WorkspaceRole)
      → ((m : WorkspaceMember) × (require_role env store user_id workspace_id roles ≡ ok m)
          × IsMember roles m)
        ⊎ ((require_role env store user_id workspace_id roles
              ≡ err (forbidden "Workspace access denied"))
            × (can env store user_id workspace_id roles ≡ false)
            × ((m : WorkspaceMember) → IsMember roles m → ⊥))
  unfolding require_role can
  require_role_lem roles =
      elim (Option-cases (members.find_where (fits user_id workspace_id roles) store)) [
        | inr (m, found) ↦
            let (fit, stored) =
              members.find_where_sound (fits user_id workspace_id roles) store m found in
            inl (m, ground arith, fits-IsMember roles m fit stored)
        | inl none_found ↦ inr (
          ground arith,
          ground arith,
          λ m i.
              let missed =
                members.find_where_complete (fits user_id workspace_id roles) store (members.key m)
                  m none_found i.stored in
              let fit = IsMember-fits roles m i in ground arith,
        )
      ]

  -- The tests agree with the rows: a test says yes exactly if some stored row makes the user an
  -- active member in one of its roles.
  can_iff :
      (roles : List WorkspaceRole)
      → (can env store user_id workspace_id roles ≡ true)
      → (m : WorkspaceMember) × IsMember roles m
  unfolding can
  can_iff roles h =
      elim (Option-cases (members.find_where (fits user_id workspace_id roles) store)) [
        | inr (m, found) ↦
            let (fit, stored) =
              members.find_where_sound (fits user_id workspace_id roles) store m found in
            (m, fits-IsMember roles m fit stored)
        | inl none_found ↦ ground arith
      ]

  granted :
      (roles : List WorkspaceRole) (m : WorkspaceMember)
      → IsMember roles m
      → can env store user_id workspace_id roles ≡ true
  unfolding can
  granted roles m i =
      elim (Option-cases (members.find_where (fits user_id workspace_id roles) store)) [
        | inr (m', found) ↦ ground arith
        | inl none_found ↦
            let missed =
              members.find_where_complete (fits user_id workspace_id roles) store (members.key m) m
                none_found i.stored in
            let fit = IsMember-fits roles m i in ground arith
      ]

  widen :
      (roles more : List WorkspaceRole)
      → ((r : WorkspaceRole) → role_in roles r ≡ true → role_in more r ≡ true)
      → can env store user_id workspace_id roles ≡ true
      → can env store user_id workspace_id more ≡ true
  widen roles more sub h =
      let (m, i) = can_iff roles h in
      granted more m (record {
        stored = i.stored;
        user = i.user;
        workspace = i.workspace;
        standing = i.standing;
        role = sub m.role i.role;
      })

  manage_edit : (r : WorkspaceRole) → role_in manage_roles r ≡ true → role_in edit_roles r ≡ true
  manage_edit r h = ground arith

  edit_comment : (r : WorkspaceRole) → role_in edit_roles r ≡ true → role_in comment_roles r ≡ true
  edit_comment r h = ground arith

  comment_read : (r : WorkspaceRole) → role_in comment_roles r ≡ true → role_in read_roles r ≡ true
  comment_read r h = ground arith

  -- Who may manage members may edit, who may edit may comment, and who may comment may read; to
  -- approve and to export is to edit.
  pub can_chain :
      (can_manage_members env store user_id workspace_id ≡ true
        → can_edit env store user_id workspace_id ≡ true)
      × (can_edit env store user_id workspace_id ≡ true
          → can_comment env store user_id workspace_id ≡ true)
      × (can_comment env store user_id workspace_id ≡ true
          → can_read env store user_id workspace_id ≡ true)
      × (can_approve env store user_id workspace_id ≡ can_edit env store user_id workspace_id)
      × (can_export env store user_id workspace_id ≡ can_edit env store user_id workspace_id)
  unfolding can_manage_members can_edit can_comment can_read can_approve can_export
  can_chain = (
    widen manage_roles edit_roles manage_edit,
    widen edit_roles comment_roles edit_comment,
    widen comment_roles read_roles comment_read,
    refl,
    refl,
  )

  -- An editor that is let in is a stored active member with an editing role, in the organisation that
  -- was asked for, of which the user is an active member too.
  pub require_editor_lem :
      (organizations : env.organization_members.Store) (organization_id : String)
      (m : WorkspaceMember)
      → require_editor env store organizations user_id workspace_id organization_id ≡ ok m
      → IsMember edit_roles m
        × (m.organization_id ≡ organization_id)
        × (can_edit env store user_id workspace_id ≡ true)
        × (o : OrganizationMember) × (env.organization_members.get
              (env.organization_members.key o)
              organizations
            ≡ some o)
        × (o.user_id ≡ user_id)
        × (o.organization_id ≡ organization_id)
        × (o.active ≡ true)
  unfolding require_editor can_edit
  require_editor_lem organizations organization_id m h =
      let in_org = λ (o : OrganizationMember).
        o.user_id == user_id && (o.organization_id == organization_id && o.active) in
      let is_editor = λ (x : WorkspaceMember).
        fits user_id workspace_id edit_roles x && x.organization_id == organization_id in
      elim (Option-cases (env.organization_members.find_where in_org organizations)) [
        | inl missing ↦ ground arith
        | inr (o, found) ↦ elim (Option-cases (members.find_where is_editor store)) [
          | inl missing ↦ ground arith
          | inr (x, there) ↦
              let same : x ≡ m = ground arith in
              let (fit, stored) =
                env.organization_members.find_where_sound in_org organizations o found in
              let (fit', stored') = members.find_where_sound is_editor store x there in
              let member : IsMember edit_roles x =
                fits-IsMember edit_roles x (ground arith) stored' in
              (
                subst (IsMember edit_roles) same member,
                ground (arith, eq_iff x.organization_id organization_id),
                granted edit_roles x member,
                o,
                stored,
                ground (arith, eq_iff o.user_id user_id),
                ground (arith, eq_iff o.organization_id organization_id),
                ground arith,
              )
        ]
      ]
