-- ===== src/Comments/Service.antt =====
-- src/modules/comments/services/comments.service.ts: the methods that change a comment or an element.
pub mod Threads
pub mod Commands
mod Refusals
mod Approval
mod Tests
use manbaa_backend.Base.{
  ℕ, String, ◌≡◌, Bool, true, false, not, ◌&&◌, ◌||◌, Option, none, some, List, [], ◌∷◌, ◌++◌, ◌==◌,
  any, map, select, length, eqb, if◌then◌else◌,
}
use manbaa_backend.Exec.{
  Failure, Result, ok, err, Exec, not_found, forbidden, unauthorized, type_error, ◌>>=◌, ◌>>◌, pure,
  raise, gets, require, modify, guard, lift,
}
use manbaa_backend.Repository.{Repository, find_one}
use manbaa_backend.Session.Types.{RequestUser}
use manbaa_backend.Comments.Types.{
  Comment, CreateCommentDto, Workflow, User, Element, Elements, no_elements, listed, not_listed,
  WorkflowVersion, CommentEvent, Effect,
}

-- The tables; the query for the version of a workflow with the highest number; `trim`; and
-- `Math.round((a / b) * 100)` of the language.
pub record Env : Type 1 where
  pub comments : Repository Comment
  pub comment_key : (c : Comment) → comments.key c ≡ c.id
  pub workflows : Repository Workflow
  pub users : Repository User
  pub versions : Repository WorkflowVersion
  pub latest : String → versions.Store → Option WorkflowVersion
  pub trim : String → String
  pub percent : ℕ → ℕ → ℕ

abbrev pub can_user_create_comment : String → Bool
can_user_create_comment role =
    role == "reviewer"
    || (role == "business_analyst" || (role == "process_owner" || role == "admin"))

abbrev approve : String → ℕ → Element → Element
approve user_id now el = record el {
  approved = true;
  approved_by = some user_id;
  approved_at = some now;
}

-- The elements of the column where the service calls `map` or `filter` on it.
abbrev pub elements_of : Elements → Result (List Element)
elements_of (listed els) = ok els
elements_of no_elements = err (type_error "Cannot read properties of null")
elements_of (not_listed j) = err (type_error "is not a function")

-- `elementIds ?? elements.filter(…).map(…)`
abbrev pub targets : Option (List String) → List Element → List String
targets (some ids) els = ids
targets none els = map (λ (el : Element). el.id) (select (λ (el : Element). not el.approved) els)

abbrev pub includes : List String → String → Bool
includes ids id = any (λ i. i == id) ids

abbrev pub approve_all : List String → String → ℕ → List Element → List Element
approve_all ids user_id now els =
    map (λ (el : Element). if includes ids el.id then approve user_id now el else el) els

pub record Progress : Type 0 where
  pub approved_count : ℕ
  pub total_count : ℕ
  pub completion_pct : ℕ

module _ (env : Env) where
  pub record State : Type 0 where
    pub comments : env.comments.Store
    pub workflows : env.workflows.Store
    pub users : env.users.Store
    pub versions : env.versions.Store
    pub effects : List Effect

  abbrev pub emit : Effect → Exec State Unit
  emit e = modify λ s. record s { effects = s.effects ++ e ∷ [] }

  abbrev pub save_comment : Comment → Exec State Unit
  save_comment c = modify λ s. record s { comments = env.comments.save c s.comments }

  abbrev pub find_workflow : String → String → State → Option Workflow
  find_workflow id org_id s = find_one env.workflows id (λ w. w.org_id == org_id) s.workflows

  pub find_workflow_or_throw : String → String → Failure → Exec State Workflow
  find_workflow_or_throw id org_id failure = do
    found ← gets (find_workflow id org_id)
    require found failure

  pub find_comment_with_workflow : String → String → Exec State Comment
  unfolding find_workflow_or_throw
  find_comment_with_workflow comment_id org_id = do
    found ← gets (λ s. env.comments.get comment_id s.comments)
    comment ← require found (not_found "Comment not found")
    find_workflow_or_throw comment.workflow_id org_id
        (not_found "Comment not found in organization")
    pure comment

  abbrev pub comment_of :
      String → String → Option String → String → String → String → Option String → Comment
  comment_of uuid workflow_id element_id author_id kind content parent_id = record {
    id = uuid;
    workflow_id = workflow_id;
    element_id = element_id;
    author_id = author_id;
    kind = kind;
    content = content;
    resolved = false;
    resolved_at = none;
    resolved_by = none;
    resolution_note = none;
    parent_id = parent_id;
    assigned_to = none;
  }

  unfoldable pub create_comment :
      String → String → CreateCommentDto → RequestUser → Exec State Comment
  create_comment uuid workflow_id dto caller = do
    find_workflow_or_throw workflow_id caller.org_id (not_found "Workflow not found")
    guard (can_user_create_comment caller.role) (unauthorized "User role cannot create comments")
    let comment = comment_of uuid workflow_id dto.element_id caller.id dto.kind dto.content none
    save_comment comment
    emit (Effect.audit workflow_id caller.id CommentEvent.comment_created dto.element_id)
    pure comment

  unfoldable pub update_comment : String → String → RequestUser → Exec State Comment
  update_comment comment_id content caller = do
    comment ← find_comment_with_workflow comment_id caller.org_id
    guard (comment.author_id == caller.id || caller.role == "admin")
        (forbidden "Only comment author or admin can edit")
    let saved : Comment = record comment { content = content }
    save_comment saved
    emit
        (Effect.audit comment.workflow_id caller.id CommentEvent.comment_updated comment.element_id)
    pure saved

  unfoldable pub delete_comment : String → ℕ → RequestUser → Exec State Unit
  delete_comment comment_id now caller = do
    comment ← find_comment_with_workflow comment_id caller.org_id
    guard (comment.author_id == caller.id || caller.role == "admin")
        (forbidden "Only comment author or admin can delete")
    save_comment (record comment {
      resolved = true;
      resolved_at = some now;
      resolved_by = some caller.id;
      resolution_note = some "deleted";
    })
    emit
        (Effect.audit comment.workflow_id caller.id CommentEvent.comment_deleted comment.element_id)

  unfoldable pub create_reply : String → String → String → RequestUser → Exec State Comment
  create_reply uuid comment_id content caller = do
    parent ← find_comment_with_workflow comment_id caller.org_id
    guard (can_user_create_comment caller.role) (unauthorized "User role cannot create comments")
    let comment =
        comment_of uuid parent.workflow_id parent.element_id caller.id parent.kind content
          (some parent.id)
    save_comment comment
    emit (
        Effect.audit parent.workflow_id caller.id CommentEvent.comment_reply_created
          parent.element_id)
    pure comment

  unfoldable pub resolve_comment : String → String → ℕ → RequestUser → Exec State Comment
  resolve_comment comment_id note now caller = do
    comment ← find_comment_with_workflow comment_id caller.org_id
    guard (not (note == "" || env.trim note == "")) (forbidden "Resolution note is required")
    let saved : Comment = record comment {
      resolved = true;
      resolved_at = some now;
      resolved_by = some caller.id;
      resolution_note = some note;
    }
    save_comment saved
    emit (
        Effect.audit comment.workflow_id caller.id CommentEvent.comment_resolved comment.element_id)
    pure saved

  unfoldable pub assign_comment : String → String → RequestUser → Exec State Comment
  assign_comment comment_id assignee_id caller = do
    comment ← find_comment_with_workflow comment_id caller.org_id
    guard
        (comment.author_id == caller.id
          || (caller.role == "admin" || caller.role == "process_owner"))
        (forbidden "Only comment author, admin, or process owner can assign")
    assignee ← gets (λ s. find_one env.users assignee_id (λ u. u.org_id == caller.org_id) s.users)
    require assignee (not_found "Assignee not found in organization")
    let saved : Comment = record comment { assigned_to = some assignee_id }
    save_comment saved
    emit (
        Effect.audit comment.workflow_id caller.id CommentEvent.comment_assigned comment.element_id)
    emit (Effect.review_request assignee_id comment_id comment.workflow_id)
    pure saved

  abbrev pub progress_over : List Element → Progress
  progress_over els =
      let current = select (λ (el : Element). not el.archived) els in
      let total = length current in
      let approved = length (select (λ (el : Element). el.approved) current) in
      record {
        approved_count = approved;
        total_count = total;
        completion_pct = if eqb total 0 then 0 else env.percent approved total;
      }

  unfoldable pub get_review_progress : String → String → Exec State Progress
  get_review_progress workflow_id org_id = do
    find_workflow_or_throw workflow_id org_id (not_found "Workflow not found")
    latest ← gets (λ s. env.latest workflow_id s.versions)
    els ← lift (elim latest [
      | none ↦ ok []
      | some v ↦ elim v.elements_json [ no_elements ↦ ok [] | x ↦ elements_of x ]
    ])
    pure (progress_over els)

  -- The `UPDATE` of the version that was read.
  abbrev pub save_elements : WorkflowVersion → List Element → Exec State Unit
  save_elements v els = modify λ s. record s {
    versions = env.versions.save (record v { elements_json = listed els }) s.versions;
  }

  unfoldable pub approve_element : String → String → ℕ → RequestUser → Exec State Unit
  approve_element workflow_id element_id now caller = do
    find_workflow_or_throw workflow_id caller.org_id (not_found "Workflow not found")
    latest ← gets (λ s. env.latest workflow_id s.versions)
    v ← require latest (not_found "No version found for workflow")
    els ← lift (elements_of v.elements_json)
    save_elements v (approve_all (element_id ∷ []) caller.id now els)
    emit (Effect.audit workflow_id caller.id CommentEvent.element_approved (some element_id))

  unfoldable pub bulk_approve_elements :
      String → Option (List String) → ℕ → RequestUser → Exec State ℕ
  bulk_approve_elements workflow_id ids now caller = do
    find_workflow_or_throw workflow_id caller.org_id (not_found "Workflow not found")
    guard (caller.role == "admin" || caller.role == "process_owner")
        (forbidden "Only Admin or Process Owner can bulk approve")
    latest ← gets (λ s. env.latest workflow_id s.versions)
    v ← require latest (not_found "No version found for workflow")
    els ← lift (elements_of v.elements_json)
    let wanted = targets ids els
    save_elements v (approve_all wanted caller.id now els)
    emit (Effect.audit workflow_id caller.id CommentEvent.elements_bulk_approved none)
    pure (length (select (λ (el : Element). includes wanted el.id) els))
