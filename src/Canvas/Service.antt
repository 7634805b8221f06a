-- ===== src/Canvas/Service.antt =====
-- src/modules/canvas/services/canvas.service.ts: the helpers, and the environment of the service.
pub mod Objects
pub mod Operations
pub mod Commits
pub mod Log
mod Replay
mod Refusals
mod Snapshots
mod Tests
use manbaa_backend.Base.{
  ℕ, suc, String, ◌≡◌, Bool, true, false, not, ◌&&◌, ◌||◌, Option, none, some, List, [], ◌∷◌, ◌++◌,
  ◌+◌, ◌==◌, keep, is_some, if◌then◌else◌,
}
use manbaa_backend.Exec.{
  error, Failure, Result, ok, err, Exec, not_found, forbidden, ◌>>=◌, ◌>>◌, pure, raise, gets,
  require, lift, modify, guard,
}
use manbaa_backend.Json.{Json}
use manbaa_backend.Repository.{Repository, find_one}
use manbaa_backend.Repository.Listing.{Listing, Removing}
use manbaa_backend.Session.Types.{RequestUser}
use manbaa_backend.Workspace.Permission as Permission
use manbaa_backend.Canvas.Types.{
  Canvas, CanvasObject, CanvasOperation, Workflow, WorkflowVersion, CanvasSnapshot, CanvasVersion,
  AuditEvent, Effect,
}

-- The tables, the tables that the permission service reads, `isDeepStrictEqual` of the language (a
-- value is equal to itself), and the length in bytes of a JSON text.
pub record Env : Type 1 where
  pub canvases : Repository Canvas
  pub canvas_key : (r : Canvas) → canvases.key r ≡ r.id
  pub objects : Repository CanvasObject
  pub object_key : (r : CanvasObject) → objects.key r ≡ r.id
  pub objects_listing : Listing objects
  pub objects_removing : Removing objects
  pub operations : Repository CanvasOperation
  pub operation_key : (r : CanvasOperation) → operations.key r ≡ r.id
  pub workflows : Repository Workflow
  pub workflow_key : (r : Workflow) → workflows.key r ≡ r.id
  pub workflow_versions : Repository WorkflowVersion
  pub snapshots : Repository CanvasSnapshot
  pub snapshot_key : (r : CanvasSnapshot) → snapshots.key r ≡ r.id
  pub canvas_versions : Repository CanvasVersion
  pub permissions : Permission.Env
  pub members : permissions.members.Store
  pub organization_members : permissions.organization_members.Store
  pub deep_equal : Json → Json → Bool
  pub deep_equal_self : (j : Json) → deep_equal j j ≡ true
  pub byte_length : Json → ℕ

module _ (env : Env) where
  pub record State : Type 0 where
    pub canvases : env.canvases.Store
    pub objects : env.objects.Store
    pub operations : env.operations.Store
    pub workflows : env.workflows.Store
    pub workflow_versions : env.workflow_versions.Store
    pub snapshots : env.snapshots.Store
    pub canvas_versions : env.canvas_versions.Store
    pub effects : List Effect

  abbrev pub emit : Effect → Exec State Unit
  emit e = modify λ s. record s { effects = s.effects ++ e ∷ [] }

  abbrev pub save_canvas : Canvas → Exec State Unit
  save_canvas c = modify λ s. record s { canvases = env.canvases.save c s.canvases }

  abbrev pub save_object : CanvasObject → Exec State Unit
  save_object o = modify λ s. record s { objects = env.objects.save o s.objects }

  abbrev pub save_operation : CanvasOperation → Exec State Unit
  save_operation o = modify λ s. record s { operations = env.operations.save o s.operations }

  abbrev pub find_workflow_in_org : String → String → State → Option Workflow
  find_workflow_in_org id org_id s = find_one env.workflows id (λ w. w.org_id == org_id) s.workflows

  pub find_workflow_in_org_or_throw : String → String → Exec State Workflow
  find_workflow_in_org_or_throw id org_id = do
    found ← gets (find_workflow_in_org id org_id)
    require found (not_found "Workflow not found")

  -- `findCanvasOrThrow`, and `lockCanvas` inside of a transaction.
  pub find_canvas_or_throw : String → Exec State Canvas
  find_canvas_or_throw id = do
    found ← gets (λ s. env.canvases.get id s.canvases)
    require found (not_found "Canvas not found")

  -- `findOne({ where: { workflowId } })`
  abbrev pub canvas_of_workflow : String → State → Option Canvas
  canvas_of_workflow workflow_id s =
      env.canvases.find_where (λ c. c.workflow_id == workflow_id) s.canvases

  -- The join of `canvas` and `workflow`, if the workflow is of the organisation.
  abbrev pub workflow_of_canvas : String → String → State → Option Workflow
  workflow_of_canvas canvas_id org_id s = elim (env.canvases.get canvas_id s.canvases) [
    | none ↦ none
    | some c ↦ keep (λ w. w.org_id == org_id) (env.workflows.get c.workflow_id s.workflows)
  ]

  pub resolve_workflow_id : String → String → Exec State String
  resolve_workflow_id canvas_id org_id = do
    found ← gets (workflow_of_canvas canvas_id org_id)
    workflow ← require found (not_found "Canvas not found")
    pure workflow.id

  pub find_object_in_org_or_throw : String → String → Exec State CanvasObject
  unfolding resolve_workflow_id
  find_object_in_org_or_throw object_id org_id = do
    found ← gets (λ s. env.objects.get object_id s.objects)
    object ← require found (not_found "Canvas object not found")
    resolve_workflow_id object.canvas_id org_id
    pure object

  -- The roles of `legacyMutationRoles`.
  abbrev pub is_legacy_role : String → Bool
  is_legacy_role role = role == "admin" || (role == "process_owner" || role == "business_analyst")

  abbrev pub forget_value : {A : Type 0} → Result A → Result (Unit {0})
  forget_value (ok a) = ok tt
  forget_value (err e) = err e

  pub may_mutate : Option String → RequestUser → Result (Unit {0})
  may_mutate (some workspace_id) caller = forget_value (
      Permission.require_editor env.permissions env.members env.organization_members caller.id
        workspace_id caller.org_id)
  may_mutate none caller =
      if is_legacy_role caller.role then ok tt else err (forbidden "Canvas mutation access denied")

  pub require_canvas_mutation_permission : Canvas → RequestUser → Exec State Unit
  unfolding may_mutate
  require_canvas_mutation_permission canvas caller = lift (may_mutate canvas.workspace_id caller)

  abbrev pub organization_of : Canvas → State → Option String
  organization_of canvas s = elim canvas.workspace_id [
    | none ↦ none
    | some w ↦ elim (env.workflows.get canvas.workflow_id s.workflows) [
      | none ↦ none
      | some f ↦ some f.org_id
    ]
  ]

  -- The operation that `appendOperationWithLockedCanvas` writes; the database makes its id.
  abbrev pub next_operation :
      String → Canvas → Option String → Option String → String → String → Json → CanvasOperation
  next_operation uuid canvas organization_id object_id user_id op_type op_payload = record {
    id = uuid;
    canvas_id = canvas.id;
    organization_id = organization_id;
    workspace_id = canvas.workspace_id;
    canvas_object_id = object_id;
    user_id = user_id;
    op_type = op_type;
    op_payload = op_payload;
    version_vector = none;
    sequence_number = suc canvas.revision;
    client_revision = elim canvas.workspace_id [ none ↦ none | some w ↦ some canvas.revision ];
  }

  -- `appendOperationWithLockedCanvas`, for the calls of this service, which give no version vector.
  -- `REFERENCES canvas_object(id)` of `canvas_operation`: an operation that names an object is inserted only
  -- while the object is stored.
  abbrev pub refers : Option String → State → Bool
  refers none s = true
  refers (some object_id) s = is_some (env.objects.get object_id s.objects)

  pub append_operation :
      String → Canvas → Option String → String → String → Json → Exec State CanvasOperation
  append_operation uuid canvas object_id user_id op_type op_payload = do
    organization_id ← gets (organization_of canvas)
    guard (not (is_some canvas.workspace_id) || is_some organization_id)
        (not_found "Canvas workflow not found")
    known ← gets (refers object_id)
    guard known (error "canvas_operation violates its foreign key to canvas_object")
    let operation = next_operation uuid canvas organization_id object_id user_id op_type op_payload
    save_operation operation
    save_canvas (record canvas { revision = suc canvas.revision })
    pure operation

  -- `getOrCreateCanvas`; the database makes the id.
  pub get_or_create_canvas : String → String → String → Exec State Canvas
  unfolding find_workflow_in_org_or_throw
  get_or_create_canvas uuid workflow_id org_id = do
    workflow ← find_workflow_in_org_or_throw workflow_id org_id
    existing ← gets (canvas_of_workflow workflow.id)
    elim existing [
      | some canvas ↦ pure canvas
      | none ↦ (do
        let canvas : Canvas = record {
          id = uuid;
          workflow_id = workflow.id;
          workspace_id = none;
          revision = 0;
        }
        save_canvas canvas
        emit (Effect.audit workflow.id none AuditEvent.canvas_created uuid)
        pure canvas)
    ]

  pub get_canvas : String → String → Exec State Canvas
  unfolding find_workflow_in_org_or_throw
  get_canvas workflow_id org_id = do
    workflow ← find_workflow_in_org_or_throw workflow_id org_id
    found ← gets (canvas_of_workflow workflow.id)
    require found (not_found "Canvas not found for this workflow")
