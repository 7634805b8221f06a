-- ===== src/Canvas/Service/Commits.antt =====
-- Snapshots and commits of a canvas: src/modules/canvas/services/canvas.service.ts.
use manbaa_backend.Base.{
  map, ℕ, suc, String, ◌||◌, Option, none, some, List, [], ◌∷◌, ◌==◌, or_else,
}
use manbaa_backend.Exec.{
  Exec, not_found, forbidden, ◌>>=◌, ◌>>◌, pure, gets, require, modify, guard, transaction,
}
use manbaa_backend.Json.{Json, str, num, arr, obj, Items, nil, item, field, end}
use manbaa_backend.Session.Types.{RequestUser}
use manbaa_backend.Canvas.Types.{
  Canvas, CanvasObject, Workflow, WorkflowVersion, SnapshotObject, CanvasSnapshot, CanvasVersion,
  AuditEvent, Effect,
}
use manbaa_backend.Canvas.Service.{
  Env, State, emit, find_workflow_in_org_or_throw, resolve_workflow_id, get_canvas,
}
use manbaa_backend.Canvas.Service.Objects.{nullable}

-- An element of `elements_json`.
abbrev pub element_of : CanvasObject → Json
element_of o = obj (
    field "id" (str o.id) (
      field "type" (str o.kind) (
        field "elsa_type" (nullable str o.elsa_type) (
          field "label" (nullable str o.label) (
            field "properties" o.properties (
              field "position"
                (obj (field "x" (num o.position_x) (field "y" (num o.position_y) end)))
                (field "width" (nullable num o.width) (
                  field "height" (nullable num o.height)
                    (field "style" (nullable (λ j. j) o.style) end)))))))))

abbrev pub elements_of : List CanvasObject → Items
elements_of [] = nil
elements_of (o ∷ os) = item (element_of o) (elements_of os)

abbrev pub snapshot_object : CanvasObject → SnapshotObject
snapshot_object o = record {
  id = o.id;
  kind = o.kind;
  elsa_type = o.elsa_type;
  label = o.label;
  properties = o.properties;
  position_x = o.position_x;
  position_y = o.position_y;
  width = o.width;
  height = o.height;
  style = o.style;
  is_locked = o.is_locked;
}

module _ (env : Env) where
  abbrev pub objects_of : Canvas → State env → List CanvasObject
  objects_of canvas s = env.objects_listing.select (λ o. o.canvas_id == canvas.id) s.objects

  abbrev pub snapshot_of : String → Canvas → List CanvasObject → String → String → CanvasSnapshot
  snapshot_of uuid canvas objects user_id trigger = record {
    id = uuid;
    canvas_id = canvas.id;
    snapshot_data = map snapshot_object objects;
    created_by = user_id;
    trigger = trigger;
  }

  abbrev pub save_snapshot : CanvasSnapshot → Exec (State env) Unit
  save_snapshot snapshot =
      modify λ s. record s { snapshots = env.snapshots.save snapshot s.snapshots }

  unfoldable pub create_snapshot :
      String → String → Option String → RequestUser → Exec (State env) CanvasSnapshot
  create_snapshot uuid workflow_id trigger caller = do
    canvas ← get_canvas env workflow_id caller.org_id
    objects ← gets (objects_of canvas)
    let snapshot = snapshot_of uuid canvas objects caller.id (or_else trigger "manual")
    save_snapshot snapshot
    emit env (Effect.audit workflow_id (some caller.id) AuditEvent.canvas_snapshot_created uuid)
    pure snapshot

  get_objects : String → String → Exec (State env) (List CanvasObject)
  get_objects workflow_id org_id = do
    canvas ← get_canvas env workflow_id org_id
    gets (objects_of canvas)

  get_version : String → String → Exec (State env) CanvasVersion
  get_version version_id org_id = do
    found ← gets (λ s. env.canvas_versions.get version_id s.canvas_versions)
    version ← require found (not_found "Canvas version not found")
    resolve_workflow_id env version.canvas_id org_id
    pure version

  unfoldable pub get_snapshot : String → String → Exec (State env) CanvasSnapshot
  get_snapshot snapshot_id org_id = do
    found ← gets (λ s. env.snapshots.get snapshot_id s.snapshots)
    snapshot ← require found (not_found "Snapshot not found")
    resolve_workflow_id env snapshot.canvas_id org_id
    pure snapshot

  -- The rows that the transaction of `commitCanvas` writes; the database makes the three ids.
  abbrev pub version_of : String → Workflow → List CanvasObject → RequestUser → WorkflowVersion
  version_of uuid workflow objects caller = record {
    id = uuid;
    workflow_id = workflow.id;
    version_number = suc workflow.current_version;
    elements_json = obj (field "elements" (arr (elements_of objects)) end);
    created_by = caller.id;
  }

  abbrev pub canvas_version_of :
      String × String × String → Canvas → Option String → RequestUser → CanvasVersion
  canvas_version_of (snapshot_id, version_id, canvas_version_id) canvas label caller = record {
    id = canvas_version_id;
    canvas_id = canvas.id;
    workflow_version_id = version_id;
    snapshot_id = snapshot_id;
    label = label;
    created_by = caller.id;
  }

  -- `manager.update(Workflow, id, …)` writes the two columns of the row as it is by then.
  abbrev pub count_up : String → ℕ → State env → State env
  count_up id n s = elim (env.workflows.get id s.workflows) [
    | none ↦ s
    | some w ↦ record s {
      workflows = env.workflows.save (record w { current_version = n }) s.workflows;
    }
  ]

  -- The transaction of `commitCanvas`.
  unfoldable pub write_commit :
      CanvasSnapshot → WorkflowVersion → CanvasVersion → Exec (State env) Unit
  write_commit snapshot version canvas_version = transaction (do
    save_snapshot snapshot
    modify (λ s. record s {
      workflow_versions = env.workflow_versions.save version s.workflow_versions;
    })
    modify (count_up version.workflow_id version.version_number)
    modify (λ s. record s {
      canvas_versions = env.canvas_versions.save canvas_version s.canvas_versions;
    }))

  unfoldable pub commit_canvas :
      String × String × String
      → String
      → Option String
      → RequestUser
      → Exec (State env) CanvasVersion
  unfolding write_commit
  commit_canvas (snapshot_id, version_id, canvas_version_id) workflow_id label caller = do
    workflow ← find_workflow_in_org_or_throw env workflow_id caller.org_id
    guard (workflow.owner_id == caller.id || caller.role == "admin")
        (forbidden "Only owner or admin can commit the canvas")
    canvas ← get_canvas env workflow_id caller.org_id
    objects ← gets (objects_of canvas)
    let version = version_of version_id workflow objects caller
    let canvas_version =
        canvas_version_of (snapshot_id, version_id, canvas_version_id) canvas label caller
    let snapshot = snapshot_of snapshot_id canvas objects caller.id "pre-commit"
    write_commit snapshot version canvas_version
    emit env
        (Effect.audit workflow.id (some caller.id) AuditEvent.canvas_committed canvas_version_id)
    emit env (
        Effect.broadcast_canvas_committed canvas.id workflow.id canvas_version version_id
          version.version_number)
    pure canvas_version
