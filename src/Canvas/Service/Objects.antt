-- ===== src/Canvas/Service/Objects.antt =====
-- The methods of src/modules/canvas/services/canvas.service.ts that change an object.
use manbaa_backend.Base.{String, false, not, ◌||◌, Option, none, some, ◌==◌, or_else}
use manbaa_backend.Exec.{
  Exec, not_found, forbidden, ◌>>=◌, ◌>>◌, pure, gets, require, modify, guard, transaction,
}
use manbaa_backend.Json.{Json, null, str, num, obj, Fields, field, end}
use manbaa_backend.Repository.{find_one}
use manbaa_backend.Session.Types.{RequestUser}
use manbaa_backend.Canvas.Types.{
  Canvas, CanvasObject, CreateCanvasObjectDto, UpdateCanvasObjectDto, MoveCanvasObjectDto,
  AuditEvent, Effect,
}
use manbaa_backend.Canvas.Service.{
  Env, State, emit, save_object, find_canvas_or_throw, resolve_workflow_id,
  find_object_in_org_or_throw, require_canvas_mutation_permission, append_operation,
  get_or_create_canvas,
}

-- A value of a payload, which is `null` where there is none.
abbrev pub nullable : {A : Type 0} → (A → Json) → Option A → Json
nullable f none = null
nullable f (some a) = f a

abbrev pub position : CanvasObject → Fields → Fields
position o rest = field "position_x" (num o.position_x) (field "position_y" (num o.position_y) rest)

abbrev pub created_payload : CanvasObject → Json
created_payload o = obj (
    field "type" (str o.kind) (
      field "elsa_type" (nullable str o.elsa_type)
        (field "label" (nullable str o.label) (position o end))))

abbrev pub updated_payload : CanvasObject → Json
updated_payload o = obj (
    field "label" (nullable str o.label) (
      position o
        (field "width" (nullable num o.width) (field "height" (nullable num o.height) end))))

abbrev pub moved_payload : CanvasObject → Json
moved_payload o = obj (position o end)

abbrev pub deleted_payload : CanvasObject → Json
deleted_payload o = obj (field "type" (str o.kind) (field "label" (nullable str o.label) end))

-- The ids that the database makes in a call.
pub record Ids : Type 0 where
  pub canvas : String
  pub object : String
  pub operation : String

-- `value ?? null` where both are optional.
abbrev or_keep : {A : Type 0} → Option A → Option A → Option A
or_keep none old = old
or_keep (some a) old = some a

abbrev pub object_of : String → String → CreateCanvasObjectDto → String → CanvasObject
object_of uuid canvas_id dto user_id = record {
  id = uuid;
  canvas_id = canvas_id;
  kind = dto.kind;
  elsa_type = dto.elsa_type;
  label = dto.label;
  properties = or_else dto.properties (obj end);
  position_x = dto.position_x;
  position_y = dto.position_y;
  width = dto.width;
  height = dto.height;
  style = dto.style;
  is_locked = false;
  created_by = user_id;
}

-- The assignments of `updateObject`, each if the property is given.
abbrev pub edited : UpdateCanvasObjectDto → CanvasObject → CanvasObject
edited dto o = record o {
  label = or_keep dto.label o.label;
  elsa_type = or_keep dto.elsa_type o.elsa_type;
  properties = or_else dto.properties o.properties;
  position_x = or_else dto.position_x o.position_x;
  position_y = or_else dto.position_y o.position_y;
  width = or_keep dto.width o.width;
  height = or_keep dto.height o.height;
  style = or_keep dto.style o.style;
}

module _ (env : Env) where
  -- The transaction of `createObject`.
  unfoldable pub insert_object :
      Ids → String → CreateCanvasObjectDto → RequestUser → Exec (State env) CanvasObject
  insert_object ids canvas_id dto caller = transaction (do
    canvas ← find_canvas_or_throw env canvas_id
    let object = object_of ids.object canvas_id dto caller.id
    save_object env object
    append_operation env ids.operation canvas (some object.id) caller.id "object_create"
        (created_payload object)
    pure object)

  unfoldable pub create_object :
      Ids → String → CreateCanvasObjectDto → RequestUser → Exec (State env) CanvasObject
  unfolding insert_object
  create_object ids workflow_id dto caller = do
    canvas ← get_or_create_canvas env ids.canvas workflow_id caller.org_id
    require_canvas_mutation_permission env canvas caller
    saved ← insert_object ids canvas.id dto caller
    emit env (Effect.audit workflow_id (some caller.id) AuditEvent.canvas_object_created saved.id)
    emit env (Effect.broadcast_object_created canvas.id workflow_id saved)
    pure saved

  -- The canvas and the object that `updateObject`, `moveObject` and `deleteObject` lock in their
  -- transactions; a locked object is for an admin only.
  unfoldable pub lock_object :
      String → String → RequestUser → String → Exec (State env) (Canvas × CanvasObject)
  lock_object object_id canvas_id caller message = do
    canvas ← find_canvas_or_throw env canvas_id
    found ← gets (λ s. find_one env.objects object_id (λ o. o.canvas_id == canvas_id) s.objects)
    object ← require found (not_found "Canvas object not found")
    guard (not object.is_locked || caller.role == "admin") (forbidden message)
    pure (canvas, object)

  -- The transactions of `updateObject` and `moveObject`: `change` is what they assign, and `payload` what
  -- they log.
  unfoldable pub rewrite_object :
      String
      → String
      → String
      → RequestUser
      → String
      → (CanvasObject → CanvasObject)
      → String
      → (CanvasObject → Json)
      → Exec (State env) CanvasObject
  unfolding lock_object
  rewrite_object uuid object_id canvas_id caller message change op_type payload = transaction (do
    locked ← lock_object object_id canvas_id caller message
    let saved = change locked.1
    save_object env saved
    append_operation env uuid locked.0 (some saved.id) caller.id op_type (payload saved)
    pure saved)

  -- What stands before these transactions.
  unfoldable pub open_object : String → RequestUser → Exec (State env) (CanvasObject × Canvas)
  open_object object_id caller = do
    existing ← find_object_in_org_or_throw env object_id caller.org_id
    canvas ← find_canvas_or_throw env existing.canvas_id
    require_canvas_mutation_permission env canvas caller
    pure (existing, canvas)

  -- The audit entry and the message after these transactions.
  unfoldable pub announce :
      String → String → RequestUser → AuditEvent → (String → Effect) → Exec (State env) Unit
  announce object_id canvas_id caller event message = do
    workflow_id ← resolve_workflow_id env canvas_id caller.org_id
    emit env (Effect.audit workflow_id (some caller.id) event object_id)
    emit env (message workflow_id)

  unfoldable pub update_object :
      String → String → UpdateCanvasObjectDto → RequestUser → Exec (State env) CanvasObject
  unfolding rewrite_object open_object announce
  update_object uuid object_id dto caller = do
    opened ← open_object object_id caller
    saved ←
        rewrite_object uuid object_id opened.1.id caller "Cannot modify a locked object"
          (edited dto) "object_update" updated_payload
    announce saved.id opened.0.canvas_id caller AuditEvent.canvas_object_updated
        (λ w. Effect.broadcast_object_updated opened.0.canvas_id w saved)
    pure saved

  unfoldable pub move_object :
      String → String → MoveCanvasObjectDto → RequestUser → Exec (State env) CanvasObject
  unfolding rewrite_object open_object announce
  move_object uuid object_id dto caller = do
    opened ← open_object object_id caller
    saved ←
        rewrite_object uuid object_id opened.1.id caller "Cannot move a locked object"
          (λ o. record o { position_x = dto.position_x; position_y = dto.position_y }) "object_move"
          moved_payload
    announce saved.id opened.0.canvas_id caller AuditEvent.canvas_object_moved
        (λ w. Effect.broadcast_object_moved opened.0.canvas_id w saved)
    pure saved

  -- The transaction of `deleteObject`.
  unfoldable pub remove_object :
      String → String → String → RequestUser → Exec (State env) CanvasObject
  unfolding lock_object
  remove_object uuid object_id canvas_id caller = transaction (do
    locked ← lock_object object_id canvas_id caller "Cannot delete a locked object"
    modify (λ s. record s {
      objects = env.objects_removing.remove (env.objects.key locked.1) s.objects;
    })
    append_operation env uuid locked.0 (some object_id) caller.id "object_delete"
        (deleted_payload locked.1)
    pure locked.1)

  unfoldable pub delete_object : String → String → RequestUser → Exec (State env) Unit
  unfolding remove_object open_object announce
  delete_object uuid object_id caller = do
    opened ← open_object object_id caller
    deleted ← remove_object uuid object_id opened.1.id caller
    announce object_id deleted.canvas_id caller AuditEvent.canvas_object_deleted
        (λ w. Effect.broadcast_object_deleted deleted.canvas_id w object_id)
