-- ===== src/Canvas/Service/Operations.antt =====
-- `createOperation` and `appendOperation` of src/modules/canvas/services/canvas.service.ts.
use manbaa_backend.Base.{
  ℕ, suc, String, Bool, true, false, ◌&&◌, ◌||◌, Option, none, some, ◌==◌, eqb, leb, is_some,
  if◌then◌else◌,
}
use manbaa_backend.Exec.{
  Exec, bad_request, conflict, ◌>>=◌, ◌>>◌, pure, raise, gets, modify, guard, transaction,
}
use manbaa_backend.Json.{Json}
use manbaa_backend.Repository.{find_one}
use manbaa_backend.Session.Types.{RequestUser}
use manbaa_backend.Canvas.Types.{Canvas, CanvasOperation, CreateCanvasOperationDto, Effect}
use manbaa_backend.Canvas.Service.{
  Env, State, emit, save_canvas, save_operation, find_canvas_or_throw,
  require_canvas_mutation_permission, get_or_create_canvas,
}

abbrev pub same_text : Option String → Option String → Bool
same_text none none = true
same_text (some a) (some b) = a == b
same_text _ _ = false

-- `Number(null)` is 0.
abbrev pub same_count : Option ℕ → ℕ → Bool
same_count none n = eqb 0 n
same_count (some m) n = eqb m n

module _ (env : Env) where
  abbrev pub same_json : Option Json → Option Json → Bool
  same_json none none = true
  same_json (some a) (some b) = env.deep_equal a b
  same_json _ _ = false

  -- `sameLogicalOperation`
  unfoldable pub same_logical_operation :
      CanvasOperation → Canvas → CreateCanvasOperationDto → RequestUser → Bool
  same_logical_operation existing canvas dto caller =
      existing.canvas_id == canvas.id
      && (same_text existing.canvas_object_id dto.canvas_object_id
          && (existing.user_id == caller.id
              && (existing.op_type == dto.op_type
                  && (eqb existing.sequence_number (suc dto.client_revision)
                      && (same_text existing.organization_id (some caller.org_id)
                          && (same_text existing.workspace_id canvas.workspace_id
                              && (same_count existing.client_revision dto.client_revision
                                  && (env.deep_equal existing.op_payload dto.op_payload
                                      && same_json existing.version_vector
                                          dto.version_vector))))))))

  -- The revision conflict carries the current revision; all else is thrown as it is.
  pub data Outcome : Type 0 where
    accepted duplicate : CanvasOperation → Canvas → Outcome
    revision_conflict : ℕ → Outcome

  abbrev pub operation_of :
      Canvas → Canvas → CreateCanvasOperationDto → RequestUser → CanvasOperation
  operation_of canvas locked dto caller = record {
    id = dto.operation_id;
    canvas_id = canvas.id;
    organization_id = some caller.org_id;
    workspace_id = locked.workspace_id;
    canvas_object_id = dto.canvas_object_id;
    user_id = caller.id;
    op_type = dto.op_type;
    op_payload = dto.op_payload;
    version_vector = dto.version_vector;
    sequence_number = suc locked.revision;
    client_revision = some dto.client_revision;
  }

  -- `if (dto.canvas_object_id && !exists(…)) throw …`
  abbrev pub object_exists : Option String → String → State env → Bool
  object_exists none canvas_id s = true
  object_exists (some id) canvas_id s =
      id == "" || is_some (find_one env.objects id (λ o. o.canvas_id == canvas_id) s.objects)

  -- The part of the transaction for an id that is new.
  unfoldable pub accept :
      Canvas → Canvas → CreateCanvasOperationDto → RequestUser → Exec (State env) Outcome
  accept canvas locked dto caller = do
    exists ← gets (object_exists dto.canvas_object_id canvas.id)
    guard exists (bad_request "Canvas object does not belong to this canvas")
    let operation = operation_of canvas locked dto caller
    save_operation env operation
    let next = record locked { revision = suc locked.revision }
    save_canvas env next
    pure (Outcome.accepted operation next)

  -- The transaction of `createOperation`, with the canvas as it was read before.
  unfoldable pub commit_operation :
      Canvas → CreateCanvasOperationDto → RequestUser → Exec (State env) Outcome
  unfolding accept
  commit_operation canvas dto caller = transaction (do
    locked ← find_canvas_or_throw env canvas.id
    existing ← gets (λ s. env.operations.get dto.operation_id s.operations)
    elim existing [
      | some operation ↦ (do
        guard (same_logical_operation operation canvas dto caller)
            (conflict "Operation ID is already used by a different operation")
        pure (Outcome.duplicate operation locked))
      | none ↦
          let fresh = accept canvas locked dto caller in
          if eqb dto.client_revision locked.revision
          then fresh
          else pure (Outcome.revision_conflict locked.revision)
    ])

  -- The message after the transaction, the value that is returned, and the conflict that is thrown.
  unfoldable pub report :
      Canvas → CreateCanvasOperationDto → RequestUser → Outcome → Exec (State env) CanvasOperation
  report canvas dto caller (Outcome.duplicate operation locked) = pure operation
  report canvas dto caller (Outcome.accepted operation locked) = do
    elim locked.workspace_id [
      | none ↦ pure tt
      | some w ↦ emit env (
          Effect.broadcast_operation_accepted caller.org_id w canvas.id operation.id caller.id
            operation.sequence_number)
    ]
    pure operation
  report canvas dto caller (Outcome.revision_conflict current) = do
    elim canvas.workspace_id [
      | none ↦ pure tt
      | some w ↦ emit env (
          Effect.broadcast_operation_rejected caller.org_id w canvas.id dto.operation_id caller.id
            dto.client_revision current)
    ]
    raise (conflict "CANVAS_REVISION_CONFLICT")

  -- `others` is what other calls do between the first read of the canvas and the transaction.
  unfoldable pub create_operation :
      String
      → (State env → State env)
      → String
      → CreateCanvasOperationDto
      → RequestUser
      → Exec (State env) CanvasOperation
  unfolding commit_operation report
  create_operation uuid others workflow_id dto caller = do
    canvas ← get_or_create_canvas env uuid workflow_id caller.org_id
    require_canvas_mutation_permission env canvas caller
    guard (leb (env.byte_length dto.op_payload) 65536)
        (bad_request "Canvas operation payload exceeds the limit")
    modify others
    outcome ← commit_operation canvas dto caller
    report canvas dto caller outcome
