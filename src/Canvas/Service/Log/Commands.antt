-- ===== src/Canvas/Service/Log/Commands.antt =====
-- The public methods of src/modules/canvas/services/canvas.service.ts that change something, as runs of the log.
use manbaa_backend.Base.{String, ◌≡◌, Option, none}
use manbaa_backend.Exec.{Exec}
use manbaa_backend.Session.Types.{RequestUser}
use manbaa_backend.Canvas.Types.{
  CreateCanvasObjectDto, UpdateCanvasObjectDto, MoveCanvasObjectDto, CreateCanvasOperationDto,
}
use manbaa_backend.Canvas.Service.{Env, State}
use manbaa_backend.Canvas.Service.Objects.{
  Ids, create_object, update_object, move_object, delete_object,
}
use manbaa_backend.Canvas.Service.Operations.{create_operation}
use manbaa_backend.Canvas.Service.Commits.{create_snapshot, commit_canvas}
use manbaa_backend.Canvas.Service.Log.{LogRun, IsLog}
use manbaa_backend.Canvas.Service.Log.Steps.{IsNew}
use manbaa_backend.Canvas.Service.Log.Numbering.{LogRun-IsLog}
use manbaa_backend.Canvas.Service.Log.Quiet.{snapshot-IsQuiet, commit-IsQuiet}
use manbaa_backend.Canvas.Service.Log.Runs.{
  IsRun, quiet-IsRun, update-IsRun, move-IsRun, delete-IsRun, create-LogRun, operate-LogRun,
}

module _ (env : Env) where
  open env use {canvases, operations}

  -- The calls of the service that change something, with the ids that the database makes, and what other
  -- calls do in between where the service reads before its transaction.
  pub data Command : Type 0 where
    create : Ids → String → CreateCanvasObjectDto → Command
    update : String → String → UpdateCanvasObjectDto → Command
    move : String → String → MoveCanvasObjectDto → Command
    delete : String → String → Command
    operate : String → (State env → State env) → String → CreateCanvasOperationDto → Command
    snapshot : String → String → Option String → Command
    commit : String × String × String → String → Option String → Command

  forget : {A : Type 0} → Exec (State env) A → State env → State env
  forget m s = (m s).1

  -- The state after the call, whether it returns or throws.
  unfoldable pub execute : Command → RequestUser → State env → State env
  unfolding create_object update_object move_object delete_object create_operation create_snapshot
      commit_canvas forget
  execute (create ids workflow_id dto) caller =
      forget (create_object env ids workflow_id dto caller)
  execute (update uuid object_id dto) caller = forget (update_object env uuid object_id dto caller)
  execute (move uuid object_id dto) caller = forget (move_object env uuid object_id dto caller)
  execute (delete uuid object_id) caller = forget (delete_object env uuid object_id caller)
  execute (operate uuid others workflow_id dto) caller =
      forget (create_operation env uuid others workflow_id dto caller)
  execute (snapshot uuid workflow_id trigger) caller =
      forget (create_snapshot env uuid workflow_id trigger caller)
  execute (commit uuids workflow_id label) caller =
      forget (commit_canvas env uuids workflow_id label caller)

  -- The ids that the database makes are new, and the other calls are steps of the log themselves.
  abbrev pub IsFresh : Command → State env → Type 0
  IsFresh (create ids workflow_id dto) s =
      (canvases.get ids.canvas s.canvases ≡ none) × IsNew env ids.operation s
  IsFresh (update uuid object_id dto) s = IsNew env uuid s
  IsFresh (move uuid object_id dto) s = IsNew env uuid s
  IsFresh (delete uuid object_id) s = IsNew env uuid s
  IsFresh (operate uuid others workflow_id dto) s =
      (canvases.get uuid s.canvases ≡ none) × ((t : State env) → LogRun env t (others t))
  IsFresh (snapshot uuid workflow_id trigger) s = Unit
  IsFresh (commit uuids workflow_id label) s = Unit

  -- A call of the service is a run of the specification of the log, whether it returns or throws, if the
  -- ids that the database makes are new and what other calls do in between is such a run itself.
  pub execute-LogRun :
      (command : Command) (caller : RequestUser) (s : State env)
      → IsFresh command s
      → LogRun env s (execute command caller s)
  unfolding execute IsRun
  execute-LogRun (create ids workflow_id dto) caller s fresh =
      create-LogRun env ids workflow_id dto caller s fresh.0 fresh.1
  execute-LogRun (update uuid object_id dto) caller s fresh =
      update-IsRun env uuid object_id dto caller s fresh
  execute-LogRun (move uuid object_id dto) caller s fresh =
      move-IsRun env uuid object_id dto caller s fresh
  execute-LogRun (delete uuid object_id) caller s fresh =
      delete-IsRun env uuid object_id caller s fresh
  execute-LogRun (operate uuid others workflow_id dto) caller s fresh =
      operate-LogRun env uuid others workflow_id dto caller s fresh.0 fresh.1
  execute-LogRun (snapshot uuid workflow_id trigger) caller s fresh =
      quiet-IsRun env _ s (snapshot-IsQuiet env uuid workflow_id trigger caller)
  execute-LogRun (commit uuids workflow_id label) caller s fresh =
      quiet-IsRun env _ s (commit-IsQuiet env uuids workflow_id label caller)

  -- Whatever the service is called for, the operations of each canvas stay numbered from one to its revision
  -- with no gap and no number twice, if the ids that the database makes are new and what other calls do in
  -- between is a run of the log.
  pub execute-IsLog :
      (command : Command) (caller : RequestUser) (s : State env)
      → IsFresh command s
      → IsLog env s
      → IsLog env (execute command caller s)
  execute-IsLog command caller s fresh log =
      LogRun-IsLog env s (execute command caller s) log (execute-LogRun command caller s fresh)
