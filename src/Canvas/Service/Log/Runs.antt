-- ===== src/Canvas/Service/Log/Runs.antt =====
-- Each method of src/modules/canvas/services/canvas.service.ts as a run of the log.
use manbaa_backend.Base.{
  String, ◌≡◌, ap, ◌∙◌, inl, inr, Bool, true, false, none, some, arith, Option-cases, leb,
}
use manbaa_backend.Exec.{Exec, Result-cases, Failure, ◌>>=◌, ◌>>◌, modify, guard, bad_request}
use manbaa_backend.Session.Types.{RequestUser}
use manbaa_backend.Canvas.Types.{
  Canvas, CanvasObject, CreateCanvasObjectDto, UpdateCanvasObjectDto, MoveCanvasObjectDto,
  CreateCanvasOperationDto, Effect, AuditEvent,
}
use manbaa_backend.Canvas.Service.{
  Env, State, find_workflow_in_org, canvas_of_workflow, get_or_create_canvas,
  require_canvas_mutation_permission,
}
use manbaa_backend.Canvas.Service.Objects.{
  Ids, edited, updated_payload, moved_payload, insert_object, create_object, open_object,
  update_object, move_object, remove_object, delete_object,
}
use manbaa_backend.Canvas.Service.Operations.{commit_operation, report, create_operation}
use manbaa_backend.Canvas.Service.Log.{LogStep, silent, LogRun, still, more}
use manbaa_backend.Canvas.Service.Log.Steps.{
  IsNew, get_or_create-LogStep, insert-LogStep, rewrite-LogStep, remove-LogStep, commit-LogStep,
}
use manbaa_backend.Canvas.Service.Log.Quiet.{
  IsQuiet, bind-IsQuiet, permit-IsQuiet, pure-IsQuiet, emit-IsQuiet, open-IsQuiet, announce-IsQuiet,
  report-IsQuiet,
}

module _ (env : Env) where
  open env use {canvases, operations}

  unfoldable pub IsRun : {A : Type 0} → String → Exec (State env) A → Type 0
  IsRun uuid m = (s : State env) → IsNew env uuid s → LogRun env s (m s).1

  pub run_trans : {s t u : State env} → LogRun env s t → LogRun env t u → LogRun env s u
  run_trans first still = first
  run_trans first (more rest step) = more (run_trans first rest) step

  pub quiet-IsRun :
      {A : Type 0} (m : Exec (State env) A) (s : State env) → IsQuiet env m → LogRun env s (m s).1
  unfolding IsQuiet
  quiet-IsRun m s quiet = let h = quiet s in more still (silent h.0 h.1)

  pub bind-LogRun :
      {A B : Type 0} (m : Exec (State env) A) (f : A → Exec (State env) B) (s : State env)
      → LogRun env s (m s).1
      → ((a : A) → LogRun env (m s).1 (f a (m s).1).1)
      → LogRun env s ((m >>= f) s).1
  bind-LogRun m f s first rest = elim (Result-cases (m s).0) [
    | inl (a, e) ↦ rw e (run_trans first (rest a))
    | inr (x, e) ↦ rw e first
  ]

  pub after_quiet :
      {A B : Type 0} (uuid : String) (m : Exec (State env) A) (f : A → Exec (State env) B)
      → IsQuiet env m
      → ((a : A) → IsRun uuid (f a))
      → IsRun uuid (m >>= f)
  unfolding IsQuiet IsRun
  after_quiet uuid m f quiet runs s new =
      bind-LogRun m f s (quiet-IsRun m s quiet)
        (λ a. runs a (m s).1 (ap (operations.get uuid) (quiet s).1 ∙ new))

  pub before_quiet :
      {A B : Type 0} (uuid : String) (m : Exec (State env) A) (f : A → Exec (State env) B)
      → IsRun uuid m
      → ((a : A) → IsQuiet env (f a))
      → IsRun uuid (m >>= f)
  unfolding IsQuiet IsRun
  before_quiet uuid m f run quiets s new =
      bind-LogRun m f s (run s new) (λ a. quiet-IsRun (f a) (m s).1 (quiets a))

  -- The three methods on an object that is there: open it, one step of the log, announce it.
  pub changed-IsRun :
      (uuid object_id : String) (caller : RequestUser)
      (change : CanvasObject × Canvas → Exec (State env) CanvasObject)
      (rest : CanvasObject × Canvas → CanvasObject → Exec (State env) CanvasObject)
      → ((c : CanvasObject × Canvas) (s : State env)
          → IsNew env uuid s
          → LogStep env s (change c s).1)
      → ((c : CanvasObject × Canvas) (o : CanvasObject) → IsQuiet env (rest c o))
      → IsRun uuid (open_object env object_id caller >>= λ c. change c >>= rest c)
  unfolding IsRun
  changed-IsRun uuid object_id caller change rest step quiet =
      after_quiet uuid _ _ (open-IsQuiet env object_id caller)
        (λ c. before_quiet uuid (change c) (rest c) (λ s new. more still (step c s new)) (quiet c))

  pub update-IsRun :
      (uuid object_id : String) (dto : UpdateCanvasObjectDto) (caller : RequestUser)
      → IsRun uuid (update_object env uuid object_id dto caller)
  unfolding update_object
  update-IsRun uuid object_id dto caller =
      changed-IsRun uuid object_id caller _ _
        (λ c s new.
          rewrite-LogStep env uuid object_id c.1.id caller "Cannot modify a locked object"
            (edited dto) "object_update" updated_payload s new)
        (λ c o.
          bind-IsQuiet env _ _ (announce-IsQuiet env o.id c.0.canvas_id caller _ _)
            (λ _. pure-IsQuiet env o))

  pub move-IsRun :
      (uuid object_id : String) (dto : MoveCanvasObjectDto) (caller : RequestUser)
      → IsRun uuid (move_object env uuid object_id dto caller)
  unfolding move_object
  move-IsRun uuid object_id dto caller =
      changed-IsRun uuid object_id caller _ _
        (λ c s new.
          rewrite-LogStep env uuid object_id c.1.id caller "Cannot move a locked object"
            (λ o. record o { position_x = dto.position_x; position_y = dto.position_y })
            "object_move" moved_payload s new)
        (λ c o.
          bind-IsQuiet env _ _ (announce-IsQuiet env o.id c.0.canvas_id caller _ _)
            (λ _. pure-IsQuiet env o))

  pub delete-IsRun :
      (uuid object_id : String) (caller : RequestUser)
      → IsRun uuid (delete_object env uuid object_id caller)
  unfolding delete_object IsRun
  delete-IsRun uuid object_id caller =
      after_quiet uuid _ _ (open-IsQuiet env object_id caller) (λ (c : CanvasObject × Canvas).
        before_quiet uuid (remove_object env uuid object_id c.1.id caller) _
          (λ s new. more still (remove-LogStep env uuid object_id c.1.id caller s new))
          (λ (o : CanvasObject). announce-IsQuiet env object_id o.canvas_id caller _ _))

  pub first_canvas-operations :
      (uuid workflow_id org_id : String) (s : State env)
      → (get_or_create_canvas env uuid workflow_id org_id s).1.operations ≡ s.operations
  unfolding get_or_create_canvas
  first_canvas-operations uuid workflow_id org_id s =
      elim (Option-cases (find_workflow_in_org env workflow_id org_id s)) [
        | inl missing ↦ ground arith
        | inr (w, there) ↦ elim (Option-cases (canvas_of_workflow env w.id s)) [
          | inr (c, found) ↦ ground arith
          | inl first ↦ ground arith
        ]
      ]

  -- A method that makes its canvas first.
  pub opened-LogRun :
      {A : Type 0} (id uuid workflow_id org_id : String) (rest : Canvas → Exec (State env) A)
      (s : State env)
      → canvases.get id s.canvases ≡ none
      → IsNew env uuid s
      → ((c : Canvas) → IsRun uuid (rest c))
      → LogRun env s ((get_or_create_canvas env id workflow_id org_id >>= rest) s).1
  unfolding IsRun
  opened-LogRun id uuid workflow_id org_id rest s free new runs =
      let opening : Exec (State env) Canvas = get_or_create_canvas env id workflow_id org_id in
      bind-LogRun opening rest s
        (more still (get_or_create-LogStep env id workflow_id org_id s free))
        (λ c.
          runs c (opening s).1
            (ap (operations.get uuid) (first_canvas-operations id workflow_id org_id s) ∙ new))

  pub create-LogRun :
      (ids : Ids) (workflow_id : String) (dto : CreateCanvasObjectDto) (caller : RequestUser)
      (s : State env)
      → canvases.get ids.canvas s.canvases ≡ none
      → IsNew env ids.operation s
      → LogRun env s (create_object env ids workflow_id dto caller s).1
  unfolding create_object IsRun
  create-LogRun ids workflow_id dto caller s free new =
      opened-LogRun ids.canvas ids.operation workflow_id caller.org_id _ s free new (λ c.
        after_quiet ids.operation _ _ (permit-IsQuiet env c caller) (λ _.
          before_quiet ids.operation (insert_object env ids c.id dto caller) _
            (λ t new'. more still (insert-LogStep env ids c.id dto caller t new'))
            (λ (o : CanvasObject).
              bind-IsQuiet env _ _
                (emit-IsQuiet env
                  (Effect.audit workflow_id (some caller.id) AuditEvent.canvas_object_created o.id))
                (λ _.
                  bind-IsQuiet env _ _
                    (emit-IsQuiet env (Effect.broadcast_object_created c.id workflow_id o))
                    (λ _. pure-IsQuiet env o)))))

  pub operate-LogRun :
      (uuid : String) (others : State env → State env) (workflow_id : String)
      (dto : CreateCanvasOperationDto) (caller : RequestUser) (s : State env)
      → canvases.get uuid s.canvases ≡ none
      → ((t : State env) → LogRun env t (others t))
      → LogRun env s (create_operation env uuid others workflow_id dto caller s).1
  unfolding create_operation
  operate-LogRun uuid others workflow_id dto caller s free other =
      bind-LogRun (get_or_create_canvas env uuid workflow_id caller.org_id) _ s
        (more still (get_or_create-LogStep env uuid workflow_id caller.org_id s free))
        (λ c. permitted c _)
    where
      decided :
          (c : Canvas) (t : State env)
          → LogRun env t ((commit_operation env c dto caller >>= report env c dto caller) t).1
      decided c t =
          bind-LogRun (commit_operation env c dto caller) (report env c dto caller) t
            (more still (commit-LogStep env c dto caller t))
            (λ o. quiet-IsRun (report env c dto caller o) _ (report-IsQuiet env c dto caller o))

      written :
          (c : Canvas) (t : State env)
          → LogRun env t
              ((modify others >> (commit_operation env c dto caller >>= report env c dto caller))
                t).1
      written c t =
          bind-LogRun (modify others)
            (λ _. commit_operation env c dto caller >>= report env c dto caller) t (other t)
            (λ _. decided c (others t))

      checked :
          (b : Bool) (e : Failure) (c : Canvas) (t : State env)
          → LogRun env t
              ((guard b e
                  >> (modify others
                      >> (commit_operation env c dto caller >>= report env c dto caller)))
                t).1
      checked true e c t = written c t
      checked false e c t = still

      permitted :
          (c : Canvas) (t : State env)
          → LogRun env t
              ((require_canvas_mutation_permission env c caller
                  >> (guard
                        (leb (env.byte_length dto.op_payload) 65536)
                        (bad_request "Canvas operation payload exceeds the limit")
                      >> (modify others
                          >> (commit_operation env c dto caller >>= report env c dto caller))))
                t).1
      permitted c t =
          bind-LogRun (require_canvas_mutation_permission env c caller) (λ _. _) t
            (quiet-IsRun (require_canvas_mutation_permission env c caller) t
              (permit-IsQuiet env c caller))
            (λ _. checked _ _ c _)
