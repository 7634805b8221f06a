-- ===== src/Canvas/Service/Log/Steps.antt =====
-- The methods of the service as steps of the log.
use manbaa_backend.Base.{
  suc, String, ◌≡◌, ◌⊎◌, refl, sym, ap, ◌∙◌, inl, inr, true, not, ◌||◌, Option, none, some, arith,
  Bool-cases, Option-cases, ◌==◌, eqb, is_some,
}
use manbaa_backend.Exec.{error, not_found, forbidden, ok, err, Failure}
use manbaa_backend.Json.{Json}
use manbaa_backend.Session.Types.{RequestUser}
use manbaa_backend.Repository.{find_one}
use manbaa_backend.Canvas.Types.{
  Canvas, CanvasObject, CreateCanvasObjectDto, CreateCanvasOperationDto,
}
use manbaa_backend.Canvas.Service.{
  Env, State, find_canvas_or_throw, append_operation, get_or_create_canvas, canvas_of_workflow,
  find_workflow_in_org, next_operation, organization_of, refers,
}
use manbaa_backend.Canvas.Service.Objects.{
  Ids, object_of, created_payload, deleted_payload, insert_object, lock_object, rewrite_object,
  remove_object,
}
use manbaa_backend.Canvas.Service.Operations.{
  operation_of, commit_operation, accept, object_exists, same_logical_operation,
}
use manbaa_backend.Canvas.Service.Log.{LogStep, silent, opened, appended}

module _ (env : Env) where
  open env use {canvases, operations}

  -- The id of the operation is new.
  abbrev pub IsNew : String → State env → Type 0
  IsNew uuid s = operations.get uuid s.operations ≡ none

  canvas_id_of :
      (id : String) (s : State env) (c : Canvas) → canvases.get id s.canvases ≡ some c → id ≡ c.id
  canvas_id_of id s c there = sym (canvases.key-get id s.canvases c there) ∙ env.canvas_key c

  pub get_or_create-LogStep :
      (uuid workflow_id org_id : String) (s : State env)
      → canvases.get uuid s.canvases ≡ none
      → LogStep env s (get_or_create_canvas env uuid workflow_id org_id s).1
  unfolding get_or_create_canvas
  get_or_create-LogStep uuid workflow_id org_id s new =
      elim (Option-cases (find_workflow_in_org env workflow_id org_id s)) [
        | inl missing ↦ silent (ground arith) (ground arith)
        | inr (w, there) ↦ elim (Option-cases (canvas_of_workflow env w.id s)) [
          | inr (c, found) ↦ silent (ground arith) (ground arith)
          | inl first ↦
              opened (record { id = uuid; workflow_id = w.id; workspace_id = none; revision = 0 })
                new refl (ground arith) (ground arith)
        ]
      ]

  -- Appending to a locked canvas: refused by the service or by the database, or the next operation is written and the revision counted up.
  pub append_cases :
      (uuid : String) (c : Canvas) (object_id : Option String) (user_id op_type : String)
      (payload : Json) (s : State env)
      → let op =
          next_operation env uuid c (organization_of env c s) object_id user_id op_type payload in
        ((e : Failure) × (append_operation env uuid c object_id user_id op_type payload s
            ≡ (err e, s)))
        ⊎ (append_operation env uuid c object_id user_id op_type payload s ≡ (
          ok op,
          record s {
            operations = operations.save op s.operations;
            canvases = canvases.save (record c { revision = suc c.revision }) s.canvases;
          },
        ))
  unfolding append_operation
  append_cases uuid c object_id user_id op_type payload s =
      elim (Bool-cases (not (is_some c.workspace_id) || is_some (organization_of env c s))) [
        | inr refused ↦ inl (not_found "Canvas workflow not found", ground arith)
        | inl granted ↦ elim (Bool-cases (refers env object_id s)) [
          | inr gone ↦ inl (
            error "canvas_operation violates its foreign key to canvas_object",
            rw (granted, gone) refl,
          )
          | inl known ↦ inr (rw (granted, known) refl)
        ]
      ]

  -- The canvas that stands under an id stands under its own.
  stored :
      (id : String) (s : State env) (c : Canvas)
      → canvases.get id s.canvases ≡ some c
      → canvases.get c.id s.canvases ≡ some c
  stored id s c there =
      ap (λ k. canvases.get k s.canvases) (sym (canvas_id_of id s c there)) ∙ there

  pub insert-LogStep :
      (ids : Ids) (canvas_id : String) (dto : CreateCanvasObjectDto) (caller : RequestUser)
      (s : State env)
      → IsNew ids.operation s
      → LogStep env s (insert_object env ids canvas_id dto caller s).1
  unfolding insert_object find_canvas_or_throw
  insert-LogStep ids canvas_id dto caller s new =
      elim (Option-cases (canvases.get canvas_id s.canvases)) [
        | inl missing ↦ silent (ground arith) (ground arith)
        | inr (c, there) ↦
            let o = object_of ids.object canvas_id dto caller.id in
            let s' : State env = record s { objects = env.objects.save o s.objects } in
            elim (append_cases ids.operation c (some o.id) caller.id "object_create"
              (created_payload o) s') [
                | inl (e, refused) ↦ silent (ground arith) (ground arith)
                | inr done ↦
                    appended c
                      (next_operation env ids.operation c (organization_of env c s') (some o.id)
                        caller.id "object_create" (created_payload o))
                      (stored canvas_id s c there) new refl refl (ground arith) (ground arith)
              ]
      ]

  pub lock_cases :
      (object_id canvas_id : String) (caller : RequestUser) (message : String) (s : State env)
      → ((e : Failure) × (lock_object env object_id canvas_id caller message s ≡ (err e, s)))
        ⊎ ((c : Canvas) × (o : CanvasObject) × (canvases.get canvas_id s.canvases ≡ some c)
            × (find_one env.objects object_id (λ x. x.canvas_id == canvas_id) s.objects ≡ some o)
            × ((not o.is_locked || caller.role == "admin") ≡ true)
            × (lock_object env object_id canvas_id caller message s ≡ (ok (c, o), s)))
  unfolding lock_object find_canvas_or_throw
  lock_cases object_id canvas_id caller message s =
      elim (Option-cases (canvases.get canvas_id s.canvases)) [
        | inl missing ↦ inl (not_found "Canvas not found", ground arith)
        | inr (c, there) ↦
            elim (Option-cases
              (find_one env.objects object_id (λ x. x.canvas_id == canvas_id) s.objects)) [
                | inl missing ↦ inl (not_found "Canvas object not found", ground arith)
                | inr (o, found) ↦ elim (Bool-cases (not o.is_locked || caller.role == "admin")) [
                  | inr locked ↦ inl (forbidden message, ground arith)
                  | inl free ↦ inr (c, o, there, found, free, ground arith)
                ]
              ]
      ]

  pub rewrite-LogStep :
      (uuid object_id canvas_id : String) (caller : RequestUser) (message : String)
      (change : CanvasObject → CanvasObject) (op_type : String) (payload : CanvasObject → Json)
      (s : State env)
      → IsNew uuid s
      → LogStep env s
          (rewrite_object env uuid object_id canvas_id caller message change op_type payload s).1
  unfolding rewrite_object
  rewrite-LogStep uuid object_id canvas_id caller message change op_type payload s new =
      elim (lock_cases object_id canvas_id caller message s) [
        | inl (e, refused) ↦ silent (ground arith) (ground arith)
        | inr (c, o, there, found, free, locked) ↦
            let o' = change o in
            let s' : State env = record s { objects = env.objects.save o' s.objects } in
            elim (append_cases uuid c (some o'.id) caller.id op_type (payload o') s') [
              | inl (e, refused) ↦ silent (ground arith) (ground arith)
              | inr done ↦
                  appended c
                    (next_operation env uuid c (organization_of env c s') (some o'.id) caller.id
                      op_type (payload o'))
                    (stored canvas_id s c there) new refl refl (ground arith) (ground arith)
            ]
      ]

  pub remove-LogStep :
      (uuid object_id canvas_id : String) (caller : RequestUser) (s : State env)
      → IsNew uuid s
      → LogStep env s (remove_object env uuid object_id canvas_id caller s).1
  unfolding remove_object
  remove-LogStep uuid object_id canvas_id caller s new =
      elim (lock_cases object_id canvas_id caller "Cannot delete a locked object" s) [
        | inl (e, refused) ↦ silent (ground arith) (ground arith)
        | inr (c, o, there, found, free, locked) ↦
            let s' : State env = record s {
              objects = env.objects_removing.remove (env.objects.key o) s.objects;
            } in
            elim (append_cases uuid c (some object_id) caller.id "object_delete" (deleted_payload o)
              s') [
                | inl (e, refused) ↦ silent (ground arith) (ground arith)
                | inr done ↦
                    appended c
                      (next_operation env uuid c (organization_of env c s') (some object_id)
                        caller.id "object_delete" (deleted_payload o))
                      (stored canvas_id s c there) new refl refl (ground arith) (ground arith)
              ]
      ]

  pub commit-LogStep :
      (canvas : Canvas) (dto : CreateCanvasOperationDto) (caller : RequestUser) (s : State env)
      → LogStep env s (commit_operation env canvas dto caller s).1
  unfolding commit_operation accept find_canvas_or_throw
  commit-LogStep canvas dto caller s = elim (Option-cases (canvases.get canvas.id s.canvases)) [
    | inl missing ↦ silent (ground arith) (ground arith)
    | inr (c, there) ↦ elim (Option-cases (operations.get dto.operation_id s.operations)) [
      | inr (op, old) ↦ elim (Bool-cases (same_logical_operation env op canvas dto caller)) [
        | inl same ↦ silent (ground arith) (ground arith)
        | inr other ↦ silent (ground arith) (ground arith)
      ]
      | inl new ↦ elim (Bool-cases (eqb dto.client_revision c.revision)) [
        | inr behind ↦ silent (ground arith) (ground arith)
        | inl current ↦ elim (Bool-cases (object_exists env dto.canvas_object_id canvas.id s)) [
          | inr missing ↦ silent (ground arith) (ground arith)
          | inl exists ↦
              appended c (operation_of env canvas c dto caller) (stored canvas.id s c there) new
                (canvas_id_of canvas.id s c there) refl (ground arith) (ground arith)
        ]
      ]
    ]
  ]
