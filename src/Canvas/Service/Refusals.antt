-- ===== src/Canvas/Service/Refusals.antt =====
-- What the methods on an object of src/modules/canvas/services/canvas.service.ts refuse.
use manbaa_backend.Base.{
  String, ◌≡◌, ◌⊎◌, refl, inl, inr, true, false, some, arith, Option-cases, ◌==◌,
}
use manbaa_backend.Exec.{Exec, Failure, Result-cases, ok, err, not_found}
use manbaa_backend.Json.{Json}
use manbaa_backend.Session.Types.{RequestUser}
use manbaa_backend.Canvas.Types.{
  Workflow, Canvas, CanvasObject, UpdateCanvasObjectDto, MoveCanvasObjectDto,
}
use manbaa_backend.Canvas.Service.{
  Env, State, find_canvas_or_throw, find_object_in_org_or_throw, resolve_workflow_id,
  workflow_of_canvas, require_canvas_mutation_permission, may_mutate,
}
use manbaa_backend.Canvas.Service.Objects.{
  edited, updated_payload, moved_payload, lock_object, open_object, rewrite_object, remove_object,
  update_object, move_object, delete_object,
}
use manbaa_backend.Canvas.Service.Log.Steps.{lock_cases}

module _ (env : Env) where
  -- The call throws and leaves everything as it was.
  abbrev pub IsRefused : {A : Type 0} → Exec (State env) A → State env → Type 0
  IsRefused m s = (e : Failure) × (m s ≡ (err e, s))

  -- Before its transaction a method on an object only reads: the object is stored, its canvas belongs to the
  -- caller's organisation, and the caller may change the canvas.
  open_cases :
      (object_id : String) (caller : RequestUser) (s : State env)
      → IsRefused (open_object env object_id caller) s
        ⊎ ((o : CanvasObject) × (c : Canvas) × (env.objects.get object_id s.objects ≡ some o)
            × (env.canvases.get o.canvas_id s.canvases ≡ some c)
            × (may_mutate env c.workspace_id caller ≡ ok tt)
            × (open_object env object_id caller s ≡ (ok (o, c), s)))
  unfolding open_object find_object_in_org_or_throw resolve_workflow_id find_canvas_or_throw
      require_canvas_mutation_permission
  open_cases object_id caller s = elim (Option-cases (env.objects.get object_id s.objects)) [
    | inl missing ↦ inl (not_found "Canvas object not found", ground arith)
    | inr (o, there) ↦ elim (Option-cases (workflow_of_canvas env o.canvas_id caller.org_id s)) [
      | inl foreign ↦ inl (not_found "Canvas not found", ground arith)
      | inr (w, of_org) ↦ elim (Option-cases (env.canvases.get o.canvas_id s.canvases)) [
        | inl missing ↦ inl (not_found "Canvas not found", ground arith)
        | inr (c, found) ↦ elim (Result-cases (may_mutate env c.workspace_id caller)) [
          | inl (u, granted) ↦ inr (o, c, there, found, granted, ground arith)
          | inr (e, refused) ↦ inl (e, ground arith)
        ]
      ]
    ]
  ]

  abbrev IsAllRefused :
      String
      → String
      → UpdateCanvasObjectDto
      → MoveCanvasObjectDto
      → RequestUser
      → State env
      → Type 0
  IsAllRefused uuid object_id dto target caller s =
      IsRefused (update_object env uuid object_id dto caller) s
      × IsRefused (move_object env uuid object_id target caller) s
      × IsRefused (delete_object env uuid object_id caller) s

  not_opened :
      (uuid object_id : String) (dto : UpdateCanvasObjectDto) (target : MoveCanvasObjectDto)
      (caller : RequestUser) (s : State env)
      → IsRefused (open_object env object_id caller) s
      → IsAllRefused uuid object_id dto target caller s
  unfolding update_object move_object delete_object
  not_opened uuid object_id dto target caller s (e, refused) =
      ((e, rw refused refl), (e, rw refused refl), (e, rw refused refl))

  rewrite_refused :
      (uuid object_id canvas_id : String) (caller : RequestUser) (message : String)
      (change : CanvasObject → CanvasObject) (op_type : String) (payload : CanvasObject → Json)
      (s : State env) (e : Failure)
      → lock_object env object_id canvas_id caller message s ≡ (err e, s)
      → rewrite_object env uuid object_id canvas_id caller message change op_type payload s
        ≡ (err e, s)
  unfolding rewrite_object
  rewrite_refused uuid object_id canvas_id caller message change op_type payload s e refused =
      ground arith

  remove_refused :
      (uuid object_id canvas_id : String) (caller : RequestUser) (s : State env) (e : Failure)
      → lock_object env object_id canvas_id caller "Cannot delete a locked object" s ≡ (err e, s)
      → remove_object env uuid object_id canvas_id caller s ≡ (err e, s)
  unfolding remove_object
  remove_refused uuid object_id canvas_id caller s e refused = ground arith

  not_locked :
      (uuid object_id : String) (dto : UpdateCanvasObjectDto) (target : MoveCanvasObjectDto)
      (caller : RequestUser) (s : State env) (o : CanvasObject) (c : Canvas)
      → open_object env object_id caller s ≡ (ok (o, c), s)
      → ((message : String) → IsRefused (lock_object env object_id c.id caller message) s)
      → IsAllRefused uuid object_id dto target caller s
  unfolding update_object move_object delete_object
  not_locked uuid object_id dto target caller s o c opened refused =
      let (e, update) = refused "Cannot modify a locked object" in
      let (e', move) = refused "Cannot move a locked object" in
      let (e'', delete) = refused "Cannot delete a locked object" in
      (
        (
          e,
          rw
              (
                opened,
                rewrite_refused uuid object_id c.id caller "Cannot modify a locked object"
                    (edited dto) "object_update" updated_payload s e update,
              )
              refl,
        ),
        (
          e',
          rw
              (
                opened,
                rewrite_refused uuid object_id c.id caller "Cannot move a locked object"
                    (λ x. record x {
                      position_x = target.position_x;
                      position_y = target.position_y;
                    })
                    "object_move" moved_payload s e' move,
              )
              refl,
        ),
        (e'', rw (opened, remove_refused uuid object_id c.id caller s e'' delete) refl),
      )

  -- A locked object is not edited, moved or deleted for anyone but an admin: the three methods throw and
  -- leave everything as it was.
  pub locked_object :
      (uuid object_id : String) (dto : UpdateCanvasObjectDto) (target : MoveCanvasObjectDto)
      (caller : RequestUser) (s : State env) (o : CanvasObject)
      → env.objects.get object_id s.objects ≡ some o
      → o.is_locked ≡ true
      → (caller.role == "admin") ≡ false
      → IsAllRefused uuid object_id dto target caller s
  locked_object uuid object_id dto target caller s o there locked no_admin =
      elim (open_cases object_id caller s) [
        | inl refused ↦ not_opened uuid object_id dto target caller s refused
        | inr (o', c, there', found, granted, opened) ↦
            not_locked uuid object_id dto target caller s o' c opened (λ message.
              elim (lock_cases env object_id c.id caller message s) [
                | inl refused ↦ refused
                | inr (c', x, canvas, found', free, _) ↦
                    let same : x ≡ o = ground arith in absurd (ground (arith, same))
              ])
      ]

  foreign_open :
      (object_id : String) (caller : RequestUser) (s : State env) (o : CanvasObject) (c : Canvas)
      (w : Workflow)
      → env.objects.get object_id s.objects ≡ some o
      → env.canvases.get o.canvas_id s.canvases ≡ some c
      → env.workflows.get c.workflow_id s.workflows ≡ some w
      → (w.org_id == caller.org_id) ≡ false
      → open_object env object_id caller s ≡ (err (not_found "Canvas not found"), s)
  unfolding open_object find_object_in_org_or_throw resolve_workflow_id
  foreign_open object_id caller s o c w there canvas workflow foreign = ground arith

  -- An object whose canvas belongs to a workflow of another organisation than the caller's is neither updated,
  -- moved nor deleted: each of the three methods answers that the canvas is not found, and leaves everything
  -- as it was.
  pub foreign_object :
      (uuid object_id : String) (dto : UpdateCanvasObjectDto) (target : MoveCanvasObjectDto)
      (caller : RequestUser) (s : State env) (o : CanvasObject) (c : Canvas) (w : Workflow)
      → env.objects.get object_id s.objects ≡ some o
      → env.canvases.get o.canvas_id s.canvases ≡ some c
      → env.workflows.get c.workflow_id s.workflows ≡ some w
      → (w.org_id == caller.org_id) ≡ false
      → (update_object env uuid object_id dto caller s ≡ (err (not_found "Canvas not found"), s))
        × (move_object env uuid object_id target caller s ≡ (err (not_found "Canvas not found"), s))
        × (delete_object env uuid object_id caller s ≡ (err (not_found "Canvas not found"), s))
  unfolding update_object move_object delete_object
  foreign_object uuid object_id dto target caller s o c w there canvas workflow foreign =
      let refused = foreign_open object_id caller s o c w there canvas workflow foreign in
      (rw refused refl, rw refused refl, rw refused refl)
