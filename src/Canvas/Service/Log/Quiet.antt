-- ===== src/Canvas/Service/Log/Quiet.antt =====
-- The calls of src/modules/canvas/services/canvas.service.ts that leave the canvases and the operations alone.
use manbaa_backend.Base.{
  String, ◌≡◌, refl, ◌∙◌, inl, inr, Bool, true, false, Option, none, some, arith, Bool-cases,
  Option-cases, ◌==◌, ◌||◌,
}
use manbaa_backend.Exec.{Exec, Result-cases, Failure, ◌>>=◌, pure, gets, guard, require, not_found}
use manbaa_backend.Session.Types.{RequestUser}
use manbaa_backend.Canvas.Types.{
  Canvas, CreateCanvasOperationDto, CanvasSnapshot, WorkflowVersion, CanvasVersion, Effect,
  AuditEvent,
}
use manbaa_backend.Canvas.Service.{
  Env, State, emit, find_workflow_in_org, canvas_of_workflow, find_canvas_or_throw,
  resolve_workflow_id, workflow_of_canvas, find_object_in_org_or_throw, get_canvas,
  find_workflow_in_org_or_throw, require_canvas_mutation_permission,
}
use manbaa_backend.Canvas.Service.Objects.{open_object, announce}
use manbaa_backend.Canvas.Service.Operations.{Outcome, report}
use manbaa_backend.Canvas.Service.Commits.{
  create_snapshot, commit_canvas, objects_of, write_commit, snapshot_of, version_of,
  canvas_version_of,
}

module _ (env : Env) where
  open env use {canvases, operations}

  unfoldable pub IsQuiet : {A : Type 0} → Exec (State env) A → Type 0
  IsQuiet m =
      (s : State env) → ((m s).1.canvases ≡ s.canvases) × ((m s).1.operations ≡ s.operations)

  pub bind-IsQuiet :
      {A B : Type 0} (m : Exec (State env) A) (f : A → Exec (State env) B)
      → IsQuiet m
      → ((a : A) → IsQuiet (f a))
      → IsQuiet (m >>= f)
  unfolding IsQuiet
  bind-IsQuiet m f quiet quiets s = elim (Result-cases (m s).0) [
    | inl (a, e) ↦ let h = quiet s in let h' = quiets a (m s).1 in rw e (h'.0 ∙ h.0, h'.1 ∙ h.1)
    | inr (x, e) ↦ rw e (quiet s)
  ]

  pub find-IsQuiet : (id : String) → IsQuiet (find_canvas_or_throw env id)
  unfolding IsQuiet find_canvas_or_throw
  find-IsQuiet id s = elim (Option-cases (canvases.get id s.canvases)) [
    | inl missing ↦ (ground arith, ground arith)
    | inr (c, there) ↦ (ground arith, ground arith)
  ]

  pub resolve-IsQuiet : (id org_id : String) → IsQuiet (resolve_workflow_id env id org_id)
  unfolding IsQuiet resolve_workflow_id
  resolve-IsQuiet id org_id s = elim (Option-cases (workflow_of_canvas env id org_id s)) [
    | inl missing ↦ (ground arith, ground arith)
    | inr (c, there) ↦ (ground arith, ground arith)
  ]

  pub permit-IsQuiet :
      (c : Canvas) (caller : RequestUser)
      → IsQuiet (require_canvas_mutation_permission env c caller)
  unfolding IsQuiet require_canvas_mutation_permission
  permit-IsQuiet c caller s = (refl, refl)

  pub gets-IsQuiet : {A : Type 0} (f : State env → A) → IsQuiet (gets f)
  unfolding IsQuiet
  gets-IsQuiet f s = (refl, refl)

  pub pure-IsQuiet : {A : Type 0} (a : A) → IsQuiet (pure {S = State env} a)
  unfolding IsQuiet
  pure-IsQuiet a s = (refl, refl)

  pub require-IsQuiet :
      {A : Type 0} (o : Option A) (e : Failure) → IsQuiet (require {S = State env} o e)
  unfolding IsQuiet
  require-IsQuiet none e s = (refl, refl)
  require-IsQuiet (some a) e s = (refl, refl)

  pub guard-IsQuiet : (b : Bool) (e : Failure) → IsQuiet (guard b e)
  unfolding IsQuiet
  guard-IsQuiet true e s = (refl, refl)
  guard-IsQuiet false e s = (refl, refl)

  pub emit-IsQuiet : (e : Effect) → IsQuiet (emit env e)
  unfolding IsQuiet
  emit-IsQuiet e s = (refl, refl)

  pub open-IsQuiet :
      (object_id : String) (caller : RequestUser) → IsQuiet (open_object env object_id caller)
  unfolding open_object find_object_in_org_or_throw
  open-IsQuiet object_id caller =
      bind-IsQuiet _ _
        (bind-IsQuiet _ _ (gets-IsQuiet _) (λ found.
          bind-IsQuiet _ _ (require-IsQuiet found (not_found "Canvas object not found")) (λ o.
            bind-IsQuiet _ _ (resolve-IsQuiet o.canvas_id caller.org_id) (λ _. pure-IsQuiet o))))
        (λ o.
          bind-IsQuiet _ _ (find-IsQuiet o.canvas_id)
            (λ c. bind-IsQuiet _ _ (permit-IsQuiet c caller) (λ _. pure-IsQuiet (o, c))))

  pub announce-IsQuiet :
      (object_id canvas_id : String) (caller : RequestUser) (event : AuditEvent)
      (message : String → Effect)
      → IsQuiet (announce env object_id canvas_id caller event message)
  unfolding announce
  announce-IsQuiet object_id canvas_id caller event message =
      bind-IsQuiet _ _ (resolve-IsQuiet canvas_id caller.org_id) (λ w.
        bind-IsQuiet _ _ (emit-IsQuiet (Effect.audit w (some caller.id) event object_id))
          (λ _. emit-IsQuiet (message w)))

  pub report-IsQuiet :
      (canvas : Canvas) (dto : CreateCanvasOperationDto) (caller : RequestUser) (o : Outcome env)
      → IsQuiet (report env canvas dto caller o)
  unfolding report IsQuiet
  report-IsQuiet canvas dto caller (Outcome.duplicate op locked) s = (refl, refl)
  report-IsQuiet canvas dto caller (Outcome.accepted op locked) s =
      elim (Option-cases locked.workspace_id) [
        | inl away ↦ (ground arith, ground arith)
        | inr (w, there) ↦ (ground arith, ground arith)
      ]
  report-IsQuiet canvas dto caller (Outcome.revision_conflict n) s =
      elim (Option-cases canvas.workspace_id) [
        | inl away ↦ (ground arith, ground arith)
        | inr (w, there) ↦ (ground arith, ground arith)
      ]

  pub workflow-IsQuiet :
      (id org_id : String) → IsQuiet (find_workflow_in_org_or_throw env id org_id)
  unfolding find_workflow_in_org_or_throw
  workflow-IsQuiet id org_id =
      bind-IsQuiet (gets (find_workflow_in_org env id org_id)) _ (gets-IsQuiet _)
        (λ found. require-IsQuiet found (not_found "Workflow not found"))

  pub canvas-IsQuiet : (id org_id : String) → IsQuiet (get_canvas env id org_id)
  unfolding get_canvas
  canvas-IsQuiet id org_id =
      bind-IsQuiet (find_workflow_in_org_or_throw env id org_id) _ (workflow-IsQuiet id org_id)
        (λ w.
          bind-IsQuiet (gets (canvas_of_workflow env w.id)) _ (gets-IsQuiet _)
            (λ found. require-IsQuiet found (not_found "Canvas not found for this workflow")))

  pub snapshot-IsQuiet :
      (uuid workflow_id : String) (trigger : Option String) (caller : RequestUser)
      → IsQuiet (create_snapshot env uuid workflow_id trigger caller)
  unfolding create_snapshot IsQuiet
  snapshot-IsQuiet uuid workflow_id trigger caller s =
      let quiet = canvas-IsQuiet workflow_id caller.org_id s in
      elim (Result-cases (get_canvas env workflow_id caller.org_id s).0) [
        | inl (c, e) ↦ rw e quiet
        | inr (x, e) ↦ rw e quiet
      ]

  pub write-IsQuiet :
      (snapshot : CanvasSnapshot) (version : WorkflowVersion) (canvas_version : CanvasVersion)
      → IsQuiet (write_commit env snapshot version canvas_version)
  unfolding IsQuiet write_commit
  write-IsQuiet taken version canvas_version s =
      elim (Option-cases (env.workflows.get version.workflow_id s.workflows)) [
        | inl missing ↦ (ground arith, ground arith)
        | inr (w, there) ↦ (ground arith, ground arith)
      ]

  pub commit-IsQuiet :
      (uuids : String × String × String) (workflow_id : String) (label : Option String)
      (caller : RequestUser)
      → IsQuiet (commit_canvas env uuids workflow_id label caller)
  unfolding commit_canvas IsQuiet
  commit-IsQuiet (snapshot_id, version_id, canvas_version_id) workflow_id label caller s =
      let s' = (find_workflow_in_org_or_throw env workflow_id caller.org_id s).1 in
      let (same, same') = workflow-IsQuiet workflow_id caller.org_id s in
      elim (Result-cases (find_workflow_in_org_or_throw env workflow_id caller.org_id s).0) [
        | inr (x, e) ↦ rw e (same, same')
        | inl (w, e) ↦ elim (Bool-cases (w.owner_id == caller.id || caller.role == "admin")) [
          | inr refused ↦ rw (e, refused) (same, same')
          | inl granted ↦
              let (same_c, same_c') = canvas-IsQuiet workflow_id caller.org_id s' in
              elim (Result-cases (get_canvas env workflow_id caller.org_id s').0) [
                | inr (x, e') ↦ rw (e, granted, e') (same_c ∙ same, same_c' ∙ same')
                | inl (c, e') ↦
                    let s2 = (get_canvas env workflow_id caller.org_id s').1 in
                    let objects = objects_of env c s2 in
                    let (written, written') =
                      write-IsQuiet (snapshot_of env snapshot_id c objects caller.id "pre-commit")
                        (version_of env version_id w objects caller)
                        (canvas_version_of env (snapshot_id, version_id, canvas_version_id) c label
                          caller)
                        s2 in
                    rw (e, granted, e') (written ∙ (same_c ∙ same), written' ∙ (same_c' ∙ same'))
              ]
        ]
      ]
