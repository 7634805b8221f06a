-- ===== src/Canvas/Service/Replay.antt =====
-- What becomes of a request for an operation that comes again, or that comes too late:
-- src/modules/canvas/services/canvas.service.ts.
use manbaa_backend.Base.{
  suc, String, ◌≡◌, refl, sym, ap, ◌∙◌, inl, inr, true, false, Option, none, some, arith, eq_refl,
  Bool-cases, Option-cases, eqb,
}
use manbaa_backend.Exec.{ok}
use manbaa_backend.Json.{Json}
use manbaa_backend.Session.Types.{RequestUser}
use manbaa_backend.Canvas.Types.{Canvas, CanvasOperation, CreateCanvasOperationDto}
use manbaa_backend.Canvas.Service.{Env, State, find_canvas_or_throw}
use manbaa_backend.Canvas.Service.Operations.{
  Outcome, operation_of, object_exists, accept, commit_operation, same_logical_operation, same_text,
  same_json,
}

same_text_self : (o : Option String) → same_text o o ≡ true
same_text_self none = refl
same_text_self (some a) = eq_refl a

module _ (env : Env) where
  open env use {canvases, operations}

  same_json_self : (o : Option Json) → same_json env o o ≡ true
  same_json_self none = refl
  same_json_self (some j) = env.deep_equal_self j

  -- An operation is accepted only on the revision that the client knows, under an id that is new.
  accepted_cases :
      (canvas : Canvas) (dto : CreateCanvasOperationDto) (caller : RequestUser) (s t : State env)
      (op : CanvasOperation) (next : Canvas)
      → commit_operation env canvas dto caller s ≡ (ok (Outcome.accepted op next), t)
      → (c : Canvas) × (canvases.get canvas.id s.canvases ≡ some c)
        × (dto.client_revision ≡ c.revision)
        × (op ≡ operation_of env canvas c dto caller)
        × (next ≡ record c { revision = suc c.revision })
        × (t ≡ record s {
          operations = operations.save op s.operations;
          canvases = canvases.save next s.canvases;
        })
  unfolding commit_operation accept find_canvas_or_throw
  accepted_cases canvas dto caller s t op next h =
      elim (Option-cases (canvases.get canvas.id s.canvases)) [
        | inl missing ↦ absurd (ground (arith, h))
        | inr (c, there) ↦ elim (Option-cases (operations.get dto.operation_id s.operations)) [
          | inr (old, known) ↦
              elim (Bool-cases (same_logical_operation env old canvas dto caller)) [
                | inl same ↦ absurd (ground (arith, h))
                | inr other ↦ absurd (ground (arith, h))
              ]
          | inl new ↦ elim (Bool-cases (eqb dto.client_revision c.revision)) [
            | inr behind ↦ absurd (ground (arith, h))
            | inl current ↦ elim (Bool-cases (object_exists env dto.canvas_object_id canvas.id s)) [
              | inr missing ↦ absurd (ground (arith, h))
              | inl exists ↦
                  (c, there, ground arith, ground (arith, h), ground (arith, h), ground (arith, h))
            ]
          ]
        ]
      ]

  -- `sameLogicalOperation` holds of the operation that a request has made.
  same-operation_of :
      (canvas now c : Canvas) (dto : CreateCanvasOperationDto) (caller : RequestUser)
      → now.id ≡ canvas.id
      → now.workspace_id ≡ c.workspace_id
      → dto.client_revision ≡ c.revision
      → same_logical_operation env (operation_of env canvas c dto caller) now dto caller ≡ true
  unfolding same_logical_operation
  same-operation_of canvas now c dto caller same same_space current = ground (
    arith,
    eq_refl canvas.id,
    same_text_self dto.canvas_object_id,
    eq_refl caller.id,
    eq_refl dto.op_type,
    same_text_self c.workspace_id,
    eq_refl caller.org_id,
    env.deep_equal_self dto.op_payload,
    same_json_self dto.version_vector,
  )

  known_again :
      (canvas c : Canvas) (op : CanvasOperation) (dto : CreateCanvasOperationDto)
      (caller : RequestUser) (s : State env)
      → canvases.get canvas.id s.canvases ≡ some c
      → operations.get dto.operation_id s.operations ≡ some op
      → same_logical_operation env op canvas dto caller ≡ true
      → commit_operation env canvas dto caller s ≡ (ok (Outcome.duplicate op c), s)
  unfolding commit_operation find_canvas_or_throw
  known_again canvas c op dto caller s there known fits = ground arith

  behind :
      (canvas c : Canvas) (dto : CreateCanvasOperationDto) (caller : RequestUser) (s : State env)
      → canvases.get canvas.id s.canvases ≡ some c
      → operations.get dto.operation_id s.operations ≡ none
      → eqb dto.client_revision c.revision ≡ false
      → commit_operation env canvas dto caller s ≡ (ok (Outcome.revision_conflict c.revision), s)
  unfolding commit_operation find_canvas_or_throw
  behind canvas c dto caller s there new late = ground arith

  -- A request whose operation was accepted, when it comes again from the same user on the same canvas, is
  -- answered with that operation and changes nothing, however far the canvas has moved on, if the row of the
  -- operation is unchanged, the canvas is still stored and belongs to the same workspace, or to none, as it
  -- did then.
  pub accepted_again :
      (canvas now c : Canvas) (dto : CreateCanvasOperationDto) (caller : RequestUser)
      (s t u : State env) (op : CanvasOperation) (next : Canvas)
      → commit_operation env canvas dto caller s ≡ (ok (Outcome.accepted op next), t)
      → operations.get dto.operation_id u.operations ≡ operations.get dto.operation_id t.operations
      → canvases.get now.id u.canvases ≡ some c
      → now.id ≡ canvas.id
      → now.workspace_id ≡ next.workspace_id
      → commit_operation env now dto caller u ≡ (ok (Outcome.duplicate op c), u)
  accepted_again canvas now c dto caller s t u op next h kept there same same_space =
      let (c', old, current, is_op, is_next, is_t) =
        accepted_cases canvas dto caller s t op next h in
      let made = operation_of env canvas c' dto caller in
      let stored : operations.get dto.operation_id u.operations ≡ some made =
        kept
        ∙ (ap (λ (x : State env). operations.get dto.operation_id x.operations) is_t
            ∙ (operations.get-save op s.operations dto.operation_id
                ∙ ground (arith, env.operation_key made, eq_refl dto.operation_id, is_op))) in
      let fits =
        same-operation_of canvas now c' dto caller same
          (same_space ∙ ap (λ (x : Canvas). x.workspace_id) is_next) current in
      known_again now c made dto caller u there stored fits
      ∙ ap (λ x. (ok (Outcome.duplicate x c), u)) (sym is_op)

  -- Of two clients that write on one revision, the second is told the revision that the canvas has by then,
  -- and nothing changes, if its operation is another one.
  pub accepted_first :
      (canvas now : Canvas) (dto other : CreateCanvasOperationDto) (caller user : RequestUser)
      (s t : State env) (op : CanvasOperation) (next : Canvas)
      → commit_operation env canvas dto caller s ≡ (ok (Outcome.accepted op next), t)
      → now.id ≡ canvas.id
      → other.client_revision ≡ dto.client_revision
      → operations.get other.operation_id t.operations ≡ none
      → commit_operation env now other user t
        ≡ (ok (Outcome.revision_conflict (suc dto.client_revision)), t)
  accepted_first canvas now dto other caller user s t op next h same level new =
      let (c', old, current, is_op, is_next, is_t) =
        accepted_cases canvas dto caller s t op next h in
      let id_next : canvases.key next ≡ now.id =
        env.canvas_key next
        ∙ (ap (λ (x : Canvas). x.id) is_next
            ∙ (sym (env.canvas_key c')
                ∙ (canvases.key-get canvas.id s.canvases c' old ∙ sym same))) in
      let level_next : next.revision ≡ suc dto.client_revision =
        ap (λ (x : Canvas). x.revision) is_next ∙ ap suc (sym current) in
      let here : canvases.get now.id t.canvases ≡ some next =
        ap (λ (x : State env). canvases.get now.id x.canvases) is_t
        ∙ (canvases.get-save next s.canvases now.id ∙ ground (arith, id_next, eq_refl now.id)) in
      behind now next other user t here new (ground (arith, level, level_next))
      ∙ ap (λ n. (ok (Outcome.revision_conflict n), t)) level_next
