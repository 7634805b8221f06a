-- ===== src/Canvas/Service/Log.antt =====
-- The log of a canvas as a specification of its own: what may happen to the revision and to the
-- operations, one step at a time.
pub mod Numbering
pub mod Steps
pub mod Quiet
pub mod Runs
pub mod Commands
use manbaa_backend.Base.{
  ℕ, suc, ◌≤◌, String, ◌≡◌, ◌⊎◌, refl, sym, ap, ◌∙◌, inl, inr, Option, none, some, arith, eq_iff,
  Bool-cases, ◌==◌, if◌then◌else◌, subst,
}
use manbaa_backend.Repository.{Put, save-Put}
use manbaa_backend.Canvas.Types.{Canvas, CanvasOperation}
use manbaa_backend.Canvas.Service.{Env, State}

module _ (env : Env) where
  open env use {canvases, operations}

  -- Nothing happens to the log, a canvas without operations is opened, or an operation is appended under
  -- the next number.
  pub data LogStep (s t : State env) : Type 0 where
    silent : t.canvases ≡ s.canvases → t.operations ≡ s.operations → LogStep s t
    opened :
        (c : Canvas)
        → canvases.get c.id s.canvases ≡ none
        → c.revision ≡ 0
        → t.canvases ≡ canvases.save c s.canvases
        → t.operations ≡ s.operations
        → LogStep s t
    appended :
        (c : Canvas) (op : CanvasOperation)
        → canvases.get c.id s.canvases ≡ some c
        → operations.get op.id s.operations ≡ none
        → op.canvas_id ≡ c.id
        → op.sequence_number ≡ suc c.revision
        → t.canvases ≡ canvases.save (record c { revision = suc c.revision }) s.canvases
        → t.operations ≡ operations.save op s.operations
        → LogStep s t

  -- Any number of such steps.
  pub data LogRun (s : State env) : State env → Type 0 where
    still : LogRun s s
    more : {t u : State env} → LogRun s t → LogStep t u → LogRun s u

  -- The canvas of an operation, with a revision that has reached its number.
  pub record Placed (s : State env) (op : CanvasOperation) : Type 0 where
    pub canvas : Canvas
    pub found : canvases.get op.canvas_id s.canvases ≡ some canvas
    pub positive : 1 ≤ op.sequence_number
    pub reached : op.sequence_number ≤ canvas.revision

  -- The operations of a canvas are numbered from one to its revision, with no gap and no number twice.
  pub record IsLog (s : State env) : Type 0 where
    pub placed :
        (j : String) (op : CanvasOperation) → operations.get j s.operations ≡ some op → Placed s op
    pub distinct :
        (i j : String) (a b : CanvasOperation)
        → operations.get i s.operations ≡ some a
        → operations.get j s.operations ≡ some b
        → a.canvas_id ≡ b.canvas_id
        → a.sequence_number ≡ b.sequence_number
        → i ≡ j
    pub dense :
        (k : String) (c : Canvas) (n : ℕ)
        → canvases.get k s.canvases ≡ some c
        → 1 ≤ n
        → n ≤ c.revision
        → (j : String) × (op : CanvasOperation) × (operations.get j s.operations ≡ some op)
          × (op.canvas_id ≡ k)
          × (op.sequence_number ≡ n)
