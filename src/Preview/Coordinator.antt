-- ===== src/Preview/Coordinator.antt =====
-- src/modules/canvas/services/canvas-ai-preview-coordinator.service.ts. The handler, a closure of the
-- caller, is an element of a type that the model leaves open; a call of it is entered in `triggered`.
-- The timers of the clock are the list `timers`: `setTimeout` gives a handle that was not given before.
pub mod Armed
pub mod Timers
pub mod Debounce
mod Tests
use manbaa_backend.Base.{
  ℕ, suc, ◌+◌, ◌-◌, min, String, Bool, true, false, not, Option, none, some, List, [], ◌∷◌,
  if◌then◌else◌, ◌==◌, eqb, leb, ltb, find, select, length, ◌++◌, ◌&&◌,
}
use manbaa_backend.Exec.{Result, ok, err, error}

pub data Reason : Type 0 where
  debounce max_debounce explicit : Reason

pub record Trigger : Type 0 where
  pub canvas_id : String
  pub revision : ℕ
  pub reason : Reason

-- The settings, after `configService.get` has put its defaults.
pub record Config : Type 0 where
  pub debounce_ms : ℕ
  pub max_debounce_ms : ℕ
  pub auto_preview_enabled : Bool

-- The check of the constructor; a `RangeError` is an `Error`.
unfoldable pub checked : Config → Result Config
checked config =
    if ltb config.max_debounce_ms config.debounce_ms
    then err
        (error "CANVAS_AI_MAX_DEBOUNCE_MS must be greater than or equal to CANVAS_AI_DEBOUNCE_MS")
    else ok config

-- `reason`, from `dueAt` and `maxDueAt`
abbrev pub reason_for : ℕ → ℕ → Reason
reason_for due_at max_due_at = if eqb due_at max_due_at then max_debounce else debounce

module _ (Handler : Type 0) where
  pub record PendingPreview : Type 0 where
    pub timer : ℕ
    pub first_edit_at : ℕ
    pub due_at : ℕ
    pub revision : ℕ
    pub handler : Handler

  -- A timer that is armed: what its callback closes over, and the time from which it may run.
  pub record Timer : Type 0 where
    pub canvas_id : String
    pub pending : PendingPreview
    pub reason : Reason
    pub runs_at : ℕ

  pub record State : Type 0 where
    pub pending : List (String × PendingPreview)
    pub timers : List Timer
    pub next_timer : ℕ
    pub triggered : List (Handler × Trigger)

module _ {Handler : Type 0} where
  -- `Map.get`, `Map.delete` and `Map.set`; the order of the keys is not read.
  abbrev pub lookup :
      String → List (String × PendingPreview Handler) → Option (PendingPreview Handler)
  lookup canvas_id [] = none
  lookup canvas_id ((k, p) ∷ ps) =
      let rest = lookup canvas_id ps in if k == canvas_id then some p else rest

  abbrev pub without :
      String → List (String × PendingPreview Handler) → List (String × PendingPreview Handler)
  without canvas_id [] = []
  without canvas_id ((k, p) ∷ ps) =
      let rest = without canvas_id ps in if k == canvas_id then rest else (k, p) ∷ rest

  abbrev pub put :
      String
      → PendingPreview Handler
      → List (String × PendingPreview Handler)
      → List (String × PendingPreview Handler)
  put canvas_id p ps = (canvas_id, p) ∷ without canvas_id ps

  -- `clearTimeout`
  abbrev pub clear : ℕ → List (Timer Handler) → List (Timer Handler)
  clear timer ts = select (λ (t : Timer Handler). not (eqb t.pending.timer timer)) ts

  -- `clearTimeout(existing.timer)` for what was looked up
  abbrev pub clear_existing :
      Option (PendingPreview Handler) → List (Timer Handler) → List (Timer Handler)
  clear_existing none ts = ts
  clear_existing (some p) ts = clear p.timer ts

  -- `existing?.firstEditAt ?? now`
  abbrev pub first_edit : Option (PendingPreview Handler) → ℕ → ℕ
  first_edit none now = now
  first_edit (some p) now = p.first_edit_at

  -- The entry that an edit makes.
  abbrev pub entry :
      Config → ℕ → ℕ → Handler → Option (PendingPreview Handler) → ℕ → PendingPreview Handler
  entry config now revision handler existing timer = record {
    timer = timer;
    first_edit_at = first_edit existing now;
    due_at = min (now + config.debounce_ms) (first_edit existing now + config.max_debounce_ms);
    revision = revision;
    handler = handler;
  }

  -- The timer for it: `Math.max(0, dueAt - now)` is the subtraction of natural numbers.
  abbrev pub timer_for : Config → ℕ → String → PendingPreview Handler → Timer Handler
  timer_for config now canvas_id p = record {
    canvas_id = canvas_id;
    pending = p;
    reason = reason_for p.due_at (p.first_edit_at + config.max_debounce_ms);
    runs_at = now + (p.due_at - now);
  }

  -- `now` is what the clock says; the answer is `dueAt` if a preview was scheduled.
  unfoldable pub schedule_edit :
      Config → ℕ → String → ℕ → Handler → State Handler → Option ℕ × State Handler
  schedule_edit config now canvas_id revision handler s =
      let existing = lookup canvas_id s.pending in
      let pending = entry config now revision handler existing s.next_timer in
      if config.auto_preview_enabled
      then (
        some pending.due_at,
        record s {
          pending = put canvas_id pending s.pending;
          timers = timer_for config now canvas_id pending ∷ clear_existing existing s.timers;
          next_timer = suc s.next_timer;
        },
      )
      else (none, s)

  unfoldable pub cancel : String → State Handler → Bool × State Handler
  cancel canvas_id s = elim (lookup canvas_id s.pending) [
    | none ↦ (false, s)
    | some existing ↦ (
      true,
      record s { timers = clear existing.timer s.timers; pending = without canvas_id s.pending },
    )
  ]

  abbrev pub invoke : Handler → Trigger → State Handler → State Handler
  invoke handler trigger s = record s { triggered = s.triggered ++ (handler, trigger) ∷ [] }

  unfoldable pub trigger_explicit : String → ℕ → Handler → State Handler → State Handler
  trigger_explicit canvas_id revision handler s =
      let (found, cancelled) = cancel canvas_id s in
      invoke handler record { canvas_id = canvas_id; revision = revision; reason = explicit }
        cancelled

  abbrev pub trigger_of : Timer Handler → Trigger
  trigger_of t = record {
    canvas_id = t.canvas_id;
    revision = t.pending.revision;
    reason = t.reason;
  }

  -- `this.pending.get(canvasId) === pending`: an entry is told by its timer, which is made with it.
  abbrev pub is_current : Timer Handler → Option (PendingPreview Handler) → Bool
  is_current t none = false
  is_current t (some p) = eqb p.timer t.pending.timer

  -- The callback of `setTimeout`.
  unfoldable pub callback : Timer Handler → State Handler → State Handler
  callback t s =
      let deleted = record s { pending = without t.canvas_id s.pending } in
      if is_current t (lookup t.canvas_id s.pending)
      then invoke t.pending.handler (trigger_of t) deleted
      else s

  -- The timer has this handle, and its time has come.
  abbrev pub fires : ℕ → ℕ → Timer Handler → Bool
  fires now timer t = eqb t.pending.timer timer && leb t.runs_at now

  -- The clock runs the armed timer with this handle, if its time has come.
  unfoldable pub fire : ℕ → ℕ → State Handler → State Handler
  fire now timer s = elim (find (fires now timer) s.timers) [
    | none ↦ s
    | some t ↦ callback t (record s { timers = clear timer s.timers })
  ]

  abbrev pub shown : Option (PendingPreview Handler) → Option (ℕ × ℕ × ℕ)
  shown none = none
  shown (some p) = some (p.revision, p.first_edit_at, p.due_at)

  unfoldable pub get_pending : String → State Handler → Option (ℕ × ℕ × ℕ)
  get_pending canvas_id s = shown (lookup canvas_id s.pending)

  unfoldable pub get_pending_count : State Handler → ℕ
  get_pending_count s = length s.pending
