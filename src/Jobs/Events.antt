-- ===== src/Jobs/Events.antt =====
-- src/modules/jobs/ai-task-events.service.ts: what a worker reports of a task. The notice, the audit
-- entry and the messages are entered in `effects`.
pub mod Changes
pub mod Processing
pub mod Diagram
pub mod Charges
pub mod Completion
use manbaa_backend.Base.{
  ℕ, ◌+◌, min, max, String, ◌≡◌, Bool, true, false, not, ◌&&◌, Option, none, some, List, [], ◌∷◌,
  ◌++◌, any, ◌==◌, if◌then◌else◌, or_else, slice, keep, eqb, is_some,
}
use manbaa_backend.Exec.{
  Exec, Result, ok, err, error, ◌>>=◌, ◌>>◌, pure, raise, gets, require, lift, modify, guard,
  transaction, zoom,
}
use manbaa_backend.Exec.Check.{◌>>=◌ as ◌|>◌}
use manbaa_backend.Json.{Json, str, Fields, field, end, get, num, whole, null, truthy}
use manbaa_backend.Messaging.DomainEvent.{DomainEvent, assert_domain_event}
use manbaa_backend.Outbox.Creation.{with_field}
use manbaa_backend.Source.Lifecycle.{safe_payload}
use manbaa_backend.Repository.{Repository}
use manbaa_backend.InternalAuth.Token
use manbaa_backend.InternalAuth.Token.{InternalServiceClaims}
use manbaa_backend.Usage
use manbaa_backend.Preview.Suggestions
use manbaa_backend.Jobs.Types.{
  JobStatus, is_final, is_started, is_queued, is_superseded, AiTask, TaskEventKind, started,
  progress, completed, failed, cancelled, event_type_of, action_of, TaskEventPayload, payload_of,
  CanvasMessage, ai_preview_started, ai_preview_progress, ai_preview_cancelled, ai_preview_failed,
  ai_preview_stale, Effect, to_canvas, notify_user, audit, emit_to_task_room,
  emit_to_workspace_room, emit_to_user,
}
use manbaa_backend.Jobs.Rows.{
  same_claim, matches, json_text, authorizes, in_scope, started_task, progressed_task,
  cancelled_task, stale_task, completed_task, failed_task, stored, is_truthy, suggestion_input,
  nullable, nullable_number, stale_payload, spread, message_of,
}

pub record Env : Type 1 where
  pub tasks : Repository AiTask
  pub task_key : (t : AiTask) → tasks.key t ≡ t.id
  pub tokens : Token.Env
  pub config : Token.Config
  pub usage : Usage.Env
  pub suggestions : Suggestions.Env
  -- `Number.isNaN(Date.parse(text))`, negated
  pub date_parses : String → Bool

-- What is broadcast at the end of `handle`.
pub data Outcome : Type 0 where
  unannounced : Outcome
  announced : AiTask → Outcome
  gone_stale : AiTask → Outcome

pub data Finish : Type 0 where
  finished : AiTask → Finish
  ignored : Finish
  outdated : AiTask → Finish

module _ (env : Env) where
  pub record State : Type 0 where
    pub tasks : env.tasks.Store
    pub usage : Usage.State env.usage
    pub suggestions : Suggestions.State env.suggestions
    pub marks : env.tokens.marks.Store
    pub effects : List Effect

  abbrev pub with_usage : {A : Type 0} → Exec (Usage.State env.usage) A → Exec State A
  with_usage m = zoom (λ s. s.usage) (λ u s. record s { usage = u }) m

  abbrev pub with_suggestions :
      {A : Type 0} → Exec (Suggestions.State env.suggestions) A → Exec State A
  with_suggestions m = zoom (λ s. s.suggestions) (λ g s. record s { suggestions = g }) m

  abbrev pub save_task : AiTask → Exec State Unit
  save_task t = modify (λ s. record s { tasks = env.tasks.save t s.tasks })

  abbrev pub emit : Effect → Exec State Unit
  emit e = modify (λ s. record s { effects = s.effects ++ e ∷ [] })

  -- `if (task.canvasId) …`, of an id that is not empty.
  abbrev pub told : CanvasMessage → AiTask → List Effect
  told message t = if is_some t.canvas_id then to_canvas message t ∷ [] else []

  abbrev pub tell_canvas : CanvasMessage → AiTask → Exec State Unit
  tell_canvas message t = modify (λ s. record s { effects = s.effects ++ told message t })

  abbrev pub event_of : TaskEventKind → Json → Result DomainEvent
  event_of kind value = assert_domain_event env.date_parses value |> λ event.
      if event.event_type == event_type_of kind
      then ok event
      else err (error "Worker event type mismatch")

  -- What follows the token's validation.
  abbrev pub admitted :
      TaskEventKind → DomainEvent → Result InternalServiceClaims → Result DomainEvent
  admitted kind event claims = claims |> λ c.
      if authorizes c kind event
      then ok event
      else err (error "Worker event authorization mismatch")

  abbrev pub validate_token : DomainEvent → ℕ → Exec env.tokens.marks.Store InternalServiceClaims
  validate_token event now =
      Token.validate env.tokens env.config (or_else (payload_of event.payload).internal_token "")
        "nestjs-platform" now

  abbrev pub admit : TaskEventKind → ℕ → Result DomainEvent → Exec State DomainEvent
  admit kind now (err e) s = (err e, s)
  admit kind now (ok event) s =
      let (claims, marks) = validate_token event now s.marks in
      (admitted kind event claims, record s { marks = marks })

  -- The checks of `handle` before it reads a task. `now` is the time of the call.
  unfoldable pub authorize : TaskEventKind → Json → ℕ → Exec State DomainEvent
  authorize kind value now = admit kind now (event_of kind value)

  unfoldable pub find_task : DomainEvent → Exec State AiTask
  find_task event = do
    found ← gets (λ s. env.tasks.find_where (in_scope event (payload_of event.payload)) s.tasks)
    require found (error "AI task scope mismatch")

  unfoldable pub start_task : ℕ → TaskEventPayload → AiTask → Exec State Outcome
  start_task now payload t = do
    let next = started_task now payload t
    save_task next
    tell_canvas ai_preview_started next
    pure (announced next)

  unfoldable pub progress_task : TaskEventPayload → AiTask → Exec State Outcome
  progress_task payload t = do
    let next = progressed_task payload t
    save_task next
    tell_canvas ai_preview_progress next
    pure (announced next)

  unfoldable pub cancel_task : ℕ → AiTask → Exec State Outcome
  cancel_task now t = do
    let next = cancelled_task now t
    transaction
        (save_task next >> with_usage (Usage.release_usage env.usage t.usage_reservation_id))
    tell_canvas ai_preview_cancelled next
    pure (announced next)

  -- The transaction of `finish`.
  unfoldable pub settle_task : AiTask → AiTask → TaskEventPayload → Bool → Exec State Unit
  settle_task t next payload success =
      let charged =
        if success
        then Usage.commit_usage env.usage t.usage_reservation_id (or_else payload.actual_usage 1)
        else Usage.release_usage env.usage t.usage_reservation_id in
      transaction (save_task next >> with_usage charged) >> pure tt

  unfoldable pub finish : ℕ → AiTask → TaskEventPayload → Bool → Exec State Finish
  finish now t payload success =
      let late = stale_task now t in
      let next = if success then completed_task now payload t else failed_task now payload t in
      if is_superseded t.status
      then save_task late
        >> (emit (audit late "ai_task.stale")
            >> (tell_canvas ai_preview_stale late >> pure (outdated late)))
      else if is_final t.status
      then pure ignored
      else settle_task t next payload success
        >> (emit (notify_user next)
            >> (emit (audit next (if success then "ai_task.completed" else "ai_task.failed"))
                >> pure (finished next)))

  -- What `handle` does after a task is finished; `id` is the key that the database makes for a suggestion.
  unfoldable pub follow_up : String → TaskEventPayload → Bool → Finish → Exec State Outcome
  follow_up id payload success ignored = pure unannounced
  follow_up id payload success (outdated t) = pure (gone_stale t)
  follow_up id payload true (finished t) =
      let input = suggestion_input t (or_else payload.result end) in
      if is_some t.canvas_id
      then with_suggestions (Suggestions.create_or_update env.suggestions id input)
        >> pure (announced t)
      else pure (announced t)
  follow_up id payload false (finished t) = tell_canvas ai_preview_failed t >> pure (announced t)

  unfoldable pub process :
      TaskEventKind → ℕ → String → TaskEventPayload → AiTask → Exec State Outcome
  process started now id payload t =
      if is_queued t.status then start_task now payload t else pure unannounced
  process progress now id payload t =
      if is_started t.status then progress_task payload t else pure unannounced
  process cancelled now id payload t =
      if is_final t.status then pure unannounced else cancel_task now t
  process completed now id payload t = finish now t payload true >>= follow_up id payload true
  process failed now id payload t = finish now t payload false >>= follow_up id payload false

  abbrev pub broadcast : AiTask → String → Fields → Exec State Unit
  broadcast t event payload =
      let message = message_of t payload in
      emit (emit_to_task_room t.id event message)
      >> (emit (emit_to_workspace_room t.workspace_id event message)
          >> emit (emit_to_user t.user_id event message))

  unfoldable pub announce : TaskEventKind → Fields → Outcome → Exec State Unit
  announce kind payload unannounced = pure tt
  announce kind payload (announced t) = broadcast t (action_of kind) payload
  announce kind payload (gone_stale t) = broadcast t "ai.task.stale" (stale_payload t)

  unfoldable pub handle : TaskEventKind → Json → ℕ → String → Exec State Unit
  handle kind value now id = do
    event ← authorize kind value now
    task ← find_task event
    outcome ← process kind now id (payload_of event.payload) task
    announce kind event.payload outcome
