-- ===== src/Jobs/Rows.antt =====
-- The rows, the scope and the messages of src/modules/jobs/ai-task-events.service.ts.
use manbaa_backend.Base.{
  ℕ, min, max, String, Bool, true, false, ◌&&◌, Option, none, some, any, ◌==◌, if◌then◌else◌,
  or_else, slice,
}
use manbaa_backend.Json.{Json, str, Fields, field, end, get, num, whole, null, truthy}
use manbaa_backend.Messaging.DomainEvent.{DomainEvent}
use manbaa_backend.Outbox.Creation.{with_field}
use manbaa_backend.Source.Lifecycle.{safe_payload}
use manbaa_backend.InternalAuth.Token.{InternalServiceClaims}
use manbaa_backend.Preview.Suggestions
use manbaa_backend.Jobs.Types.{JobStatus, AiTask, TaskEventKind, action_of, TaskEventPayload}

-- `claim === value`: a claim is a text or `undefined`, and `null` is neither.
abbrev pub same_claim : Option String → Option Json → Bool
same_claim none none = true
same_claim (some a) (some (str b)) = a == b
same_claim _ _ = false

-- A property of a `where` clause; one that is `undefined` is no condition.
abbrev pub matches : Option String → String → Bool
matches none x = true
matches (some v) x = v == x

abbrev pub json_text : Option Json → Option String
json_text (some (str s)) = some s
json_text _ = none

-- The claims are for the organisation, the workspace, the task and the kind of the event.
abbrev pub authorizes : InternalServiceClaims → TaskEventKind → DomainEvent → Bool
authorizes claims kind event =
    claims.organization_id == event.organization_id
    && (same_claim claims.workspace_id event.workspace_id
        && (same_claim claims.task_id (get "taskId" event.payload)
            && any (λ a. a == action_of kind) claims.allowed_actions))

-- The row that `findOne` asks for.
abbrev pub in_scope : DomainEvent → TaskEventPayload → AiTask → Bool
in_scope event payload t =
    matches payload.task_id t.id
    && (t.organization_id == event.organization_id
        && matches (json_text event.workspace_id) t.workspace_id)

abbrev pub started_task : ℕ → TaskEventPayload → AiTask → AiTask
started_task now payload t = record t {
  status = JobStatus.running;
  started_at = some now;
  current_step = payload.current_step;
}

-- `Math.max(task.progress, Math.min(99, event.payload.progress ?? task.progress))`
abbrev pub progressed_task : TaskEventPayload → AiTask → AiTask
progressed_task payload t = record t {
  progress = max t.progress (min 99 (or_else payload.progress t.progress));
  current_step = Suggestions.or_previous payload.current_step t.current_step;
}

abbrev pub cancelled_task : ℕ → AiTask → AiTask
cancelled_task now t = record t { status = JobStatus.cancelled; cancelled_at = some now }

abbrev pub stale_task : ℕ → AiTask → AiTask
stale_task now t = record t {
  status = JobStatus.stale;
  result_payload = none;
  error_code = some "STALE_RESULT";
  error_message = some "A late worker result was ignored after supersession";
  completed_at = some now;
}

abbrev pub completed_task : ℕ → TaskEventPayload → AiTask → AiTask
completed_task now payload t = record t {
  status = JobStatus.completed;
  progress = 100;
  result_payload = some (or_else payload.result end);
  error_code = none;
  error_message = none;
  completed_at = some now;
}

abbrev pub failed_task : ℕ → TaskEventPayload → AiTask → AiTask
failed_task now payload t = record t {
  status = JobStatus.failed;
  result_payload = none;
  error_code = some (slice 100 (or_else payload.error_code "WORKER_FAILED"));
  error_message = some (slice 1000 (or_else payload.error_message "Worker task failed"));
  completed_at = some now;
}

-- A column of JSON, in which `null` is no value.
abbrev pub stored : Option Json → Option Json
stored (some null) = none
stored o = o

abbrev pub is_truthy : Option Json → Bool
is_truthy none = false
is_truthy (some j) = truthy j

-- The input that `createSuggestionFromResult` makes. The revision is a `bigint`, which arrives as a text, so
-- that a revision 0 is kept.
abbrev pub suggestion_input : AiTask → Fields → Suggestions.CreateSuggestionInput
suggestion_input t result = record {
  task_id = t.id;
  organization_id = t.organization_id;
  workspace_id = t.workspace_id;
  canvas_id = or_else t.canvas_id "";
  snapshot_id = t.snapshot_id;
  snapshot_version = t.snapshot_version;
  canvas_revision = t.canvas_revision;
  result_type =
      if is_truthy (get "componentSpec" result)
      then "component"
      else if is_truthy (get "assetId" result)
      then "image"
      else "unknown";
  component_spec = stored (get "componentSpec" result);
  asset_id = json_text (get "assetId" result);
  asset_version_id = json_text (get "assetVersionId" result);
  enhanced_prompt = json_text (get "enhancedPrompt" result);
  evidence_ids = stored (get "evidenceIds" result);
}

abbrev pub nullable : Option String → Json
nullable none = null
nullable (some s) = str s

abbrev pub nullable_number : Option ℕ → Json
nullable_number none = null
nullable_number (some n) = num (whole n)

-- The payload of `ai.task.stale`.
abbrev pub stale_payload : AiTask → Fields
stale_payload t = field "taskId" (str t.id) (
    field "snapshotId" (nullable t.snapshot_id) (
      field "canvasRevision" (nullable_number t.canvas_revision)
        (field "currentStep" (str "stale_result_ignored") end)))

-- `{ ...first, ...second }`
abbrev pub spread : Fields → Fields → Fields
spread first end = first
spread first (field k v fs) = spread (with_field k v first) fs

-- `{ taskId, correlationId, ...safePayload }`
abbrev pub message_of : AiTask → Fields → Fields
message_of t payload =
    spread (field "taskId" (str t.id) (field "correlationId" (str t.correlation_id) end))
      (safe_payload payload)
