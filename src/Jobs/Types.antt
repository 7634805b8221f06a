-- ===== src/Jobs/Types.antt =====
-- entities/ai-task.entity.ts of src/modules/jobs, and what the workers report. The workers are taken to send
-- texts, objects and natural numbers, as the service casts them; a property of another type is read as
-- missing here, while the service would pass it on.
use manbaa_backend.Base.{ℕ, String, Bool, true, false, Option, none, some}
use manbaa_backend.Json.{Json, str, num, obj, whole, null, Fields, get}

pub data JobStatus : Type 0 where
  queued running waiting_for_user completed failed cancelled superseded stale : JobStatus

-- `[COMPLETED, FAILED, CANCELLED, STALE].includes(status)`
abbrev pub is_final : JobStatus → Bool
is_final completed = true
is_final failed = true
is_final cancelled = true
is_final stale = true
is_final _ = false

-- `[RUNNING, WAITING_FOR_USER].includes(status)`
abbrev pub is_started : JobStatus → Bool
is_started running = true
is_started waiting_for_user = true
is_started _ = false

abbrev pub is_queued : JobStatus → Bool
is_queued queued = true
is_queued _ = false

abbrev pub is_superseded : JobStatus → Bool
is_superseded superseded = true
is_superseded _ = false

pub record AiTask : Type 0 where
  pub id : String
  pub organization_id : String
  pub workspace_id : String
  pub user_id : String
  pub task_type : String
  pub status : JobStatus
  pub progress : ℕ
  pub current_step : Option String
  pub request_payload : Fields
  pub result_payload : Option Fields
  pub error_code : Option String
  pub error_message : Option String
  pub correlation_id : String
  pub idempotency_key : String
  pub usage_reservation_id : String
  pub canvas_id : Option String
  pub snapshot_id : Option String
  pub snapshot_version : Option ℕ
  pub canvas_revision : Option ℕ
  pub superseded_by_task_id : Option String
  pub started_at : Option ℕ
  pub completed_at : Option ℕ
  pub cancelled_at : Option ℕ

-- The five subjects that the service subscribes to.
pub data TaskEventKind : Type 0 where
  started progress completed failed cancelled : TaskEventKind

abbrev pub event_type_of : TaskEventKind → String
event_type_of started = "workspace.ai.task.started"
event_type_of progress = "workspace.ai.task.progress"
event_type_of completed = "workspace.ai.task.completed"
event_type_of failed = "workspace.ai.task.failed"
event_type_of cancelled = "workspace.ai.task.cancelled"

-- The action that a token has to allow, which is the name of the realtime message too.
abbrev pub action_of : TaskEventKind → String
action_of started = "ai.task.started"
action_of progress = "ai.task.progress"
action_of completed = "ai.task.completed"
action_of failed = "ai.task.failed"
action_of cancelled = "ai.task.cancelled"

pub record TaskEventPayload : Type 0 where
  pub task_id : Option String
  pub internal_token : Option String
  pub progress : Option ℕ
  pub current_step : Option String
  pub result : Option Fields
  pub error_code : Option String
  pub error_message : Option String
  pub actual_usage : Option ℕ

abbrev pub as_text : Option Json → Option String
as_text (some (str s)) = some s
as_text _ = none

abbrev pub as_number : Option Json → Option ℕ
as_number (some (num (whole n))) = some n
as_number _ = none

-- The usage that a report of a completed task names: a natural number, or 1 if there is none or `null`. Any
-- other value is outside of the model.
abbrev pub usage_of : Option Json → Option ℕ
usage_of none = some 1
usage_of (some null) = some 1
usage_of (some (num (whole n))) = some n
usage_of _ = none

abbrev pub as_fields : Option Json → Option Fields
as_fields (some (obj fs)) = some fs
as_fields _ = none

abbrev pub payload_of : Fields → TaskEventPayload
payload_of fs = record {
  task_id = as_text (get "taskId" fs);
  internal_token = as_text (get "internalToken" fs);
  progress = as_number (get "progress" fs);
  current_step = as_text (get "currentStep" fs);
  result = as_fields (get "result" fs);
  error_code = as_text (get "errorCode" fs);
  error_message = as_text (get "errorMessage" fs);
  actual_usage = as_number (get "actualUsage" fs);
}

pub data CanvasMessage : Type 0 where
  ai_preview_started ai_preview_progress ai_preview_cancelled ai_preview_failed ai_preview_stale :
      CanvasMessage

-- What the service hands to the others: the realtime messages of a canvas, by the task and the step,
-- the notice to the user and the audit entry of a task with its status, and the messages to a room or a
-- user.
pub data Effect : Type 0 where
  to_canvas : CanvasMessage → AiTask → Effect
  notify_user : AiTask → Effect
  audit : AiTask → String → Effect
  emit_to_task_room emit_to_workspace_room emit_to_user : String → String → Fields → Effect
