-- ===== src/Jobs/Tests.antt =====
-- A task of a canvas that a worker completes, and the theorems at concrete inputs.
use manbaa_backend.Base.{arith, ℕ, String, ◌≡◌, refl, true, some, none, List, [], ◌∷◌}
use manbaa_backend.Exec.{ok}
use manbaa_backend.Json.{Json, str, num, obj, whole, Fields, field, end}
use manbaa_backend.Messaging.DomainEvent.{DomainEvent, assert_domain_event}
use manbaa_backend.Repository.Assoc.{assoc}
use manbaa_backend.Repository.Listing.{listing}
use manbaa_backend.InternalAuth.Token
use manbaa_backend.InternalAuth.Samples
use manbaa_backend.Usage.{
  same_dimension, UsageReservation, WorkspaceUsage, ai_input_tokens, reserved, total_of,
  get_usage_summary,
}
use manbaa_backend.Preview.Suggestions
use manbaa_backend.Jobs.Types.{JobStatus, AiTask, payload_of, TaskEventKind, completed}
use manbaa_backend.Jobs.Rows.{completed_task}
use manbaa_backend.Jobs.Events.{Env, State, authorize, handle}
use manbaa_backend.Jobs.Edges.{Moved}
use manbaa_backend.Jobs.Events.Diagram.{handle_all, handle_all-Moved}
use manbaa_backend.Jobs.Events.Completion.{handle_completed}
use manbaa_backend.Jobs.Events.Charges.{IsSettled, handle_all-IsSettled, handle_final}

abbrev env : Env
env = record {
  tasks = assoc (λ (t : AiTask). t.id);
  task_key = λ t. refl;
  tokens = Samples.env;
  config = Samples.config;
  usage = record {
    reservations = assoc (λ (r : UsageReservation). r.id);
    reservation_key = λ r. refl;
    listing = listing (λ (r : UsageReservation). r.id);
    usages = assoc (λ (u : WorkspaceUsage). u.workspace_id);
    usage_key = λ u. refl;
  };
  suggestions = record {
    suggestions = assoc (λ (g : Suggestions.CanvasAiSuggestion). g.id);
    suggestion_key = λ g. refl;
    listing = listing (λ (g : Suggestions.CanvasAiSuggestion). g.id);
  };
  date_parses = λ text. true;
}

abbrev reservation : UsageReservation
reservation = record {
  id = "r1";
  organization_id = "o1";
  workspace_id = "w1";
  dimension = ai_input_tokens;
  amount = 1;
  actual_amount = none;
  idempotency_key = "k1";
  status = reserved;
  expires_at = 1800000;
}

abbrev task : AiTask
task = record {
  id = "t1";
  organization_id = "o1";
  workspace_id = "w1";
  user_id = "u1";
  task_type = "canvas.ai.preview.validate";
  status = JobStatus.running;
  progress = 40;
  current_step = none;
  request_payload = end;
  result_payload = none;
  error_code = none;
  error_message = none;
  correlation_id = "x1";
  idempotency_key = "k1";
  usage_reservation_id = "r1";
  canvas_id = some "c1";
  snapshot_id = some "s1";
  snapshot_version = some 1;
  canvas_revision = some 4;
  superseded_by_task_id = none;
  started_at = some 1;
  completed_at = none;
  cancelled_at = none;
}

abbrev payload : Fields
payload =
    field "taskId" (str "t1")
      (field "internalToken" (str "t") (field "actualUsage" (num (whole 7)) end))

abbrev event : DomainEvent
event = record {
  schema_version = 1;
  event_id = "e1";
  event_type = "workspace.ai.task.completed";
  organization_id = "o1";
  workspace_id = some (str "w1");
  user_id = "u1";
  correlation_id = "x1";
  timestamp = "2026-07-11T12:01:00.000Z";
  payload = payload;
}

abbrev message : Json
message = obj (
    field "eventId" (str "e1") (
      field "eventType" (str "workspace.ai.task.completed") (
        field "organizationId" (str "o1") (
          field "workspaceId" (str "w1") (
            field "userId" (str "u1") (
              field "correlationId" (str "x1") (
                field "timestamp" (str "2026-07-11T12:01:00.000Z")
                  (field "schemaVersion" (num (whole 1)) (field "payload" (obj payload) end)))))))))

abbrev state_with : AiTask → State env
state_with t = record {
  tasks = t ∷ [];
  usage = record { reservations = reservation ∷ []; usages = [] };
  suggestions = record { suggestions = []; effects = [] };
  marks = [];
  effects = [];
}

abbrev start : State env
start = state_with task

abbrev marked : AiTask → State env
marked t = record (state_with t) { marks = ("j1", 300500) ∷ [] }

admitted :
    (t : AiTask) → authorize env completed message 100500 (state_with t) ≡ (ok event, marked t)
unfolding authorize Token.validate Token.verify Token.mark_once assert_domain_event
admitted t = refl

abbrev calls : List (TaskEventKind × Json × ℕ × String)
calls = (completed, message, 100500, "g1") ∷ (completed, message, 100600, "g2") ∷ []

handle_all-Moved_example :
    (t' : AiTask) × (assoc (λ (t : AiTask). t.id)).get "t1" (handle_all env calls start).tasks
      ≡ some t'
    × Moved task t'
handle_all-Moved_example = handle_all-Moved env calls "t1" task start refl

start-IsSettled : IsSettled env start
unfolding IsSettled
start-IsSettled j t r there over held = absurd (ground (arith, there, over))

handle_all-IsSettled_example : IsSettled env (handle_all env calls start)
handle_all-IsSettled_example = handle_all-IsSettled env calls start start-IsSettled

abbrev done : AiTask
done = record task { status = JobStatus.failed }

-- A report of a completion for a task that failed.
handle_final_example :
    handle env completed message 100500 "g1" (state_with done) ≡ (ok tt, marked done)
handle_final_example =
    handle_final env completed message 100500 "g1" event done (state_with done) (marked done)
      (admitted done) refl refl

handle_completed_example :
    let s'' = (handle env completed message 100500 "g1" start).1 in
    ((assoc (λ (t : AiTask). t.id)).get "t1" s''.tasks
      ≡ some (completed_task 100500 (payload_of payload) task))
    × (total_of ai_input_tokens (get_usage_summary env.usage "w1" s''.usage) ≡ 7)
unfolding same_dimension
handle_completed_example =
    handle_completed env message 100500 "g1" "w1" ai_input_tokens event task reservation 7 start
      (marked task) (admitted task) refl refl refl refl refl
