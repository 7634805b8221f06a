-- ===== src/Session/Types.antt =====
-- Rows, requests and effects of src/modules/sessions (entities/session.entity.ts, dto/, and the
-- calls that sessions.service.ts makes of other services).
use manbaa_backend.Base.{ℕ, String, Bool, Option}
use manbaa_backend.Session.Fsm.{SessionMode, SessionStatus}

-- A `Date`, in milliseconds.
abbrev pub Date : Type 0
Date = ℕ

-- entities/session.entity.ts. The service copies the score (a float) and never computes with it, so
-- its type is a parameter.
pub record Session (Score : Type 0) : Type 0 where
  pub id : String
  pub workflow_id : String
  pub user_id : String
  pub mode : SessionMode
  pub status : SessionStatus
  pub confidence_score : Score
  pub created_at : Date
  pub finalized_at : Option Date
  pub archived_at : Option Date

-- What the service reads of a row of `workflow`.
pub record Workflow : Type 0 where
  pub id : String
  pub org_id : String

-- `RequestUser`: who calls. The role is the text of a `UserRole`, or another text.
pub record RequestUser : Type 0 where
  pub id : String
  pub org_id : String
  pub role : String

pub record CreateSessionDto : Type 0 where
  pub workflow_id : String
  pub mode : SessionMode

pub record UpdateSessionStatusDto : Type 0 where
  pub status : SessionStatus
  pub reason : String
  pub force : Bool

-- What the service reads of a row of `workflow_version`.
pub record WorkflowVersion : Type 0 where
  pub version_number : ℕ
  pub elements_json : String

pub data PipelineStatus : Type 0 where
  pending running paused completed failed cancelled : PipelineStatus

-- What the service reads of a row of `pipeline_execution`.
pub record PipelineExecution (Score : Type 0) : Type 0 where
  pub status : PipelineStatus
  pub last_checkpoint_agent : Option String
  pub final_confidence : Option Score

-- What `publishAiTask` is given, and what it returns.
pub record AiTask : Type 0 where
  pub session_id : String
  pub task_type : String
  pub mode : SessionMode
  pub input : String
  pub triggered_by : String
  pub resume_from_checkpoint : Option String

pub record Published : Type 0 where
  pub pipeline_execution_id : String
  pub nats_message_id : String

-- The event types of the audit log with the states before and after.
pub data AuditEvent : Type 0 where
  session_mode_updated : SessionMode → SessionMode → AuditEvent
  session_finalized : SessionStatus → SessionStatus → Option Date → AuditEvent
  ai_task_dispatched : String → String → String → AuditEvent
  session_archived : SessionStatus → SessionStatus → Option Date → AuditEvent
  session_status_overridden : SessionStatus → SessionStatus → String → Bool → AuditEvent

-- The calls of other services, in their order.
pub data Effect (Score : Type 0) : Type 0 where
  -- `auditService.log`: workflow, actor, event
  audit : String → String → AuditEvent → Effect Score
  -- `natsPublisher.publishSessionFinalized`: session, workflow, version, confidence, time
  publish_session_finalized : String → String → ℕ → Score → Date → Effect Score
  -- `aiGatewayService.publishAiTask`
  publish_ai_task : AiTask → Effect Score
  -- `update({ sessionId }, { archivedAt })` of the three dependent tables
  archive_messages archive_documents archive_pipelines : String → Option Date → Effect Score
  -- `realtimeEvents.emitNeedsReconciliation`
  emit_needs_reconciliation : String → Effect Score

-- The answers of `getWorkflowState` and `getProgress`.
pub record WorkflowState : Type 0 where
  pub session_id : String
  pub workflow_id : String
  pub version_number : Option ℕ
  pub elements_json : Option String

pub record Progress (Score : Type 0) : Type 0 where
  pub current_agent : Option String
  pub progress_pct : ℕ
  pub overall_confidence : Score
