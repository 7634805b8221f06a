-- ===== src/Source/Types.antt =====
-- Rows of src/modules/sources/entities, and the vocabulary of source-lifecycle.service.ts.
use manbaa_backend.Base.{ℕ, String, Option, List}
use manbaa_backend.Json.{Fields}

-- `SourceStatus` and `SourceProcessingStatus` have the same values.
pub data SourceStatus : Type 0 where
  pending processing extracted indexed failed : SourceStatus

-- entities/source.entity.ts, the columns that the lifecycle reads or writes.
pub record Source : Type 0 where
  pub id : String
  pub organization_id : String
  pub workspace_id : String
  pub status : SourceStatus
  pub current_version_id : Option String
  pub created_by : String
  pub deleted_at : Option ℕ

-- entities/source-version.entity.ts, the columns that the lifecycle reads or writes.
pub record SourceVersion : Type 0 where
  pub id : String
  pub source_id : String
  pub organization_id : String
  pub workspace_id : String
  pub processing_status : SourceStatus
  pub extracted_at : Option String
  pub indexed_at : Option String
  pub failure_code : Option String
  pub failure_message : Option String

-- entities/source-lifecycle-event.entity.ts: the receipt of an event.
pub record SourceLifecycleEvent : Type 0 where
  pub event_id : String
  pub event_type : String
  pub organization_id : String
  pub workspace_id : String
  pub source_id : String
  pub source_version_id : String
  pub token_jti : String

-- `SourceLifecycleKind`
pub data SourceLifecycleKind : Type 0 where
  processing extracted indexed failed : SourceLifecycleKind

-- `LIFECYCLE_SUBJECTS` (src/core/messaging/subjects.ts)
abbrev pub lifecycle_subject : SourceLifecycleKind → String
lifecycle_subject SourceLifecycleKind.processing = "workspace.source.processing"
lifecycle_subject SourceLifecycleKind.extracted = "workspace.source.extracted"
lifecycle_subject SourceLifecycleKind.indexed = "workspace.source.indexed"
lifecycle_subject SourceLifecycleKind.failed = "workspace.source.failed"

-- The text of a kind, which stands in `source.${kind}`.
abbrev pub action : SourceLifecycleKind → String
action SourceLifecycleKind.processing = "source.processing"
action SourceLifecycleKind.extracted = "source.extracted"
action SourceLifecycleKind.indexed = "source.indexed"
action SourceLifecycleKind.failed = "source.failed"

-- `LifecycleScope`
pub record LifecycleScope : Type 0 where
  pub event_id : String
  pub event_type : String
  pub organization_id : String
  pub workspace_id : String
  pub source_id : String
  pub source_version_id : String

-- The claims of an internal service token that the lifecycle reads.
pub record Claims : Type 0 where
  pub service : String
  pub organization_id : String
  pub workspace_id : Option String
  pub correlation_id : String
  pub allowed_actions : List String
  pub jti : Option String

-- The two realtime messages: to the room of the workspace, and to the user.
pub data Notice : Type 0 where
  to_room to_user : String → SourceLifecycleKind → Fields → String → Notice
