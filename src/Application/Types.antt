-- ===== src/Application/Types.antt =====
-- Rows of src/modules/applications/entities, the requests of dto/application.dto.ts, and what the
-- service hands to the audit log.
use manbaa_backend.Base.{ℕ, String, Bool, Option}
use manbaa_backend.Json.{Json, Fields}

-- `ApplicationStatus`
pub data ApplicationStatus : Type 0 where
  draft published archived : ApplicationStatus

abbrev pub is_archived : ApplicationStatus → Bool
is_archived archived = Bool.true
is_archived _ = Bool.false

-- entities/application.entity.ts, less the two time stamps that the database writes.
pub record Application : Type 0 where
  pub id : String
  pub name : String
  pub description : Option String
  pub status : ApplicationStatus
  pub current_version : ℕ
  pub org_id : String
  pub owner_id : String
  pub project_id : String
  pub schema_revision : ℕ
  pub draft_schema : Option Json
  pub published_version_id : Option String

-- A description that was given, or `Duplicated from ${name} v${number}`.
pub data Description : Type 0 where
  given : String → Description
  duplicated_from : String → ℕ → Description

-- entities/application-version.entity.ts, less the time stamp that the database writes.
pub record ApplicationVersion : Type 0 where
  pub id : String
  pub application_id : String
  pub version_number : ℕ
  pub schema_version : String
  pub schema : Json
  pub description : Option Description
  pub is_published : Bool
  pub published_at : Option ℕ
  pub published_by : Option String
  pub created_by : Option String

pub record CreateApplicationDto : Type 0 where
  pub name : String
  pub description : Option String
  pub project_id : String

pub record UpdateApplicationDto : Type 0 where
  pub name : Option String
  -- `null` clears the description.
  pub description : Option (Option String)

pub record SaveDraftSchemaDto : Type 0 where
  pub schema : Fields
  pub schema_version : Option String
  pub expected_revision : Option ℕ

pub record CreateApplicationVersionDto : Type 0 where
  pub schema_version : String
  pub schema : Fields
  pub description : Option String

pub record DuplicateApplicationDto : Type 0 where
  pub name : String
  pub description : Option String

-- The event type of an audit entry, with the states before and after.
pub data AuditEvent : Type 0 where
  application_created : String → String → String → AuditEvent
  application_updated : String × Option String → String × Option String → AuditEvent
  application_version_created : ℕ → ℕ → String → AuditEvent
  application_published : Option String → String → ℕ → AuditEvent
  application_unpublished : Option String → AuditEvent
  application_duplicated : String → String → String → String → AuditEvent
  application_archived : ApplicationStatus → AuditEvent

pub record AuditEntry : Type 0 where
  pub element_id : String
  pub actor_id : String
  pub event : AuditEvent
