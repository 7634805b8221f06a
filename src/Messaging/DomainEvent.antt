-- ===== src/Messaging/DomainEvent.antt =====
-- src/core/messaging/domain-event.ts
use manbaa_backend.Base.{ℕ, String, Bool, Option, none, some, leb, if◌then◌else◌}
use manbaa_backend.Exec.{Result, ok, err, type_error}
use manbaa_backend.Exec.Check.{◌>>=◌, ◌>>◌, ensure, present}
use manbaa_backend.Json.{Json, num, obj, Fields, whole, get, text}

-- What an asserted event is known to hold. `workspaceId` is not checked here.
pub record DomainEvent : Type 0 where
  pub schema_version : ℕ
  pub event_id : String
  pub event_type : String
  pub organization_id : String
  pub workspace_id : Option Json
  pub user_id : String
  pub correlation_id : String
  pub timestamp : String
  pub payload : Fields

-- A positive integer.
abbrev version_of : Option Json → Option ℕ
version_of (some (num (whole n))) = if leb 1 n then some n else none
version_of _ = none

abbrev fields_of : Option Json → Option Fields
fields_of (some (obj fs)) = some fs
fields_of _ = none

-- `Number.isNaN(Date.parse(text))` of the language is the parameter.
module _ (date_parses : String → Bool) where
  assert_fields : Fields → Result DomainEvent
  assert_fields fs = do
    id ←
        present (text (get "eventId" fs))
          (type_error "Domain event eventId must be a non-empty string")
    kind ←
        present (text (get "eventType" fs))
          (type_error "Domain event eventType must be a non-empty string")
    org ←
        present (text (get "organizationId" fs))
          (type_error "Domain event organizationId must be a non-empty string")
    user ←
        present (text (get "userId" fs))
          (type_error "Domain event userId must be a non-empty string")
    correlation ←
        present (text (get "correlationId" fs))
          (type_error "Domain event correlationId must be a non-empty string")
    timestamp ←
        present (text (get "timestamp" fs))
          (type_error "Domain event timestamp must be a non-empty string")
    version ←
        present (version_of (get "schemaVersion" fs))
          (type_error "Domain event schemaVersion must be a positive integer")
    payload ←
        present (fields_of (get "payload" fs)) (type_error "Domain event payload must be an object")
    ensure (date_parses timestamp) (type_error "Domain event timestamp must be ISO-8601 compatible")
    ok (record {
      schema_version = version;
      event_id = id;
      event_type = kind;
      organization_id = org;
      workspace_id = get "workspaceId" fs;
      user_id = user;
      correlation_id = correlation;
      timestamp = timestamp;
      payload = payload;
    })

  unfoldable pub assert_domain_event : Json → Result DomainEvent
  unfolding assert_fields
  assert_domain_event (obj fs) = assert_fields fs
  assert_domain_event _ = err (type_error "Domain event must be an object")
