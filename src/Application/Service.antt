-- ===== src/Application/Service.antt =====
-- src/modules/applications/applications.service.ts, method by method. A method that runs in a
-- transaction throws before its first write, so no state has to be restored.
pub mod Commands
pub mod Making
pub mod Publishing
pub mod Drafts
pub mod Numbers
pub mod Steps
pub mod Numbering
mod Tests
use manbaa_backend.Base.{
  ℕ, suc, String, ◌≡◌, Bool, true, false, not, ◌&&◌, ◌||◌, Option, none, some, List, [], ◌∷◌, ◌++◌,
  ◌==◌, eqb, or_else, if◌then◌else◌, is_some,
}
use manbaa_backend.Exec.{
  Result, ok, err, Exec, bad_request, not_found, conflict, ◌>>=◌, ◌>>◌, pure, raise, gets, require,
  modify, guard,
}
use manbaa_backend.Repository.{Repository, find_one}
use manbaa_backend.Json.{Json, str, obj, Fields, field, end}
use manbaa_backend.Schema.Types.{Patterns}
use manbaa_backend.Schema.Validate.{validate_application_schema}
use manbaa_backend.Application.Types.{
  ApplicationStatus, draft, published, archived, is_archived, Application, Description, given,
  duplicated_from, ApplicationVersion, CreateApplicationDto, UpdateApplicationDto,
  SaveDraftSchemaDto, CreateApplicationVersionDto, DuplicateApplicationDto, AuditEvent,
  application_created, application_updated, application_version_created, application_published,
  application_unpublished, application_duplicated, application_archived, AuditEntry,
}

-- The two tables, and the tests by regular expressions of the schema validator.
pub record Env : Type 1 where
  pub applications : Repository Application
  pub application_key : (r : Application) → applications.key r ≡ r.id
  pub versions : Repository ApplicationVersion
  pub version_key : (r : ApplicationVersion) → versions.key r ≡ r.id
  pub patterns : Patterns

-- An object with one property set.
abbrev pub put : String → Json → Fields → Fields
put k v end = field k v end
put k v (field k' v' fs) =
    let rest = put k v fs in if k' == k then field k v fs else field k' v' rest

-- `{ ...base, ...over }`
abbrev pub spread : Fields → Fields → Fields
spread base end = base
spread base (field k v fs) = spread (put k v base) fs

-- `{ schemaVersion, metadata: { applicationId, name }, ...schema }`
pub full_schema : String → String → String → Fields → Json
full_schema schema_version id name schema = obj (
    spread
      (field "schemaVersion" (str schema_version)
        (field "metadata" (obj (field "applicationId" (str id) (field "name" (str name) end))) end))
      schema)

abbrev is_empty {ℓ} : {A : Type ℓ} → List A → Bool
is_empty [] = true
is_empty (x ∷ xs) = false

-- `dto.expectedRevision !== undefined && application.schemaRevision !== dto.expectedRevision`, negated
abbrev pub expects : Option ℕ → ℕ → Bool
expects none revision = true
expects (some r) revision = eqb revision r

module _ (env : Env) where
  open env use {applications, versions, patterns}

  -- The tables, and the entries of the audit log in their order.
  pub record State : Type 0 where
    pub applications : env.applications.Store
    pub versions : env.versions.Store
    pub audits : List AuditEntry

  abbrev log : String → String → AuditEvent → Exec State Unit
  log id actor_id event = modify λ s. record s {
    audits = s.audits ++ record { element_id = id; actor_id = actor_id; event = event } ∷ [];
  }

  abbrev save : Application → Exec State Unit
  save a = modify λ s. record s { applications = env.applications.save a s.applications }

  abbrev save_version : ApplicationVersion → Exec State Unit
  save_version v = modify λ s. record s { versions = env.versions.save v s.versions }

  -- `findOne`, which is also how each transaction begins.
  unfoldable pub find_one_application : String → String → Exec State Application
  find_one_application id org_id = do
    found ← gets (λ s. find_one env.applications id (λ a. a.org_id == org_id) s.applications)
    require found (not_found "Application not found")

  assert_active : Application → String → Exec State Unit
  assert_active a message = guard (not (is_archived a.status)) (bad_request message)

  -- `findOne` with a name in a project.
  assert_name_free : String → String → String → Exec State Unit
  assert_name_free name org_id project_id = do
    existing ← gets (λ s.
        env.applications.find_where
          (λ a. a.name == name && (a.org_id == org_id && a.project_id == project_id))
          s.applications)
    guard (not (is_some existing)) (conflict "APPLICATION_NAME_EXISTS")

  assert_valid : Json → Exec State Unit
  assert_valid schema =
      guard (is_empty (validate_application_schema patterns schema)) (bad_request "INVALID_SCHEMA")

  -- `uuidv4()` is the first argument.
  unfoldable pub create : String → CreateApplicationDto → String → String → Exec State Application
  unfolding assert_name_free
  create uuid dto org_id owner_id = do
    assert_name_free dto.name org_id dto.project_id
    let application : Application = record {
      id = uuid;
      name = dto.name;
      description = dto.description;
      status = draft;
      current_version = 0;
      org_id = org_id;
      owner_id = owner_id;
      project_id = dto.project_id;
      schema_revision = 1;
      draft_schema = none;
      published_version_id = none;
    }
    save application
    log uuid owner_id (application_created dto.name org_id dto.project_id)
    pure application

  unfoldable pub update : String → UpdateApplicationDto → String → String → Exec State Application
  unfolding assert_active
  update id dto org_id actor_id = do
    application ← find_one_application id org_id
    assert_active application "Cannot modify an archived application"
    let saved = record application {
      name = or_else dto.name application.name;
      description = or_else dto.description application.description;
    }
    save saved
    log id actor_id (
        application_updated (application.name, application.description)
          (saved.name, saved.description))
    pure saved

  unfoldable pub save_draft_schema :
      String → SaveDraftSchemaDto → String → String → Exec State Application
  unfolding assert_active assert_valid
  save_draft_schema id dto org_id actor_id = do
    application ← find_one_application id org_id
    assert_active application "Cannot modify an archived application"
    guard (expects dto.expected_revision application.schema_revision)
        (conflict "APPLICATION_SCHEMA_REVISION_CONFLICT")
    let schema = full_schema (or_else dto.schema_version "1.0.0") id application.name dto.schema
    assert_valid schema
    let saved = record application {
      draft_schema = some schema;
      schema_revision = suc application.schema_revision;
    }
    save saved
    pure saved

  -- The database makes the id of the version: the first argument.
  unfoldable pub create_version :
      String
      → String
      → CreateApplicationVersionDto
      → String
      → String
      → Exec State ApplicationVersion
  unfolding assert_active assert_valid
  create_version uuid id dto org_id actor_id = do
    application ← find_one_application id org_id
    assert_active application "Cannot create version for archived application"
    let schema = full_schema dto.schema_version id application.name dto.schema
    assert_valid schema
    let version_number = suc application.current_version
    let version : ApplicationVersion = record {
      id = uuid;
      application_id = id;
      version_number = version_number;
      schema_version = dto.schema_version;
      schema = schema;
      description = elim dto.description [ none ↦ none | some d ↦ some (given d) ];
      is_published = false;
      published_at = none;
      published_by = none;
      created_by = some actor_id;
    }
    save_version version
    save (record application { current_version = version_number; draft_schema = some schema })
    log id actor_id (application_version_created application.current_version version_number uuid)
    pure version

  -- The time is the first argument. The audit entry reads the row after it was assigned to.
  unfoldable pub publish_version :
      ℕ → String → String → String → String → Exec State ApplicationVersion
  unfolding assert_active
  publish_version now id version_id org_id actor_id = do
    before ← find_one_application id org_id
    assert_active before "Cannot publish an archived application"
    found ← gets (λ s. find_one env.versions version_id (λ v. v.application_id == id) s.versions)
    version ← require found (not_found "Version not found for application")
    guard (not version.is_published) (conflict "VERSION_ALREADY_PUBLISHED")
    let saved = record version {
      is_published = true;
      published_at = some now;
      published_by = some actor_id;
    }
    save_version saved
    let application = record before { published_version_id = some saved.id; status = published }
    save application
    log id actor_id
        (application_published application.published_version_id saved.id version.version_number)
    pure saved

  -- `if (oldVersion) { oldVersion.isPublished = false; save(oldVersion) }`
  retract : Option ApplicationVersion → Exec State Unit
  retract none = pure tt
  retract (some v) = save_version (record v { is_published = false })

  -- An id that is an empty text counts as none.
  abbrev pub published_id : Application → Option String
  published_id a = elim a.published_version_id [
    | none ↦ none
    | some v ↦ if v == "" then none else some v
  ]

  unfoldable pub unpublish_version : String → String → String → Exec State Application
  unfolding assert_active retract
  unpublish_version id org_id actor_id = do
    before ← find_one_application id org_id
    assert_active before "Cannot unpublish an archived application"
    version_id ← require (published_id before) (bad_request "NOT_PUBLISHED")
    old_version ← gets (λ s. env.versions.get version_id s.versions)
    retract old_version
    let application = record before { published_version_id = none; status = draft }
    save application
    log id actor_id (application_unpublished application.published_version_id)
    pure application

  unfoldable pub get_published_version : String → String → Exec State ApplicationVersion
  get_published_version id org_id = do
    application ← find_one_application id org_id
    version_id ←
        require (published_id application) (not_found "No published version found for application")
    version ← gets (λ s. env.versions.get version_id s.versions)
    require version (not_found "Published version not found")

  unfoldable pub find_version : String → String → String → Exec State ApplicationVersion
  find_version id version_id org_id = do
    find_one_application id org_id
    version ← gets (λ s. find_one env.versions version_id (λ v. v.application_id == id) s.versions)
    require version (not_found "Version not found")

  -- The version that is published is copied as the first one of the copy, which is saved again.
  copy_published : String → Application → String → Application → Exec State Application
  copy_published uuid original actor_id saved = do
    found ←
        gets (λ s. elim (published_id original) [
          | none ↦ none
          | some v ↦ env.versions.get v s.versions
        ])
    elim found [
      | none ↦ pure saved
      | some v ↦ (do
        save_version (record {
          id = uuid;
          application_id = saved.id;
          version_number = 1;
          schema_version = v.schema_version;
          schema = v.schema;
          description = some (duplicated_from original.name v.version_number);
          is_published = false;
          published_at = none;
          published_by = none;
          created_by = some actor_id;
        })
        save (record saved { current_version = 1 })
        pure (record saved { current_version = 1 }))
    ]

  -- The first two arguments are the new ids of the application and of its version.
  unfoldable pub duplicate :
      String → String → String → DuplicateApplicationDto → String → String → Exec State Application
  unfolding assert_active assert_name_free copy_published
  duplicate uuid version_uuid id dto org_id actor_id = do
    original ← find_one_application id org_id
    assert_active original "Cannot duplicate an archived application"
    assert_name_free dto.name org_id original.project_id
    let copy : Application = record {
      id = uuid;
      name = dto.name;
      description = elim dto.description [ none ↦ original.description | some d ↦ some d ];
      status = draft;
      current_version = 0;
      org_id = org_id;
      owner_id = actor_id;
      project_id = original.project_id;
      schema_revision = 1;
      draft_schema = original.draft_schema;
      published_version_id = none;
    }
    save copy
    saved ← copy_published version_uuid original actor_id copy
    log uuid actor_id (application_duplicated saved.name id saved.org_id saved.project_id)
    pure saved

  unfoldable pub archive : String → String → String → Exec State Unit
  archive id org_id actor_id = do
    application ← find_one_application id org_id
    save (record application { status = archived })
    log id actor_id (application_archived application.status)
