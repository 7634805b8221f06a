-- ===== src/Application/Service/Tests.antt =====
-- One application with two versions, and the theorems at concrete inputs.
use manbaa_backend.Base.{◌≡◌, refl, true, false, none, some, [], ◌∷◌}
use manbaa_backend.Exec.{ok, err, not_found, conflict}
use manbaa_backend.Repository.Assoc.{assoc}
use manbaa_backend.Json.{str, obj, field, end}
use manbaa_backend.Schema.Validate.{validate_application_schema}
use manbaa_backend.Application.Types.{
  ApplicationStatus, published, archived, Application, ApplicationVersion, SaveDraftSchemaDto,
  CreateApplicationVersionDto,
}
use manbaa_backend.Application.Service.{
  Env, State, find_one_application, create_version, full_schema, save_draft_schema, publish_version,
  unpublish_version, get_published_version,
}
use manbaa_backend.Application.Service.Commands.{version, publish, remove, execute, execute_foreign}
use manbaa_backend.Application.Service.Publishing.{publish-get_published}
use manbaa_backend.Application.Service.Numbers.{WellNumbered}
use manbaa_backend.Application.Service.Numbering.{execute-WellNumbered}
use manbaa_backend.Application.Service.Drafts.{save_draft_race}

abbrev env : Env
env = record {
  applications = assoc (λ r. r.id);
  application_key = λ r. refl;
  versions = assoc (λ r. r.id);
  version_key = λ r. refl;
  patterns = record { executable = λ t. false; sql = λ t. false; secret = λ t. false };
}

abbrev app : Application
app = record {
  id = "a1";
  name = "shop";
  description = none;
  status = published;
  current_version = 2;
  org_id = "o1";
  owner_id = "u1";
  project_id = "p1";
  schema_revision = 3;
  draft_schema = none;
  published_version_id = some "v1";
}

abbrev first : ApplicationVersion
first = record {
  id = "v1";
  application_id = "a1";
  version_number = 1;
  schema_version = "1.0.0";
  schema = obj end;
  description = none;
  is_published = true;
  published_at = some 1;
  published_by = some "u1";
  created_by = some "u1";
}

abbrev second : ApplicationVersion
second = record first {
  id = "v2";
  version_number = 2;
  is_published = false;
  published_at = none;
  published_by = none;
}

abbrev start : State env
start = record { applications = app ∷ []; versions = first ∷ second ∷ []; audits = [] }

abbrev at_rest : State env
at_rest = record start { applications = record app { status = archived } ∷ [] }

abbrev shown : ApplicationVersion
shown = record second { is_published = true; published_at = some 9; published_by = some "u1" }

published_now : (publish_version env 9 "a1" "v2" "o1" "u1" start).0 ≡ ok shown
unfolding publish_version find_one_application
published_now = refl

marked :
    (execute env (publish 9 "v1") "a1" "o1" "u1" start).0
    ≡ some (conflict "VERSION_ALREADY_PUBLISHED")
unfolding execute publish_version find_one_application
marked = refl

execute_foreign_example :
    execute env remove "a1" "o2" "u9" start ≡ (some (not_found "Application not found"), start)
execute_foreign_example = execute_foreign env remove "a1" "o2" "u9" start refl

publish-get_published_example :
    (get_published_version env "a1" "o1" (publish_version env 9 "a1" "v2" "o1" "u1" start).1).0
    ≡ ok shown
publish-get_published_example =
    publish-get_published env 9 "a1" "v2" "o1" "u1" start shown refl published_now

abbrev hidden : Application
hidden = record app { published_version_id = none; status = ApplicationStatus.draft }

hidden_now : (unpublish_version env "a1" "o1" "u1" start).0 ≡ ok hidden
unfolding unpublish_version find_one_application
hidden_now = refl

abbrev dto : SaveDraftSchemaDto
dto = record { schema = end; schema_version = none; expected_revision = some 3 }

abbrev drafted : Application
drafted = record app {
  draft_schema = some (
      obj (
        field "schemaVersion" (str "1.0.0") (
          field "metadata" (obj (field "applicationId" (str "a1") (field "name" (str "shop") end)))
            end)));
  schema_revision = 4;
}

drafted_now : (save_draft_schema env "a1" dto "o1" "u1" start).0 ≡ ok drafted
unfolding save_draft_schema find_one_application validate_application_schema full_schema
drafted_now = refl

save_draft_race_example :
    save_draft_schema env "a1" dto "o1" "u2" (save_draft_schema env "a1" dto "o1" "u1" start).1 ≡ (
      err (conflict "APPLICATION_SCHEMA_REVISION_CONFLICT"),
      (save_draft_schema env "a1" dto "o1" "u1" start).1,
    )
save_draft_race_example =
    save_draft_race env "a1" "o1" "u1" "u2" dto dto start 3 drafted refl refl drafted_now

abbrev blank : State env
blank = record {
  applications = record app { current_version = 0; published_version_id = none } ∷ [];
  versions = [];
  audits = [];
}

blank-WellNumbered : WellNumbered env blank
blank-WellNumbered = record { numbered = λ j v h. cc; distinct = λ i j v w h h' same equal. cc }

abbrev version_dto : CreateApplicationVersionDto
version_dto = record { schema_version = "1.0.0"; schema = end; description = none }

execute-WellNumbered_example :
    WellNumbered env (execute env (version "v9" version_dto) "a1" "o1" "u1" blank).1
execute-WellNumbered_example =
    execute-WellNumbered env (version "v9" version_dto) "a1" "o1" "u1" blank tt blank-WellNumbered

abbrev made : ApplicationVersion
made = record {
  id = "v9";
  application_id = "a1";
  version_number = 3;
  schema_version = "1.0.0";
  schema = obj (
      field "schemaVersion" (str "1.0.0") (
        field "metadata" (obj (field "applicationId" (str "a1") (field "name" (str "shop") end)))
          end));
  description = none;
  is_published = false;
  published_at = none;
  published_by = none;
  created_by = some "u1";
}

made_now : (create_version env "v9" "a1" version_dto "o1" "u1" start).0 ≡ ok made
unfolding create_version find_one_application validate_application_schema full_schema
made_now = refl
