-- ===== src/Source/Lifecycle/Tests.antt =====
-- One source on its way, and the theorems at concrete inputs.
use manbaa_backend.Base.{
  ◌↔◌, ap, sym, ◌∙◌, String, ◌≡◌, refl, ◌≢◌, none, some, true, List, [], ◌∷◌, ◌⊎◌,
}
use manbaa_backend.Exec.{ok, err, error}
use manbaa_backend.Repository.Assoc.{assoc}
use manbaa_backend.Json.{get, Json, str, num, obj, whole, Fields, field, end}
use manbaa_backend.Messaging.DomainEvent.{assert_domain_event}
use manbaa_backend.Source.Types.{
  pending, processing, Source, SourceVersion, SourceLifecycleKind, SourceLifecycleEvent,
}
use manbaa_backend.Source.Payload.{assert_uuid, assert_payload}
use manbaa_backend.Source.Transition.{changed, verdict, apply_transition}
use manbaa_backend.Source.Transition.Order.{Advances, changed_iff_Advances}
use manbaa_backend.Source.Lifecycle.{
  safe_payload, Env, State, Screened, screen, authorize, settle, commit, handle, find_source,
  find_version, receipt_of,
}
use manbaa_backend.Source.Lifecycle.Once.{commits, commit_once}
use manbaa_backend.Source.Lifecycle.Tenancy.{InScope, Climbs, commit_version, commits-Climbs}

abbrev env : Env
env = record {
  receipts = assoc (λ r. r.event_id);
  receipt_key = λ r. refl;
  sources = assoc (λ r. r.id);
  source_key = λ r. refl;
  versions = assoc (λ r. r.id);
  version_key = λ r. refl;
  is_uuid = λ s. true;
  date_parses = λ s. true;
  verify = λ token. ok (record {
    service = "document-worker";
    organization_id = "o1";
    workspace_id = some "w1";
    correlation_id = "c1";
    allowed_actions = "source.processing" ∷ [];
    jti = some token;
  });
  text_length = λ s. 5;
}

abbrev source : Source
source = record {
  id = "s1";
  organization_id = "o1";
  workspace_id = "w1";
  status = pending;
  current_version_id = some "v1";
  created_by = "u1";
  deleted_at = none;
}

abbrev version : SourceVersion
version = record {
  id = "v1";
  source_id = "s1";
  organization_id = "o1";
  workspace_id = "w1";
  processing_status = pending;
  extracted_at = none;
  indexed_at = none;
  failure_code = none;
  failure_message = none;
}

abbrev start : State env
start = record { receipts = []; sources = source ∷ []; versions = version ∷ []; notices = [] }

abbrev payload : Fields
payload =
    field "sourceId" (str "s1")
      (field "sourceVersionId" (str "v1") (field "internalToken" (str "t1") end))

abbrev event : String → Json
event kind = obj (
    field "schemaVersion" (num (whole 1)) (
      field "eventId" (str "e1") (
        field "eventType" (str kind) (
          field "organizationId" (str "o1") (
            field "workspaceId" (str "w1") (
              field "userId" (str "worker") (
                field "correlationId" (str "c1")
                  (field "timestamp" (str "2026-07-11") (field "payload" (obj payload) end)))))))))

abbrev job : Screened
job = record {
  event = record {
    schema_version = 1;
    event_id = "e1";
    event_type = "workspace.source.processing";
    organization_id = "o1";
    workspace_id = some (str "w1");
    user_id = "worker";
    correlation_id = "c1";
    timestamp = "2026-07-11";
    payload = payload;
  };
  scope = record {
    event_id = "e1";
    event_type = "workspace.source.processing";
    organization_id = "o1";
    workspace_id = "w1";
    source_id = "s1";
    source_version_id = "v1";
  };
  token = "t1";
}

screened :
    screen env SourceLifecycleKind.processing (event "workspace.source.processing") start
    ≡ (ok job, start)
unfolding screen assert_domain_event assert_uuid assert_payload
screened = refl

handled :
    (handle env
      (λ s. s)
      SourceLifecycleKind.processing
      (event "workspace.source.processing")
      start).0
    ≡ ok tt
unfolding handle screen authorize commit settle find_source find_version assert_domain_event
    assert_uuid assert_payload apply_transition verdict
handled = refl

changed_iff_Advances_example :
    ((apply_transition SourceLifecycleKind.processing source version "2026-07-11" none none).outcome
      ≡ changed)
    ↔ ((source.current_version_id ≡ some version.id)
        × Advances pending SourceLifecycleKind.processing)
changed_iff_Advances_example =
    changed_iff_Advances SourceLifecycleKind.processing source version "2026-07-11" none none

-- The event `indexed` comes before its prerequisites.
too_early :
    (commit env SourceLifecycleKind.indexed job "j1" start).0
    ≡ err (error "Source lifecycle event arrived before its prerequisite")
unfolding commit settle find_source find_version apply_transition verdict
too_early = refl

abbrev moved : State env
moved = record {
  receipts = receipt_of env job.scope "j1" ∷ [];
  sources = record source { status = processing } ∷ source ∷ [];
  versions = record version { processing_status = processing } ∷ version ∷ [];
  notices = [];
}

first_commit : (commit env SourceLifecycleKind.processing job "j1" start).1 ≡ moved
unfolding commit settle find_source find_version apply_transition verdict
first_commit = refl

moved_anew : (commit env SourceLifecycleKind.processing job "j1" start).1 ≢ start
moved_anew h = absurd (no_receipts (ap (λ (t : State env). t.receipts) (sym first_commit ∙ h)))
  where
    no_receipts : {r : SourceLifecycleEvent} {rs : List SourceLifecycleEvent} → (r ∷ rs) ≢ []
    no_receipts e = cc

-- Another event of the same version, which is recorded in between.
abbrev between : List (SourceLifecycleKind × Screened × String)
between =
    (
      SourceLifecycleKind.extracted,
      record job { scope = record job.scope { event_id = "e2" } },
      "j3",
    )
    ∷ []

commit_once_example :
    let t = commits env between (commit env SourceLifecycleKind.processing job "j1" start).1 in
    (commit env SourceLifecycleKind.failed job "j2" t).1 ≡ t
commit_once_example =
    commit_once env SourceLifecycleKind.processing SourceLifecycleKind.failed job job "j1" "j2"
      between start moved_anew refl

received :
    screen env SourceLifecycleKind.processing (event "workspace.source.processing") moved
    ≡ (ok job, moved)
unfolding screen assert_domain_event assert_uuid assert_payload
received = refl

commit_version_example :
    (t : SourceVersion) × (env.versions.get "v1"
        (commit env SourceLifecycleKind.processing job "j1" start).1.versions
      ≡ some t)
    × ((t ≡ version)
        ⊎ (InScope job.scope version
            × Advances pending SourceLifecycleKind.processing
            × (t.processing_status ≡ processing)))
commit_version_example =
    commit_version env SourceLifecycleKind.processing job "j1" start "v1" version refl

commits-Climbs_example :
    (t : SourceVersion) × (env.versions.get "v1"
        (commits env
          ((SourceLifecycleKind.processing, job, "j1")
            ∷ (SourceLifecycleKind.failed, job, "j2")
            ∷ [])
          start).versions
      ≡ some t)
    × Climbs pending t.processing_status
commits-Climbs_example =
    commits-Climbs env
      ((SourceLifecycleKind.processing, job, "j1") ∷ (SourceLifecycleKind.failed, job, "j2") ∷ [])
      start "v1" version refl

passes : assert_payload (λ s. true) payload ≡ ok tt
unfolding assert_payload
passes = refl

is_sent : get "sourceId" (safe_payload payload) ≡ some (str "s1")
unfolding safe_payload
is_sent = refl
