-- ===== src/Canvas/Service/Tests.antt =====
-- A canvas with a locked object, and the theorems at concrete inputs.
use manbaa_backend.Base.{◌≡◌, ◌↔◌, refl, true, none, some, [], ◌∷◌, arith, Has}
use manbaa_backend.Exec.{ok, err, not_found}
use manbaa_backend.Json.{obj, end, whole}
use manbaa_backend.Json.Equality.{same, same_self}
use manbaa_backend.Repository.Assoc.{assoc}
use manbaa_backend.Repository.Listing.{listing, removing}
use manbaa_backend.Session.Types.{RequestUser}
use manbaa_backend.Canvas.Types.{
  Canvas, CanvasObject, Workflow, CreateCanvasObjectDto, UpdateCanvasObjectDto, MoveCanvasObjectDto,
  CreateCanvasOperationDto, CanvasSnapshot,
}
use manbaa_backend.Canvas.Service.{
  Env, State, get_or_create_canvas, require_canvas_mutation_permission, find_canvas_or_throw,
  append_operation, get_canvas, find_workflow_in_org_or_throw, find_object_in_org_or_throw,
  resolve_workflow_id,
}
use manbaa_backend.Canvas.Service.Objects.{
  created_payload, object_of, update_object, move_object, delete_object, remove_object, open_object,
  lock_object,
}
use manbaa_backend.Canvas.Service.Operations.{
  accepted, duplicate, revision_conflict, operation_of, commit_operation,
}
use manbaa_backend.Canvas.Service.Commits.{snapshot_object, create_snapshot, get_snapshot}
use manbaa_backend.Canvas.Service.Log.{LogRun, IsLog}
use manbaa_backend.Canvas.Service.Log.Commands.{
  Command, create, execute, execute-LogRun, execute-IsLog,
}
use manbaa_backend.Canvas.Service.Replay.{accepted_again, accepted_first}
use manbaa_backend.Canvas.Service.Refusals.{locked_object, foreign_object, IsRefused}
use manbaa_backend.Canvas.Service.Snapshots.{create-get_snapshot}

abbrev env : Env
env = record {
  canvases = assoc (λ r. r.id);
  canvas_key = λ r. refl;
  objects = assoc (λ r. r.id);
  object_key = λ r. refl;
  objects_listing = listing (λ r. r.id);
  objects_removing = removing (λ r. r.id);
  operations = assoc (λ r. r.id);
  operation_key = λ r. refl;
  workflows = assoc (λ r. r.id);
  workflow_key = λ r. refl;
  workflow_versions = assoc (λ r. r.id);
  snapshots = assoc (λ r. r.id);
  snapshot_key = λ r. refl;
  canvas_versions = assoc (λ r. r.id);
  permissions = record { members = assoc (λ m. m.id); organization_members = assoc (λ o. o.id) };
  members = [];
  organization_members = [];
  deep_equal = same;
  deep_equal_self = same_self;
  byte_length = λ j. 2;
}

abbrev canvas : Canvas
canvas = record { id = "c1"; workflow_id = "f1"; workspace_id = none; revision = 0 }

abbrev workflow : Workflow
workflow = record { id = "f1"; org_id = "o1"; owner_id = "u1"; current_version = 0 }

abbrev object : CanvasObject
object = record {
  id = "x1";
  canvas_id = "c1";
  kind = "task";
  elsa_type = none;
  label = some "Pay";
  properties = obj end;
  position_x = whole 1;
  position_y = whole 2;
  width = none;
  height = none;
  style = none;
  is_locked = true;
  created_by = "u1";
}

abbrev start : State env
start = record {
  canvases = [];
  objects = [];
  operations = [];
  workflows = workflow ∷ [];
  workflow_versions = [];
  snapshots = [];
  canvas_versions = [];
  effects = [];
}

abbrev opened : State env
opened = record start { canvases = canvas ∷ []; objects = object ∷ [] }

abbrev analyst : RequestUser
analyst = record { id = "u1"; org_id = "o1"; role = "business_analyst" }

abbrev stranger : RequestUser
stranger = record { id = "u2"; org_id = "o2"; role = "admin" }

abbrev new_object : CreateCanvasObjectDto
new_object = record {
  kind = "task";
  elsa_type = none;
  label = none;
  properties = none;
  position_x = whole 0;
  position_y = whole 0;
  width = none;
  height = none;
  style = none;
}

abbrev creation : Command env
creation = create (record { canvas = "c1"; object = "x1"; operation = "p1" }) "f1" new_object

start-IsLog : IsLog env start
start-IsLog = record {
  placed = λ j op h. absurd (ground (arith, h));
  distinct = λ i j a b h h' e e'. absurd (ground (arith, h));
  dense = λ k c n h lo hi. absurd (ground (arith, h));
}

execute-LogRun_example : LogRun env start (execute env creation analyst start)
execute-LogRun_example = execute-LogRun env creation analyst start (refl, refl)

execute-IsLog_example : IsLog env (execute env creation analyst start)
execute-IsLog_example = execute-IsLog env creation analyst start (refl, refl) start-IsLog

-- The first object of a workflow makes its canvas, and its creation is operation number one.
creation_logged :
    (execute env creation analyst start).operations
    ≡ record {
      id = "p1";
      canvas_id = "c1";
      organization_id = none;
      workspace_id = none;
      canvas_object_id = some "x1";
      user_id = "u1";
      op_type = "object_create";
      op_payload = created_payload (object_of "x1" "c1" new_object "u1");
      version_vector = none;
      sequence_number = 1;
      client_revision = none;
    }
      ∷ []
unfolding execute get_or_create_canvas require_canvas_mutation_permission find_canvas_or_throw
    append_operation
creation_logged = refl

-- The operation of a deletion would name the object that is gone: nothing is deleted.
deletion_refused : (delete_object env "p1" "x1" analyst opened).1 ≡ opened
unfolding delete_object remove_object open_object lock_object find_object_in_org_or_throw
    resolve_workflow_id find_canvas_or_throw require_canvas_mutation_permission append_operation
deletion_refused = refl

abbrev no_edit : UpdateCanvasObjectDto
no_edit = record {
  label = some "Paid";
  elsa_type = none;
  properties = none;
  position_x = none;
  position_y = none;
  width = none;
  height = none;
  style = none;
}

abbrev target : MoveCanvasObjectDto
target = record { position_x = whole 5; position_y = whole 5 }

locked_object_example :
    IsRefused env (update_object env "p1" "x1" no_edit analyst) opened
    × IsRefused env (move_object env "p1" "x1" target analyst) opened
    × IsRefused env (delete_object env "p1" "x1" analyst) opened
locked_object_example =
    locked_object env "p1" "x1" no_edit target analyst opened object refl refl refl

foreign_object_example :
    (update_object env "p1" "x1" no_edit stranger opened
      ≡ (err (not_found "Canvas not found"), opened))
    × (move_object env "p1" "x1" target stranger opened
        ≡ (err (not_found "Canvas not found"), opened))
    × (delete_object env "p1" "x1" stranger opened ≡ (err (not_found "Canvas not found"), opened))
foreign_object_example =
    foreign_object env "p1" "x1" no_edit target stranger opened object canvas workflow refl refl
      refl refl

abbrev request : CreateCanvasOperationDto
request = record {
  operation_id = "p1";
  client_revision = 0;
  canvas_object_id = some "x1";
  op_type = "style";
  op_payload = obj end;
  version_vector = none;
}

abbrev later : CreateCanvasOperationDto
later = record request { operation_id = "p2" }

abbrev after : State env
after = (commit_operation env canvas request analyst opened).1

first_accepted : commit_operation env canvas request analyst opened ≡ (
  ok (accepted (operation_of env canvas canvas request analyst) (record canvas { revision = 1 })),
  after,
)
unfolding commit_operation find_canvas_or_throw
first_accepted = refl

accepted_again_example : commit_operation env canvas request analyst after ≡ (
  ok (duplicate (operation_of env canvas canvas request analyst) (record canvas { revision = 1 })),
  after,
)
unfolding commit_operation find_canvas_or_throw
accepted_again_example =
    accepted_again env canvas canvas (record canvas { revision = 1 }) request analyst opened after
      after (operation_of env canvas canvas request analyst) (record canvas { revision = 1 })
      first_accepted refl refl refl refl

accepted_first_example :
    commit_operation env canvas later analyst after ≡ (ok (revision_conflict 1), after)
unfolding commit_operation find_canvas_or_throw
accepted_first_example =
    accepted_first env canvas canvas request later analyst analyst opened after
      (operation_of env canvas canvas request analyst) (record canvas { revision = 1 })
      first_accepted refl refl refl

abbrev taken : CanvasSnapshot
taken = record {
  id = "s1";
  canvas_id = "c1";
  snapshot_data = snapshot_object object ∷ [];
  created_by = "u1";
  trigger = "manual";
}

abbrev snapped : State env
snapped = (create_snapshot env "s1" "f1" none analyst opened).1

was_taken : create_snapshot env "s1" "f1" none analyst opened ≡ (ok taken, snapped)
unfolding create_snapshot get_canvas find_workflow_in_org_or_throw
was_taken = refl

create-get_snapshot_example :
    (get_snapshot env "s1" "o1" snapped ≡ (ok taken, snapped))
    × (Has (snapshot_object object) (snapshot_object object ∷ [])
        ↔ (object.canvas_id ≡ taken.canvas_id))
create-get_snapshot_example =
    create-get_snapshot env "s1" "f1" none analyst opened snapped taken "x1" object was_taken refl
