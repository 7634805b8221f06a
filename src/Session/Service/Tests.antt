-- ===== src/Session/Service/Tests.antt =====
-- A session at work, and the theorems at concrete inputs.
use manbaa_backend.Base.{
  ◌⊎◌, ℕ, String, ◌≡◌, refl, none, some, Option, [], ◌∷◌, ◌==◌, if◌then◌else◌,
}
use manbaa_backend.Exec.{ok, err, error, not_found}
use manbaa_backend.Repository.{Repository}
use manbaa_backend.Repository.Assoc.{assoc}
use manbaa_backend.Session.Fsm.{
  auto, SessionStatus, created, exported, invalid_transition, transition_session_status,
}
use manbaa_backend.Session.Types.{Session, Workflow, RequestUser}
use manbaa_backend.Session.Service.{Env, State, finalize, dispatch_ai_task}
use manbaa_backend.Session.Service.Commands.{finish, dispatch, execute}
use manbaa_backend.Session.Service.Safety.{Grant, IsPassedOn, execute_refused, execute_authorized}
use manbaa_backend.Session.Service.Moves.{Reached, IsUnforced}
use manbaa_backend.Session.Service.Lifecycle.{execute_moves}

abbrev flow : String → Option Workflow
flow id = if id == "w1" then some (record { id = "w1"; org_id = "o1" }) else none

abbrev table : Repository (Session ℕ)
table = assoc (λ r. r.id)

-- The score in hundredths.
abbrev env : Env ℕ
env = record {
  sessions = table;
  key_is_id = λ r. refl;
  zero_score = 0;
  workflow = flow;
  latest_version = λ w. none;
  latest_pipeline = λ x. none;
  latest_session = λ w t. none;
  ai_gateway = λ t. ok (record { pipeline_execution_id = "p1"; nats_message_id = "n1" });
}

abbrev row : String → SessionStatus → Session ℕ
row id status = record {
  id = id;
  workflow_id = "w1";
  user_id = "u1";
  mode = auto;
  status = status;
  confidence_score = 40;
  created_at = 1;
  finalized_at = none;
  archived_at = none;
}

abbrev start : State env
start = record { table = row "s1" created ∷ row "s2" exported ∷ []; effects = [] }

abbrev owner : RequestUser
owner = record { id = "u1"; org_id = "o1"; role = "viewer" }

abbrev stranger : RequestUser
stranger = record { id = "u9"; org_id = "o2"; role = "admin" }

finish_exported : (execute env "s2" owner (finish 7) start).0 ≡ err invalid_transition
unfolding execute finalize transition_session_status
finish_exported = refl

finish-stranger :
    (execute env "s1" stranger (finish 7) start).0 ≡ err (not_found "Session not found")
unfolding execute finalize transition_session_status
finish-stranger = refl

finish_owner : (execute env "s1" owner (finish 7) start).0 ≡ ok tt
unfolding execute finalize transition_session_status
finish_owner = refl

-- The AI gateway fails.
abbrev unreachable : Env ℕ
unreachable = record env { ai_gateway = λ t. err (error "NATS is not connected") }

abbrev cut_off : State unreachable
cut_off = record { table = start.table; effects = [] }

dispatch_failed :
    (execute unreachable "s1" owner (dispatch "go" none none) cut_off).0
    ≡ err (error "NATS is not connected")
unfolding execute dispatch_ai_task
dispatch_failed = refl

execute_refused_example :
    let t = (execute unreachable "s1" owner (dispatch "go" none none) cut_off).1 in
    (t ≡ cut_off)
    ⊎ IsPassedOn unreachable (dispatch "go" none none) (error "NATS is not connected") cut_off t
execute_refused_example =
    execute_refused unreachable "s1" owner (dispatch "go" none none) cut_off
      (error "NATS is not connected") dispatch_failed

execute_authorized_example : Grant env "s1" owner start
execute_authorized_example = execute_authorized env "s1" owner (finish 7) start finish_owner

execute_moves_example :
    (t : Session ℕ) × (table.get "s1"
        (execute env "s1" owner (dispatch "go" none none) start).1.table
      ≡ some t)
    × (t.id ≡ "s1")
    × (IsUnforced (dispatch "go" none none) → Reached (row "s1" created) t)
execute_moves_example =
    execute_moves env "s1" owner start (dispatch "go" none none) (row "s1" created) refl
