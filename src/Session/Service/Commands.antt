-- ===== src/Session/Service/Commands.antt =====
-- The methods that change a session, as one type of commands on one session.
use manbaa_backend.Base.{String, Option}
use manbaa_backend.Exec.{Exec, pure, ◌>>◌}
use manbaa_backend.Session.Fsm.{SessionMode}
use manbaa_backend.Session.Types.{Date, RequestUser, UpdateSessionStatusDto}
use manbaa_backend.Session.Service.{
  Env, State, update_mode, finalize, dispatch_ai_task, archive, override_status,
}

pub data Command : Type 0 where
  change_mode : SessionMode → Command
  finish : Date → Command
  dispatch : String → Option String → Option String → Command
  remove : Date → Command
  override : UpdateSessionStatusDto → Date → Command

-- The session's id, the caller and the command; the answer is dropped.
unfoldable pub execute :
    {Score : Type 0} (env : Env Score) → String → RequestUser → Command → Exec (State env) Unit
execute env id caller (change_mode mode) = do update_mode env id mode caller; pure tt
execute env id caller (finish now) = do finalize env id caller now; pure tt
execute env id caller (dispatch input kind resume) = do
  dispatch_ai_task env id input kind resume caller
  pure tt
execute env id caller (remove now) = do archive env id caller now; pure tt
execute env id caller (override dto now) = do override_status env id dto caller now; pure tt
