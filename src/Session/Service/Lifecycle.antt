-- ===== src/Session/Service/Lifecycle.antt =====
-- Every command on a session, granted or refused: what becomes of the session and of the others.
use manbaa_backend.Base.{
  String, ◌≡◌, refl, ◌≢◌, inl, inr, true, ◌||◌, sym, ◌∙◌, ap, some, arith, eq_iff, ◌==◌,
  Option-cases, &&_true, eq_refl, if◌then◌else◌, [],
}
use manbaa_backend.Exec.{ok, Result-cases}
use manbaa_backend.Session.Fsm.{
  user_finalizes, user_deletes, transition_session_status, SessionStatus,
}
use manbaa_backend.Session.Fsm.Traces.{start}
use manbaa_backend.Session.Types.{Session, Workflow, RequestUser}
use manbaa_backend.Session.Service.{Env, State, finalize, archive}
use manbaa_backend.Session.Service.Commands.{
  Command, change_mode, finish, dispatch, remove, override, execute,
}
use manbaa_backend.Session.Service.Safety.{allows, execute-may_manage, refused_table}
use manbaa_backend.Session.Service.Moves.{
  IsUnforced, Reached, Change, Does, mode-Does, finish-Does, remove-Does, dispatch-Does,
  override-Does,
}

module _ {Score : Type 0} (env : Env Score) (id : String) (caller : RequestUser)
    (s : State env) where
  open env use {sessions}

  finish_ok :
      (session : Session Score) (now : _)
      → sessions.get id s.table ≡ some session
      → (execute env id caller (finish now) s).0 ≡ ok tt
      → (t : SessionStatus) × (transition_session_status session.status user_finalizes
            (some session.mode)
          ≡ ok t)
  unfolding execute
  finish_ok session now found h =
      elim (Result-cases
        (transition_session_status session.status user_finalizes (some session.mode))) [
          | inl r ↦ r
          | inr (e, r) ↦ unfold finalize in ground arith
        ]

  remove_ok :
      (session : Session Score) (now : _)
      → sessions.get id s.table ≡ some session
      → (execute env id caller (remove now) s).0 ≡ ok tt
      → (t : SessionStatus) × (transition_session_status session.status user_deletes
            (some session.mode)
          ≡ ok t)
  unfolding execute
  remove_ok session now found h =
      elim (Result-cases
        (transition_session_status session.status user_deletes (some session.mode))) [
          | inl r ↦ r
          | inr (e, r) ↦ unfold archive in ground arith
        ]

  -- A granted command changes the table in the one way that it may.
  granted-Does :
      (c : Command) (session : Session Score) (w : Workflow)
      (found : sessions.get id s.table ≡ some session)
      (belongs : env.workflow session.workflow_id ≡ some w)
      (in_org : (w.org_id == caller.org_id) ≡ true)
      (allowed : (caller.role == "admin" || session.user_id == caller.id) ≡ true)
      → (execute env id caller c s).0 ≡ ok tt
      → Does env id caller s session w found belongs in_org allowed c
  granted-Does (change_mode mode) session w found belongs in_org allowed h =
      mode-Does env id caller s session w found belongs in_org allowed mode
  granted-Does (finish now) session w found belongs in_org allowed h =
      let (t, e) = finish_ok session now found h in
      finish-Does env id caller s session w found belongs in_org allowed now t e
  granted-Does (dispatch input kind resume) session w found belongs in_org allowed h =
      dispatch-Does env id caller s session w found belongs in_org allowed input kind resume h
  granted-Does (remove now) session w found belongs in_org allowed h =
      let (t, e) = remove_ok session now found h in
      remove-Does env id caller s session w found belongs in_org allowed now t e
  granted-Does (override dto now) session w found belongs in_org allowed h =
      override-Does env id caller s session w found belongs in_org allowed dto now h

  execute-Change :
      (c : Command) (session : Session Score)
      → sessions.get id s.table ≡ some session
      → Change env c session s.table (execute env id caller c s).1.table
  execute-Change c session found = elim (Result-cases (execute env id caller c s).0) [
    | inr (e, h) ↦ inl (refused_table env id caller c s e h)
    | inl (u, h) ↦
        let allowed = execute-may_manage env id caller c s h in
        elim (Option-cases (env.workflow session.workflow_id)) [
          | inl missing ↦ ground arith
          | inr (w, belongs) ↦
              let both : allows env caller session w ≡ true = ground arith in
              let (in_org, may) = &&_true _ _ both in
              granted-Does c session w found belongs in_org may h
        ]
  ]

  save_lookup :
      (session r : Session Score)
      → sessions.get id s.table ≡ some session
      → r.id ≡ session.id
      → (j : String)
      → sessions.get j (sessions.save r s.table)
        ≡ (if id == j then some r else sessions.get j s.table)
  save_lookup session r found same j =
      let row_key : sessions.key r ≡ id =
        env.key_is_id r
        ∙ (same ∙ (sym (env.key_is_id session) ∙ sessions.key-get id s.table session found)) in
      sessions.get-save r s.table j ∙ rw row_key

  -- Whatever the command, its caller and its outcome, the sessions of other ids stay as they were.
  pub execute_frame :
      (c : Command) (session : Session Score) (j : String)
      → sessions.get id s.table ≡ some session
      → id ≢ j
      → sessions.get j (execute env id caller c s).1.table ≡ sessions.get j s.table
  execute_frame c session j found other = elim (execute-Change c session found) [
    | inl same ↦ ap (sessions.get j) same
    | inr w ↦
        ap (sessions.get j) w.saved
        ∙ (save_lookup session w.row found w.same_id j ∙ ground (arith, eq_iff id j))
  ]

  -- Whatever the outcome, the session is there afterwards, under its id, and unless the command forces
  -- a status its status is one that the state machine reaches from the old one, by events that it
  -- accepts in the session's mode.
  pub execute_moves :
      (c : Command) (session : Session Score)
      → sessions.get id s.table ≡ some session
      → (t : Session Score) × (sessions.get id (execute env id caller c s).1.table ≡ some t)
        × (t.id ≡ session.id)
        × (IsUnforced c → Reached session t)
  execute_moves c session found = elim (execute-Change c session found) [
    | inl same ↦ (session, ap (sessions.get id) same ∙ found, refl, λ _. ([], start))
    | inr w ↦ (
      w.row,
      ap (sessions.get id) w.saved
          ∙ (save_lookup session w.row found w.same_id id ∙ rw (eq_refl id)),
      w.same_id,
      w.reached,
    )
  ]
