-- ===== src/Session/Service/Moves.antt =====
-- How the commands move the status of a session, and that they move no other session.
use manbaa_backend.Base.{
  String, ◌≡◌, refl, ◌⊎◌, inl, inr, true, false, ◌||◌, subst, sym, Option, some, List, [], ◌∷◌,
  ◌++◌, arith, eq_iff, ◌==◌, or_else, Bool-cases, ◌∙◌, ap,
}
use manbaa_backend.Exec.{ok, Result-cases}
use manbaa_backend.Session.Fsm.{
  SessionMode, SessionStatus, created, awaiting_input, processing, in_elicitation, archived,
  same_mode, SessionFsmEvent, first_user_message, ai_task_published, user_finalizes, user_deletes,
  transition_session_status, can_transition_to,
}
use manbaa_backend.Session.Fsm.Edges.{first_message, publish, publish_answer, Edge-transition}
use manbaa_backend.Session.Fsm.Table.{can_transition_to_iff}
use manbaa_backend.Session.Fsm.Traces.{Run, start, step}
use manbaa_backend.Session.Types.{
  Date, Session, Workflow, RequestUser, UpdateSessionStatusDto, AiTask, publish_ai_task,
}
use manbaa_backend.Session.Service.{
  Env, State, update_mode, advance, dispatch_ai_task, override_status, stamp,
}
use manbaa_backend.Session.Service.Commands.{
  Command, change_mode, finish, dispatch, remove, override, execute,
}
use manbaa_backend.Session.Service.Outcomes.{
  overridden, update_mode_lem, finalize_lem, archive_lem, dispatch_lem, table-override_status,
}

-- A command that does not force a status.
abbrev pub IsUnforced : Command → Type 0
IsUnforced (override dto now) = dto.force ≡ false
IsUnforced _ = Unit

-- A status that is reached from the session's own by events that the machine accepts.
abbrev pub Reached : {Score : Type 0} → Session Score → Session Score → Type 0
Reached session t =
    (events : List SessionFsmEvent) × Run (some session.mode) session.status t.status events

one_step :
    {Score : Type 0} (session t : Session Score) (event : SessionFsmEvent)
    → transition_session_status session.status event (some session.mode) ≡ ok t.status
    → Reached session t
one_step session t event e = (event ∷ [], step event start e)

module _ {Score : Type 0} (env : Env Score) where
  open env use {sessions}

  -- The command wrote one row for the session, with a status that the machine reaches.
  pub record Written (c : Command) (session : Session Score) (before after : sessions.Store)
      : Type 0 where
    pub row : Session Score
    pub same_id : row.id ≡ session.id
    pub saved : after ≡ sessions.save row before
    pub reached : IsUnforced c → Reached session row

  abbrev pub Change : Command → Session Score → sessions.Store → sessions.Store → Type 0
  Change c session before after = (after ≡ before) ⊎ Written c session before after

  abbrev moved : Session Score → Session Score
  moved session = record session { status = processing }

  advance-Change :
      (status : SessionStatus) (session : Session Score) (s : State env) (c : Command)
      → session.status ≡ status
      → Change c session s.table (advance env status session s).1.table
  unfolding advance
  advance-Change created session s c e =
      let opens = Edge-transition (first_message {m = some session.mode}) in
      let publishes = Edge-transition (publish {m = some session.mode}) in
      inr (record {
        row = moved session;
        same_id = refl;
        saved = ground arith;
        reached = λ _. (
          ai_task_published ∷ first_user_message ∷ [],
          step ai_task_published (step first_user_message start (rw e opens)) publishes,
        );
      })
  advance-Change awaiting_input session s c e =
      let publishes = Edge-transition (publish {m = some session.mode}) in
      inr (record {
        row = moved session;
        same_id = refl;
        saved = ground arith;
        reached = λ _. one_step session (moved session) ai_task_published (rw e publishes);
      })
  advance-Change in_elicitation session s c e =
      let publishes = Edge-transition (publish_answer {m = some session.mode}) in
      inr (record {
        row = moved session;
        same_id = refl;
        saved = ground arith;
        reached = λ _. one_step session (moved session) ai_task_published (rw e publishes);
      })
  advance-Change _ session s c e = inl refl

  id-stamp :
      (status : SessionStatus) (now : Date) (session : Session Score)
      → (stamp env status now session).id ≡ session.id
  unfolding stamp
  id-stamp archived now session = refl
  id-stamp _ now session = refl

  status-stamp :
      (status : SessionStatus) (now : Date) (session : Session Score) {t : SessionStatus}
      → session.status ≡ t
      → (stamp env status now session).status ≡ t
  unfolding stamp
  status-stamp archived now session e = e
  status-stamp _ now session e = e

  dispatch-table :
      (id : String) (caller : RequestUser) (input : String) (kind resume : Option String)
      (s : State env)
      → (execute env id caller (dispatch input kind resume) s).1.table
        ≡ (dispatch_ai_task env id input kind resume caller s).1.table
  unfolding execute
  dispatch-table id caller input kind resume s = ground arith

  override-table :
      (id : String) (caller : RequestUser) (dto : UpdateSessionStatusDto) (now : Date)
      (s : State env)
      → (execute env id caller (override dto now) s).1.table
        ≡ (override_status env id dto caller now s).1.table
  unfolding execute
  override-table id caller dto now s = ground arith

module _ {Score : Type 0} (env : Env Score) (id : String) (caller : RequestUser) (s : State env)
    (session : Session Score) (w : Workflow) (found : env.sessions.get id s.table ≡ some session)
    (belongs : env.workflow session.workflow_id ≡ some w)
    (in_org : (w.org_id == caller.org_id) ≡ true)
    (allowed : (caller.role == "admin" || session.user_id == caller.id) ≡ true) where
  abbrev pub Does : Command → Type 0
  Does c = Change env c session s.table (execute env id caller c s).1.table

  pub mode-Does : (mode : SessionMode) → Does (change_mode mode)
  unfolding execute
  mode-Does mode = elim (Bool-cases (same_mode session.mode mode)) [
    | inl same ↦ unfold update_mode in inl (ground arith)
    | inr other ↦ inr (record {
      row = record session { mode = mode };
      same_id = refl;
      saved = ground (
        arith,
        update_mode_lem env id caller s session w found belongs in_org allowed mode other,
      );
      reached = λ _. ([], start);
    })
  ]

  pub finish-Does :
      (now : Date) (t : SessionStatus)
      → transition_session_status session.status user_finalizes (some session.mode) ≡ ok t
      → Does (finish now)
  unfolding execute
  finish-Does now t h =
      let saved : Session Score = record session { status = t; finalized_at = some now } in
      inr (record {
        row = saved;
        same_id = refl;
        saved =
            ground
              (arith, finalize_lem env id caller s session w found belongs in_org allowed now t h);
        reached = λ _. one_step session saved user_finalizes h;
      })

  pub remove-Does :
      (now : Date) (t : SessionStatus)
      → transition_session_status session.status user_deletes (some session.mode) ≡ ok t
      → Does (remove now)
  unfolding execute
  remove-Does now t h =
      let saved : Session Score = record session { status = t; archived_at = some now } in
      inr (record {
        row = saved;
        same_id = refl;
        saved =
            ground
              (arith, archive_lem env id caller s session w found belongs in_org allowed now t h);
        reached = λ _. one_step session saved user_deletes h;
      })

  pub dispatch-Does :
      (input : String) (kind resume : Option String)
      → (execute env id caller (dispatch input kind resume) s).0 ≡ ok tt
      → Does (dispatch input kind resume)
  unfolding execute
  dispatch-Does input kind resume h =
      let task : AiTask = record {
        session_id = session.id;
        task_type = or_else kind "FULL_PIPELINE";
        mode = session.mode;
        input = input;
        triggered_by = caller.id;
        resume_from_checkpoint = resume;
      } in
      let s' : State env = record s { effects = s.effects ++ publish_ai_task task ∷ [] } in
      elim (Result-cases (env.ai_gateway task)) [
        | inl (p, e) ↦
            let same : (execute env id caller (dispatch input kind resume) s).1.table
                ≡ (advance env session.status session s').1.table =
              ground (
                arith,
                dispatch_lem env id caller s session w found belongs in_org allowed input kind
                    resume p e,
                dispatch-table env id caller input kind resume s,
              ) in
            subst (Change env (dispatch input kind resume) session s.table) (sym same)
              (advance-Change env session.status session s' (dispatch input kind resume) refl)
        | inr (x, e) ↦ unfold dispatch_ai_task in ground arith
      ]

  override_checks :
      (dto : UpdateSessionStatusDto) (now : Date)
      → (execute env id caller (override dto now) s).0 ≡ ok tt
      → (caller.role ≡ "admin")
        × ((dto.force || can_transition_to session.status dto.status (some session.mode)) ≡ true)
  unfolding execute override_status
  override_checks dto now h = ground (arith, eq_iff caller.role "admin")

  pub override-Does :
      (dto : UpdateSessionStatusDto) (now : Date)
      → (execute env id caller (override dto now) s).0 ≡ ok tt
      → Does (override dto now)
  override-Does dto now h =
      let (admin, legal) = override_checks dto now h in
      let row = overridden env id caller s session w found belongs in_org allowed dto now in
      inr (record {
        row = row;
        same_id = id-stamp env dto.status now _;
        saved =
            override-table env id caller dto now s
            ∙ table-override_status env id caller s session w found belongs in_org allowed dto now
                admin legal;
        reached = λ unforced.
            let (event, e) =
              (can_transition_to_iff session.status dto.status (some session.mode)).0
                (rw unforced at legal) in
            one_step session row event (e ∙ ap ok (sym (status-stamp env dto.status now _ refl)));
      })
