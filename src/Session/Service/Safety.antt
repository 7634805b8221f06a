-- ===== src/Session/Service/Safety.antt =====
-- What the commands on a session never do.
use manbaa_backend.Base.{
  String, ◌≡◌, refl, ◌⊎◌, Bool, true, false, ◌&&◌, ◌||◌, Option-cases, inl, inr, none, some, arith,
  eq_iff, ◌==◌, ap, Option, or_else, Bool-cases, [], ◌∷◌, ◌++◌,
}
use manbaa_backend.Exec.{Failure, ok, err, Result-cases}
use manbaa_backend.Session.Fsm.{SessionStatus, created, awaiting_input, in_elicitation}
use manbaa_backend.Session.Fsm.Edges.{first_message, publish, publish_answer, Edge-transition}
use manbaa_backend.Session.Types.{Session, Workflow, RequestUser, AiTask, publish_ai_task}
use manbaa_backend.Session.Service.{
  Env, State, update_mode, finalize, advance, dispatch_ai_task, archive, override_status,
}
use manbaa_backend.Session.Service.Commands.{
  Command, change_mode, finish, dispatch, remove, override, execute,
}

module _ {Score : Type 0} (env : Env Score) where
  open env use {sessions, workflow, ai_gateway}

  -- The status changes after a published task are never refused.
  pub advance_total :
      (status : SessionStatus) (session : Session Score) (s : State env)
      → (advance env status session s).0 ≡ ok tt
  unfolding advance
  advance_total created session s = ground (
    arith,
    Edge-transition (first_message {m = some session.mode}),
    Edge-transition (publish {m = some session.mode}),
  )
  advance_total awaiting_input session s =
      ground (arith, Edge-transition (publish {m = some session.mode}))
  advance_total in_elicitation session s =
      ground (arith, Edge-transition (publish_answer {m = some session.mode}))
  advance_total _ session s = refl

  abbrev pub allows : RequestUser → Session Score → Workflow → Bool
  allows caller session w =
      w.org_id == caller.org_id && (caller.role == "admin" || session.user_id == caller.id)

  -- What a refused dispatch can leave behind: the call of the AI gateway, whose refusal it passes on.
  abbrev pub IsPassedOn : Command → Failure → State env → State env → Type 0
  IsPassedOn (dispatch input kind resume) e s t =
      (task : AiTask) × (task.input ≡ input)
      × (ai_gateway task ≡ err e)
      × (t ≡ record s { effects = s.effects ++ publish_ai_task task ∷ [] })
  IsPassedOn _ e s t = ⊥

  dispatch_refused :
      (id : String) (caller : RequestUser) (input : String) (kind resume : Option String)
      (s : State env) (e : Failure)
      → (execute env id caller (dispatch input kind resume) s).0 ≡ err e
      → let t = (execute env id caller (dispatch input kind resume) s).1 in
        (t ≡ s) ⊎ IsPassedOn (dispatch input kind resume) e s t
  unfolding execute dispatch_ai_task
  dispatch_refused id caller input kind resume s e h =
      elim (Option-cases (sessions.get id s.table)) [
        | inl missing ↦ inl (ground arith)
        | inr (session, found) ↦ elim (Option-cases (workflow session.workflow_id)) [
          | inl missing ↦ inl (ground arith)
          | inr (w, there) ↦ elim (Bool-cases (allows caller session w)) [
            | inr refused ↦ inl (ground arith)
            | inl granted ↦
                let task : AiTask = record {
                  session_id = session.id;
                  task_type = or_else kind "FULL_PIPELINE";
                  mode = session.mode;
                  input = input;
                  triggered_by = caller.id;
                  resume_from_checkpoint = resume;
                } in
                elim (Result-cases (ai_gateway task)) [
                  | inl (p, accepted) ↦ absurd (grind (arith, advance_total))
                  | inr (x, failed) ↦ inr (task, refl, ground arith, ground arith)
                ]
          ]
        ]
      ]

  -- A command that is refused has changed no session and called no other service, but for a dispatch whose
  -- task the AI gateway was given and refused: then this one call is all that it has done, and the gateway's
  -- failure is the one that the caller gets.
  pub execute_refused :
      (id : String) (caller : RequestUser) (c : Command) (s : State env) (e : Failure)
      → (execute env id caller c s).0 ≡ err e
      → ((execute env id caller c s).1 ≡ s) ⊎ IsPassedOn c e s (execute env id caller c s).1
  unfolding execute
  execute_refused id caller (change_mode mode) s e h = inl (unfold update_mode in ground arith)
  execute_refused id caller (finish now) s e h = inl (unfold finalize in ground arith)
  execute_refused id caller (dispatch input kind resume) s e h =
      dispatch_refused id caller input kind resume s e h
  execute_refused id caller (remove now) s e h = inl (unfold archive in ground arith)
  execute_refused id caller (override dto now) s e h = inl (unfold override_status in ground arith)

  passed_on_table :
      (c : Command) (e : Failure) (s t : State env) → IsPassedOn c e s t → t.table ≡ s.table
  passed_on_table (dispatch input kind resume) e s t (task, _, _, after) =
      ap (λ (x : State env). x.table) after
  passed_on_table (change_mode mode) e s t h = absurd h
  passed_on_table (finish now) e s t h = absurd h
  passed_on_table (remove now) e s t h = absurd h
  passed_on_table (override dto now) e s t h = absurd h

  -- A command that is refused writes no session.
  pub refused_table :
      (id : String) (caller : RequestUser) (c : Command) (s : State env) (e : Failure)
      → (execute env id caller c s).0 ≡ err e
      → (execute env id caller c s).1.table ≡ s.table
  refused_table id caller c s e h = elim (execute_refused id caller c s e h) [
    | inl same ↦ ap (λ (x : State env). x.table) same
    | inr passed ↦ passed_on_table c e s (execute env id caller c s).1 passed
  ]

  -- The session of this id, the workflow that it belongs to, and the caller's right to manage it.
  pub record Grant (id : String) (caller : RequestUser) (s : State env) : Type 0 where
    pub session : Session Score
    pub owner : Workflow
    pub found : sessions.get id s.table ≡ some session
    pub belongs : workflow session.workflow_id ≡ some owner
    pub in_org : owner.org_id ≡ caller.org_id
    pub allowed : (caller.role ≡ "admin") ⊎ (session.user_id ≡ caller.id)

  abbrev pub may_manage : String → RequestUser → State env → Bool
  may_manage id caller s = elim (sessions.get id s.table) [
    | none ↦ false
    | some session ↦ elim (workflow session.workflow_id) [
      | none ↦ false
      | some w ↦ allows caller session w
    ]
  ]

  allows-Grant :
      (id : String) (caller : RequestUser) (s : State env) (session : Session Score) (w : Workflow)
      → sessions.get id s.table ≡ some session
      → workflow session.workflow_id ≡ some w
      → allows caller session w ≡ true
      → Grant id caller s
  allows-Grant id caller s session w found belongs h = record {
    session = session;
    owner = w;
    found = found;
    belongs = belongs;
    in_org = ground (arith, eq_iff w.org_id caller.org_id);
    allowed = ground (arith, eq_iff caller.role "admin", eq_iff session.user_id caller.id);
  }

  may_manage-Grant :
      (id : String) (caller : RequestUser) (s : State env)
      → may_manage id caller s ≡ true
      → Grant id caller s
  may_manage-Grant id caller s h = elim (Option-cases (sessions.get id s.table)) [
    | inl missing ↦ ground arith
    | inr (session, found) ↦ elim (Option-cases (workflow session.workflow_id)) [
      | inl missing ↦ ground arith
      | inr (w, there) ↦ allows-Grant id caller s session w found there (ground arith)
    ]
  ]

  pub execute-may_manage :
      (id : String) (caller : RequestUser) (c : Command) (s : State env)
      → (execute env id caller c s).0 ≡ ok tt
      → may_manage id caller s ≡ true
  unfolding execute
  execute-may_manage id caller (change_mode mode) s h = unfold update_mode in ground arith
  execute-may_manage id caller (finish now) s h = unfold finalize in ground arith
  execute-may_manage id caller (dispatch input kind resume) s h =
      unfold dispatch_ai_task in ground arith
  execute-may_manage id caller (remove now) s h = unfold archive in ground arith
  execute-may_manage id caller (override dto now) s h = unfold override_status in ground arith

  -- A command that succeeds was given by an administrator or by the owner of the session, in the
  -- organisation of the session's workflow.
  pub execute_authorized :
      (id : String) (caller : RequestUser) (c : Command) (s : State env)
      → (execute env id caller c s).0 ≡ ok tt
      → Grant id caller s
  execute_authorized id caller c s h =
      may_manage-Grant id caller s (execute-may_manage id caller c s h)
