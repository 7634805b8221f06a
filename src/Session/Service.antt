-- ===== src/Session/Service.antt =====
-- src/modules/sessions/sessions.service.ts, method by method.
pub mod Commands
pub mod Safety
pub mod Outcomes
pub mod Moves
pub mod Lifecycle
mod Tests
use manbaa_backend.Base.{
  ℕ, String, ◌≡◌, Bool, true, false, not, ◌&&◌, ◌||◌, Option, none, some, List, [], ◌∷◌, ◌++◌, ◌==◌,
  or_else, if◌then◌else◌, keep,
}
use manbaa_backend.Exec.{
  Result, ok, err, Exec, not_found, forbidden, conflict, ◌>>=◌, ◌>>◌, pure, raise, gets, require,
  lift, modify, guard,
}
use mathlib.Core.Option
use manbaa_backend.Repository.{Repository}
use manbaa_backend.Session.Fsm.{
  SessionMode, SessionStatus, created, awaiting_input, draft_ready, in_elicitation, archived,
  needs_reconciliation, same_mode, first_user_message, ai_task_published, user_finalizes,
  user_deletes, transition_session_status, can_transition_to,
}
use manbaa_backend.Session.Types.{
  Date, Session, Workflow, RequestUser, CreateSessionDto, UpdateSessionStatusDto, WorkflowVersion,
  WorkflowState, Progress, PipelineStatus, pending, running, paused, completed, failed, cancelled,
  PipelineExecution, AiTask, Published, AuditEvent, session_mode_updated, session_finalized,
  ai_task_dispatched, session_archived, session_status_overridden, Effect, audit,
  publish_session_finalized, publish_ai_task, archive_messages, archive_documents,
  archive_pipelines, emit_needs_reconciliation,
}

-- What the service is given: the tables, and the services that it calls. `workflow` is `findOne` by
-- the primary key; `latest_version`, `latest_pipeline` and `latest_session` are `findOne` by a
-- foreign key, the newest row first. `ai_gateway` is what `publishAiTask` answers; whatever it writes and
-- publishes itself, also when it throws, is the effect `publish_ai_task`.
pub record Env (Score : Type 0) : Type 1 where
  pub sessions : Repository (Session Score)
  pub key_is_id : (r : Session Score) → sessions.key r ≡ r.id
  pub zero_score : Score
  pub workflow : String → Option Workflow
  pub latest_version : String → Option WorkflowVersion
  pub latest_pipeline : String → Option (PipelineExecution Score)
  pub latest_session : String → sessions.Store → Option (Session Score)
  pub ai_gateway : AiTask → Result Published

-- `pipelineProgress`
pipeline_progress : PipelineStatus → ℕ
pipeline_progress completed = 100
pipeline_progress running = 50
pipeline_progress paused = 50
pipeline_progress failed = 100
pipeline_progress cancelled = 100
pipeline_progress pending = 0

module _ {Score : Type 0} (env : Env Score) where
  open env use {
    sessions, zero_score, workflow, latest_version, latest_pipeline, latest_session, ai_gateway,
  }

  -- The session table, and the calls of other services so far.
  pub record State : Type 0 where
    pub table : sessions.Store
    pub effects : List (Effect Score)

  abbrev emit : Effect Score → Exec State Unit
  emit e = modify λ s. record s { effects = s.effects ++ e ∷ [] }

  abbrev save : Session Score → Exec State Unit
  save session = modify λ s. record s { table = sessions.save session s.table }

  insert_audit_log : String → String → AuditEvent → Exec State Unit
  insert_audit_log workflow_id actor_id event = emit (audit workflow_id actor_id event)

  -- The message is `Workflow not found`, or the one of the caller.
  find_workflow_in_org_or_throw : String → String → String → Exec State Workflow
  find_workflow_in_org_or_throw id org_id message =
      require (keep (λ w. w.org_id == org_id) (workflow id)) (not_found message)

  find_session_in_org_or_throw : String → String → Exec State (Session Score)
  unfolding find_workflow_in_org_or_throw
  find_session_in_org_or_throw id org_id = do
    found ← gets (λ s. sessions.get id s.table)
    session ← require found (not_found "Session not found")
    find_workflow_in_org_or_throw session.workflow_id org_id "Session not found"
    pure session

  assert_owner_or_admin : Session Score → RequestUser → Exec State Unit
  assert_owner_or_admin session caller =
      guard (caller.role == "admin" || session.user_id == caller.id)
        (forbidden "Only the session owner or an admin can manage this session")

  assert_admin : RequestUser → Exec State Unit
  assert_admin caller = guard (caller.role == "admin") (forbidden "Admin role is required")

  -- The key and the creation time are the database's.
  pub create_session : CreateSessionDto → RequestUser → String → Date → Exec State (Session Score)
  unfolding find_workflow_in_org_or_throw
  create_session dto caller id now = do
    w ← find_workflow_in_org_or_throw dto.workflow_id caller.org_id "Workflow not found"
    let session : Session Score = record {
      id = id;
      workflow_id = w.id;
      user_id = caller.id;
      mode = dto.mode;
      status = created;
      confidence_score = zero_score;
      created_at = now;
      finalized_at = none;
      archived_at = none;
    }
    save session
    pure session

  pub get_session : String → RequestUser → Exec State (Session Score)
  unfolding find_session_in_org_or_throw
  get_session id caller = find_session_in_org_or_throw id caller.org_id

  pub get_session_by_workflow_id : String → RequestUser → Exec State (Session Score)
  unfolding find_workflow_in_org_or_throw
  get_session_by_workflow_id workflow_id caller = do
    find_workflow_in_org_or_throw workflow_id caller.org_id "Workflow not found"
    found ← gets (λ s. latest_session workflow_id s.table)
    require found (not_found "No session found for workflow")

  pub update_mode : String → SessionMode → RequestUser → Exec State (Session Score)
  unfolding find_session_in_org_or_throw assert_owner_or_admin insert_audit_log
  update_mode id mode caller = do
    session ← find_session_in_org_or_throw id caller.org_id
    assert_owner_or_admin session caller
    if same_mode session.mode mode then pure session else do
      let saved = record session { mode = mode }
      save saved
      insert_audit_log session.workflow_id caller.id (session_mode_updated session.mode saved.mode)
      pure saved

  pub finalize : String → RequestUser → Date → Exec State (Session Score)
  unfolding find_session_in_org_or_throw find_workflow_in_org_or_throw assert_owner_or_admin
      insert_audit_log
  finalize id caller now = do
    session ← find_session_in_org_or_throw id caller.org_id
    assert_owner_or_admin session caller
    find_workflow_in_org_or_throw session.workflow_id caller.org_id "Workflow not found"
    status ← lift (transition_session_status session.status user_finalizes (some session.mode))
    let saved = record session { status = status; finalized_at = some now }
    save saved
    insert_audit_log session.workflow_id caller.id
        (session_finalized session.status saved.status saved.finalized_at)
    let version =
        or_else (Option.map (λ v. v.version_number) (latest_version session.workflow_id)) 0
    emit (publish_session_finalized saved.id saved.workflow_id version saved.confidence_score now)
    pure saved

  pub get_workflow_state : String → RequestUser → Exec State WorkflowState
  unfolding find_session_in_org_or_throw
  get_workflow_state id caller = do
    session ← find_session_in_org_or_throw id caller.org_id
    let latest = latest_version session.workflow_id
    pure (record {
      session_id = session.id;
      workflow_id = session.workflow_id;
      version_number = Option.map (λ v. v.version_number) latest;
      elements_json = Option.map (λ v. v.elements_json) latest;
    })

  pub get_progress : String → RequestUser → Exec State (Progress Score)
  unfolding find_session_in_org_or_throw pipeline_progress
  get_progress id caller = do
    session ← find_session_in_org_or_throw id caller.org_id
    let latest = latest_pipeline session.id
    pure (record {
      current_agent = Option.bind latest (λ p. p.last_checkpoint_agent);
      progress_pct = or_else (Option.map (λ p. pipeline_progress p.status) latest) 0;
      overall_confidence =
          or_else (Option.bind latest (λ p. p.final_confidence)) session.confidence_score;
    })

  -- The status changes that follow a published task.
  pub advance : SessionStatus → Session Score → Exec State Unit
  advance created session = do
    opened ← lift (transition_session_status created first_user_message (some session.mode))
    status ← lift (transition_session_status opened ai_task_published (some session.mode))
    save (record session { status = status })
  advance awaiting_input session = do
    status ← lift (transition_session_status awaiting_input ai_task_published (some session.mode))
    save (record session { status = status })
  advance in_elicitation session = do
    status ← lift (transition_session_status in_elicitation ai_task_published (some session.mode))
    save (record session { status = status })
  advance _ session = pure tt

  pub dispatch_ai_task :
      String → String → Option String → Option String → RequestUser → Exec State Published
  unfolding find_session_in_org_or_throw assert_owner_or_admin insert_audit_log
  dispatch_ai_task id input task_type resume caller = do
    session ← find_session_in_org_or_throw id caller.org_id
    assert_owner_or_admin session caller
    let kind = or_else task_type "FULL_PIPELINE"
    let task : AiTask = record {
      session_id = session.id;
      task_type = kind;
      mode = session.mode;
      input = input;
      triggered_by = caller.id;
      resume_from_checkpoint = resume;
    }
    emit (publish_ai_task task)
    published ← lift (ai_gateway task)
    advance session.status session
    insert_audit_log session.workflow_id caller.id
        (ai_task_dispatched published.pipeline_execution_id kind published.nats_message_id)
    pure published

  pub archive : String → RequestUser → Date → Exec State (Session Score)
  unfolding find_session_in_org_or_throw assert_owner_or_admin insert_audit_log
  archive id caller now = do
    session ← find_session_in_org_or_throw id caller.org_id
    assert_owner_or_admin session caller
    status ← lift (transition_session_status session.status user_deletes (some session.mode))
    let saved = record session { status = status; archived_at = some now }
    save saved
    emit (archive_messages session.id saved.archived_at)
    emit (archive_documents session.id saved.archived_at)
    emit (archive_pipelines session.id saved.archived_at)
    insert_audit_log session.workflow_id caller.id
        (session_archived session.status saved.status saved.archived_at)
    pure saved

  -- The dates that a status set by hand brings with it.
  pub stamp : SessionStatus → Date → Session Score → Session Score
  stamp archived now session = record session { archived_at = some now }
  stamp draft_ready now session = record session {
    finalized_at = some (or_else session.finalized_at now);
  }
  stamp _ now session = session

  announce : SessionStatus → String → Exec State Unit
  announce needs_reconciliation id = emit (emit_needs_reconciliation id)
  announce _ id = pure tt

  pub override_status :
      String → UpdateSessionStatusDto → RequestUser → Date → Exec State (Session Score)
  unfolding assert_admin find_session_in_org_or_throw insert_audit_log stamp announce
  override_status id dto caller now = do
    assert_admin caller
    session ← find_session_in_org_or_throw id caller.org_id
    guard (dto.force || can_transition_to session.status dto.status (some session.mode))
        (conflict "Target status violates the session FSM")
    let saved = stamp dto.status now (record session { status = dto.status })
    save saved
    announce saved.status saved.id
    insert_audit_log session.workflow_id caller.id
        (session_status_overridden session.status saved.status dto.reason dto.force)
    pure saved
