-- ===== src/Session/Service/Outcomes.antt =====
-- What each command writes and sends when it is granted.
use manbaa_backend.Base.{
  String, ◌≡◌, true, false, ◌||◌, Option, some, [], ◌∷◌, ◌++◌, arith, ◌==◌, or_else, eq_iff,
}
use manbaa_backend.Exec.{ok}
use mathlib.Core.Option
use manbaa_backend.Session.Fsm.{
  SessionMode, SessionStatus, user_finalizes, user_deletes, transition_session_status, same_mode,
  can_transition_to,
}
use manbaa_backend.Session.Types.{
  Date, Session, Workflow, RequestUser, UpdateSessionStatusDto, AiTask, Published, audit,
  session_mode_updated, session_finalized, session_archived, publish_session_finalized,
  archive_messages, archive_documents, archive_pipelines, publish_ai_task, ai_task_dispatched,
}
use manbaa_backend.Session.Service.{
  Env, State, update_mode, finalize, advance, dispatch_ai_task, archive, stamp, override_status,
}
use manbaa_backend.Session.Service.Safety.{advance_total}

module _ {Score : Type 0} (env : Env Score) (id : String) (caller : RequestUser) (s : State env)
    (session : Session Score) (w : Workflow) (found : env.sessions.get id s.table ≡ some session)
    (belongs : env.workflow session.workflow_id ≡ some w)
    (in_org : (w.org_id == caller.org_id) ≡ true)
    (allowed : (caller.role == "admin" || session.user_id == caller.id) ≡ true) where
  open env use {sessions, latest_version}

  pub update_mode_lem :
      (mode : SessionMode)
      → same_mode session.mode mode ≡ false
      → update_mode env id mode caller s ≡ (
        ok (record session { mode = mode }),
        record {
          table = sessions.save (record session { mode = mode }) s.table;
          effects =
              s.effects
              ++ audit session.workflow_id caller.id (session_mode_updated session.mode mode) ∷ [];
        },
      )
  unfolding update_mode
  update_mode_lem mode h = ground arith

  -- Finalizing writes the session with its new status and the time, logs it, and publishes one event
  -- with the number of the newest version, or 0.
  pub finalize_lem :
      (now : Date) (t : SessionStatus)
      → transition_session_status session.status user_finalizes (some session.mode) ≡ ok t
      → let saved : Session Score = record session { status = t; finalized_at = some now } in
        finalize env id caller now s ≡ (
          ok saved,
          record {
            table = sessions.save saved s.table;
            effects =
                (s.effects
                  ++ audit session.workflow_id caller.id
                      (session_finalized session.status t (some now))
                    ∷ [])
                ++ publish_session_finalized session.id session.workflow_id
                    (or_else
                      (Option.map (λ v. v.version_number) (latest_version session.workflow_id))
                      0)
                    session.confidence_score
                    now
                  ∷ [];
          },
        )
  unfolding finalize
  finalize_lem now t h = ground arith

  -- Archiving writes the session, passes the same time on to its messages, documents and pipeline
  -- executions, and logs it.
  pub archive_lem :
      (now : Date) (t : SessionStatus)
      → transition_session_status session.status user_deletes (some session.mode) ≡ ok t
      → let saved : Session Score = record session { status = t; archived_at = some now } in
        archive env id caller now s ≡ (
          ok saved,
          record {
            table = sessions.save saved s.table;
            effects =
                (((s.effects ++ archive_messages session.id (some now) ∷ [])
                    ++ archive_documents session.id (some now) ∷ [])
                  ++ archive_pipelines session.id (some now) ∷ [])
                ++ audit session.workflow_id caller.id
                    (session_archived session.status t (some now))
                  ∷ [];
          },
        )
  unfolding archive
  archive_lem now t h = ground arith

  -- A task that was published moves the session on, and is logged.
  pub dispatch_lem :
      (input : String) (kind resume : Option String) (p : Published)
      → let task : AiTask = record {
        session_id = session.id;
        task_type = or_else kind "FULL_PIPELINE";
        mode = session.mode;
        input = input;
        triggered_by = caller.id;
        resume_from_checkpoint = resume;
      } in
        env.ai_gateway task ≡ ok p
        → let s' =
            (advance env session.status session
              (record s { effects = s.effects ++ publish_ai_task task ∷ [] })).1 in
          (dispatch_ai_task env id input kind resume caller s).1 ≡ record {
            table = s'.table;
            effects =
                s'.effects
                ++ audit session.workflow_id caller.id (
                    ai_task_dispatched p.pipeline_execution_id
                      (or_else kind "FULL_PIPELINE")
                      p.nats_message_id)
                  ∷ [];
          }
  unfolding dispatch_ai_task
  dispatch_lem input kind resume p h = ground (
    arith,
    advance_total env session.status session (record s {
      effects =
          s.effects
          ++ publish_ai_task (record {
            session_id = session.id;
            task_type = or_else kind "FULL_PIPELINE";
            mode = session.mode;
            input = input;
            triggered_by = caller.id;
            resume_from_checkpoint = resume;
          })
            ∷ [];
    }),
  )

  -- The session that a status set by hand leaves.
  abbrev pub overridden : UpdateSessionStatusDto → Date → Session Score
  overridden dto now = stamp env dto.status now (record session { status = dto.status })

  pub table-override_status :
      (dto : UpdateSessionStatusDto) (now : Date)
      → caller.role ≡ "admin"
      → (dto.force || can_transition_to session.status dto.status (some session.mode)) ≡ true
      → (override_status env id dto caller now s).1.table
        ≡ sessions.save (overridden dto now) s.table
  unfolding override_status
  table-override_status dto now admin h = ground (arith, eq_iff caller.role "admin")
