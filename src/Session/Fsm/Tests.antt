-- ===== src/Session/Fsm/Tests.antt =====
-- Runs of the session machine, and the theorems at concrete inputs.
use manbaa_backend.Base.{◌≡◌, refl, none, some, true, [], ◌∷◌}
use manbaa_backend.Exec.{err}
use manbaa_backend.Session.Fsm.{
  auto, created, processing, draft_ready, exported, archived, error, ai_question_received,
  user_finalizes, enter_review, validate, export_completed, pipeline_error, ai_result_received,
  invalid_transition, transition_session_status, can_transition_to,
}
use manbaa_backend.Session.Fsm.Traces.{Run, start, step}

ask_auto :
    transition_session_status processing ai_question_received (some auto) ≡ err invalid_transition
unfolding transition_session_status
ask_auto = refl

-- An archived session can still be set to the error status.
archived_can_fail : can_transition_to archived error none ≡ true
unfolding can_transition_to
archived_can_fail = refl

exported_run :
    Run
      (some auto)
      created
      exported
      (export_completed ∷ validate ∷ enter_review ∷ user_finalizes ∷ [])
unfolding transition_session_status
exported_run =
    step export_completed
      (step validate (step enter_review (step user_finalizes start refl) refl) refl) refl

failed_run : Run none archived error (pipeline_error ∷ [])
unfolding transition_session_status
failed_run = step pipeline_error start refl

result_run : Run (some auto) processing draft_ready (ai_result_received ∷ [])
unfolding transition_session_status
result_run = step ai_result_received start refl
