-- ===== src/Session/Fsm.antt =====
-- src/modules/sessions/session-fsm.ts, with the enumerations of src/database/enums/index.ts.
pub mod Edges
pub mod Table
pub mod Traces
mod Tests
use manbaa_backend.Base.{
  Bool, true, false, ◌&&◌, Option, none, some, List, [], ◌∷◌, ◌++◌, map, any, find, holds,
}
use manbaa_backend.Exec.{Failure, Result, ok, err, unprocessable}

pub data SessionMode : Type 0 where
  auto interactive : SessionMode

pub data SessionStatus : Type 0 where
  created awaiting_input processing draft_ready needs_reconciliation in_elicitation in_review
        validated exported archived error :
      SessionStatus

pub data SessionFsmEvent : Type 0 where
  first_user_message ai_task_published ai_result_received ai_question_received user_answer_posted
        divergence_detected divergence_resolved enter_review validate export_completed
        user_finalizes pipeline_error user_deletes :
      SessionFsmEvent

pub SessionMode-discrete : Discrete SessionMode
SessionMode-discrete = hlevel

pub SessionStatus-discrete : Discrete SessionStatus
SessionStatus-discrete = hlevel

pub SessionFsmEvent-discrete : Discrete SessionFsmEvent
SessionFsmEvent-discrete = hlevel

-- `===` on modes.
abbrev pub same_mode : SessionMode → SessionMode → Bool
same_mode auto auto = true
same_mode interactive interactive = true
same_mode _ _ = false

pub record TransitionRule : Type 0 where
  pub from : SessionStatus
  pub event : SessionFsmEvent
  pub to : SessionStatus
  pub mode : Option SessionMode

abbrev rule : SessionStatus → SessionFsmEvent → SessionStatus → TransitionRule
rule from event to = record { from = from; event = event; to = to; mode = none }

-- `Object.values(SessionStatus)`
abbrev pub statuses : List SessionStatus
statuses =
    created ∷ awaiting_input ∷ processing ∷ draft_ready ∷ needs_reconciliation ∷ in_elicitation
    ∷ in_review ∷ validated ∷ exported ∷ archived ∷ error ∷ []

abbrev finalizable : List SessionStatus
finalizable =
    created ∷ awaiting_input ∷ processing ∷ in_elicitation ∷ draft_ready ∷ needs_reconciliation
    ∷ in_review ∷ []

unfoldable pub session_transitions : List TransitionRule
session_transitions =
    rule created first_user_message awaiting_input
    ∷ rule awaiting_input ai_task_published processing
    ∷ rule processing ai_result_received draft_ready
    ∷ record {
      from = processing;
      event = ai_question_received;
      to = in_elicitation;
      mode = some interactive;
    }
    ∷ rule in_elicitation user_answer_posted processing
    ∷ rule in_elicitation ai_task_published processing
    ∷ rule draft_ready ai_task_published processing
    ∷ rule draft_ready ai_result_received draft_ready
    ∷ rule draft_ready divergence_detected needs_reconciliation
    ∷ rule needs_reconciliation divergence_resolved draft_ready
    ∷ rule draft_ready enter_review in_review
    ∷ rule in_review validate validated
    ∷ rule validated export_completed exported
    ∷ (map (λ from. rule from user_finalizes draft_ready) finalizable
        ++ (map (λ from. rule from pipeline_error error) statuses
            ++ map (λ from. rule from user_deletes archived) statuses))

-- `!candidate.mode || candidate.mode === mode`
pub mode_fits : Option SessionMode → Option SessionMode → Bool
unfolding SessionMode-discrete
mode_fits none mode = true
mode_fits (some wanted) none = false
mode_fits (some wanted) (some mode) = holds (SessionMode-discrete wanted mode)

-- The test that `find` makes of a candidate.
pub matches : SessionStatus → SessionFsmEvent → Option SessionMode → TransitionRule → Bool
unfolding mode_fits SessionStatus-discrete SessionFsmEvent-discrete
matches from event mode candidate =
    holds (SessionStatus-discrete candidate.from from)
    && (holds (SessionFsmEvent-discrete candidate.event event) && mode_fits candidate.mode mode)

abbrev pub invalid_transition : Failure
invalid_transition = unprocessable "Invalid session transition"

-- `if (!rule) throw …; return rule.to`
abbrev target : Option TransitionRule → Result SessionStatus
target none = err invalid_transition
target (some found) = ok found.to

unfoldable pub transition_session_status :
    SessionStatus → SessionFsmEvent → Option SessionMode → Result SessionStatus
unfolding session_transitions matches
transition_session_status from event mode =
    target (find (matches from event mode) session_transitions)

-- The test that `some` makes of a candidate.
pub leads : SessionStatus → SessionStatus → Option SessionMode → TransitionRule → Bool
unfolding mode_fits SessionStatus-discrete
leads from to mode candidate =
    holds (SessionStatus-discrete candidate.from from)
    && (holds (SessionStatus-discrete candidate.to to) && mode_fits candidate.mode mode)

unfoldable pub can_transition_to : SessionStatus → SessionStatus → Option SessionMode → Bool
unfolding session_transitions leads
can_transition_to from to mode = any (leads from to mode) session_transitions
