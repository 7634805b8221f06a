-- ===== src/Session/Fsm/Edges.antt =====
-- The diagram of the session machine, edge by edge, and what `transition_session_status` makes of it.
use manbaa_backend.Base.{
  ◌≡◌, refl, subst, subst₂, ◌↔◌, true, Option, none, some, All, find, find-All, holds_true, &&_true,
}
use manbaa_backend.Exec.{ok}
use manbaa_backend.Session.Fsm.{
  SessionMode, auto, interactive, SessionStatus, created, awaiting_input, processing, draft_ready,
  needs_reconciliation, in_elicitation, in_review, validated, exported, archived, error,
  SessionFsmEvent, TransitionRule, mode_fits, matches, target, session_transitions,
  first_user_message, ai_task_published, ai_result_received, ai_question_received,
  user_answer_posted, divergence_detected, divergence_resolved, enter_review, validate,
  export_completed, user_finalizes, pipeline_error, user_deletes, transition_session_status,
}

-- The states in which the user may finalize: those before validation.
pub data IsOpen : SessionStatus → Type 0 where
  created_open : IsOpen created
  awaiting_input_open : IsOpen awaiting_input
  processing_open : IsOpen processing
  in_elicitation_open : IsOpen in_elicitation
  draft_ready_open : IsOpen draft_ready
  needs_reconciliation_open : IsOpen needs_reconciliation
  in_review_open : IsOpen in_review

-- `Edge from event mode to`: in a session of this mode the event leads from `from` to `to`.
pub data Edge : SessionStatus → SessionFsmEvent → Option SessionMode → SessionStatus → Type 0 where
  first_message : {m : Option SessionMode} → Edge created first_user_message m awaiting_input
  publish : {m : Option SessionMode} → Edge awaiting_input ai_task_published m processing
  result : {m : Option SessionMode} → Edge processing ai_result_received m draft_ready
  question : Edge processing ai_question_received (some interactive) in_elicitation
  answer : {m : Option SessionMode} → Edge in_elicitation user_answer_posted m processing
  publish_answer : {m : Option SessionMode} → Edge in_elicitation ai_task_published m processing
  publish_draft : {m : Option SessionMode} → Edge draft_ready ai_task_published m processing
  result_again : {m : Option SessionMode} → Edge draft_ready ai_result_received m draft_ready
  diverge : {m : Option SessionMode} → Edge draft_ready divergence_detected m needs_reconciliation
  reconcile : {m : Option SessionMode} → Edge needs_reconciliation divergence_resolved m draft_ready
  review : {m : Option SessionMode} → Edge draft_ready enter_review m in_review
  approve : {m : Option SessionMode} → Edge in_review validate m validated
  export : {m : Option SessionMode} → Edge validated export_completed m exported
  finalize :
      {s : SessionStatus} {m : Option SessionMode} → IsOpen s → Edge s user_finalizes m draft_ready
  crash : {s : SessionStatus} {m : Option SessionMode} → Edge s pipeline_error m error
  delete : {s : SessionStatus} {m : Option SessionMode} → Edge s user_deletes m archived

ruleset edges = (
  first_message, publish, result, question, answer, publish_answer, publish_draft, result_again,
  diverge, reconcile, review, approve, export, finalize, crash, delete, created_open,
  awaiting_input_open, processing_open, in_elicitation_open, draft_ready_open,
  needs_reconciliation_open, in_review_open,
)

abbrev pub IsEdge : TransitionRule → Type 0
IsEdge r =
    (mode : Option SessionMode) → mode_fits r.mode mode ≡ true → Edge r.from r.event mode r.to

question_rule :
    (mode : Option SessionMode)
    → mode_fits (some interactive) mode ≡ true
    → Edge processing ai_question_received mode in_elicitation
unfolding mode_fits
question_rule none h = cc
question_rule (some auto) h = cc
question_rule (some interactive) h = question

pub session_transitions-IsEdge : All IsEdge session_transitions
unfolding session_transitions
session_transitions-IsEdge = search (edges, question_rule, tt) depth 60

-- Every edge of the diagram is accepted.
pub Edge-transition :
    {from : SessionStatus} {event : SessionFsmEvent} {mode : Option SessionMode}
    {to : SessionStatus}
    → Edge from event mode to
    → transition_session_status from event mode ≡ ok to
unfolding transition_session_status
Edge-transition first_message = refl
Edge-transition publish = refl
Edge-transition result = refl
Edge-transition question = refl
Edge-transition answer = refl
Edge-transition publish_answer = refl
Edge-transition publish_draft = refl
Edge-transition result_again = refl
Edge-transition diverge = refl
Edge-transition reconcile = refl
Edge-transition review = refl
Edge-transition approve = refl
Edge-transition export = refl
Edge-transition (finalize created_open) = refl
Edge-transition (finalize awaiting_input_open) = refl
Edge-transition (finalize processing_open) = refl
Edge-transition (finalize in_elicitation_open) = refl
Edge-transition (finalize draft_ready_open) = refl
Edge-transition (finalize needs_reconciliation_open) = refl
Edge-transition (finalize in_review_open) = refl
Edge-transition (crash {s = created}) = refl
Edge-transition (crash {s = awaiting_input}) = refl
Edge-transition (crash {s = processing}) = refl
Edge-transition (crash {s = draft_ready}) = refl
Edge-transition (crash {s = needs_reconciliation}) = refl
Edge-transition (crash {s = in_elicitation}) = refl
Edge-transition (crash {s = in_review}) = refl
Edge-transition (crash {s = validated}) = refl
Edge-transition (crash {s = exported}) = refl
Edge-transition (crash {s = archived}) = refl
Edge-transition (crash {s = error}) = refl
Edge-transition (delete {s = created}) = refl
Edge-transition (delete {s = awaiting_input}) = refl
Edge-transition (delete {s = processing}) = refl
Edge-transition (delete {s = draft_ready}) = refl
Edge-transition (delete {s = needs_reconciliation}) = refl
Edge-transition (delete {s = in_elicitation}) = refl
Edge-transition (delete {s = in_review}) = refl
Edge-transition (delete {s = validated}) = refl
Edge-transition (delete {s = exported}) = refl
Edge-transition (delete {s = archived}) = refl
Edge-transition (delete {s = error}) = refl

-- A candidate that matches has the status and the event, and its mode fits.
pub matches-true :
    (from : SessionStatus) (event : SessionFsmEvent) (mode : Option SessionMode)
    (r : TransitionRule)
    → matches from event mode r ≡ true
    → (r.from ≡ from) × (r.event ≡ event) × (mode_fits r.mode mode ≡ true)
unfolding matches
matches-true from event mode r h =
    let (same, rest) = &&_true _ _ h in
    let (event_same, fits) = &&_true _ _ rest in (holds_true _ same, holds_true _ event_same, fits)

found-Edge :
    (from : SessionStatus) (event : SessionFsmEvent) (mode : Option SessionMode)
    (r : TransitionRule)
    → find (matches from event mode) session_transitions ≡ some r
    → Edge from event mode r.to
found-Edge from event mode r e =
    let (edge, matched) = find-All IsEdge _ _ r session_transitions-IsEdge e in
    let (same, event_same, fits) = matches-true from event mode r matched in
    subst₂ (λ f v. Edge f v mode r.to) same event_same (edge mode fits)

target_ok :
    (found : Option TransitionRule) (to : SessionStatus)
    → target found ≡ ok to
    → (r : TransitionRule) × (found ≡ some r) × (r.to ≡ to)
target_ok none to h = cc
target_ok (some r) to h = (r, refl, cc)

pub found_of_transition :
    (from : SessionStatus) (event : SessionFsmEvent) (mode : Option SessionMode)
    (to : SessionStatus)
    → transition_session_status from event mode ≡ ok to
    → (r : TransitionRule) × (find (matches from event mode) session_transitions ≡ some r)
      × (r.to ≡ to)
unfolding transition_session_status
found_of_transition from event mode to =
    target_ok (find (matches from event mode) session_transitions) to

transition-Edge :
    (from : SessionStatus) (event : SessionFsmEvent) (mode : Option SessionMode)
    (to : SessionStatus)
    → transition_session_status from event mode ≡ ok to
    → Edge from event mode to
transition-Edge from event mode to h =
    let (r, e, same) = found_of_transition from event mode to h in
    subst (Edge from event mode) same (found-Edge from event mode r e)

pub transition_iff_Edge :
    (from : SessionStatus) (event : SessionFsmEvent) (mode : Option SessionMode)
    (to : SessionStatus)
    → (transition_session_status from event mode ≡ ok to) ↔ Edge from event mode to
transition_iff_Edge from event mode to = (transition-Edge from event mode to, Edge-transition)
