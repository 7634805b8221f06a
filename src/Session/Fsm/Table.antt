-- ===== src/Session/Fsm/Table.antt =====
-- What holds of the transition table as a whole.
use manbaa_backend.Base.{
  ◌≡◌, subst₂, ◌↔◌, true, Option, All, All-mono, find-All, any-All, any_of_find, holds_true,
  true-holds, &&_true,
}
use manbaa_backend.Exec.{ok}
use manbaa_backend.Session.Fsm.{
  SessionMode, SessionStatus, SessionFsmEvent, TransitionRule, mode_fits, matches, leads,
  session_transitions, transition_session_status, can_transition_to,
}
use manbaa_backend.Session.Fsm.Edges.{
  Edge, IsEdge, session_transitions-IsEdge, Edge-transition, matches-true, found_of_transition,
}

leads-true :
    (from to : SessionStatus) (mode : Option SessionMode) (r : TransitionRule)
    → leads from to mode r ≡ true
    → (r.from ≡ from) × (r.to ≡ to) × (mode_fits r.mode mode ≡ true)
unfolding leads
leads-true from to mode r h =
    let (same, rest) = &&_true _ _ h in
    let (to_same, fits) = &&_true _ _ rest in (holds_true _ same, holds_true _ to_same, fits)

true-leads :
    (from to : SessionStatus) (mode : Option SessionMode) (r : TransitionRule)
    → r.from ≡ from
    → r.to ≡ to
    → mode_fits r.mode mode ≡ true
    → leads from to mode r ≡ true
unfolding leads
true-leads from to mode r p q fits = rw (true-holds _ p, true-holds _ q) fits

leads-Edge :
    (from to : SessionStatus) (mode : Option SessionMode)
    → can_transition_to from to mode ≡ true
    → (event : SessionFsmEvent) × Edge from event mode to
unfolding can_transition_to
leads-Edge from to mode h =
    let (r, edge, led) =
      any-All IsEdge (leads from to mode) session_transitions session_transitions-IsEdge h in
    let (same, to_same, fits) = leads-true from to mode r led in
    (r.event, subst₂ (λ f t. Edge f r.event mode t) same to_same (edge mode fits))

transition-leads :
    (from : SessionStatus) (event : SessionFsmEvent) (to : SessionStatus)
    (mode : Option SessionMode)
    → transition_session_status from event mode ≡ ok to
    → can_transition_to from to mode ≡ true
unfolding can_transition_to
transition-leads from event to mode h =
    let (r, found, to_same) = found_of_transition from event mode to h in
    let (edge, matched) =
      find-All IsEdge (matches from event mode) session_transitions r session_transitions-IsEdge
        found in
    let (same, _, fits) = matches-true from event mode r matched in
    any_of_find (matches from event mode) (leads from to mode) session_transitions r found
      (true-leads from to mode r same to_same fits)

-- `canTransitionTo` agrees with `transitionSessionStatus`: it answers true exactly when some event
-- is accepted in this mode and leads from the one status to the other.
pub can_transition_to_iff :
    (from to : SessionStatus) (mode : Option SessionMode)
    → (can_transition_to from to mode ≡ true)
      ↔ ((event : SessionFsmEvent) × (transition_session_status from event mode ≡ ok to))
can_transition_to_iff from to mode = (
  λ h. let (event, edge) = leads-Edge from to mode h in (event, Edge-transition edge),
  λ (event, e). transition-leads from event to mode e,
)

-- No rule of the table is shadowed by one above it: of every rule whose mode fits, the event is
-- accepted and leads to that rule's own target. So the order of the rules has no bearing.
pub rules_effective :
    All
      (λ r.
        (mode : Option SessionMode)
        → mode_fits r.mode mode ≡ true
        → transition_session_status r.from r.event mode ≡ ok r.to)
      session_transitions
rules_effective =
    All-mono (λ r edge mode fits. Edge-transition (edge mode fits)) session_transitions
      session_transitions-IsEdge
