-- ===== src/Session/Fsm/Traces.antt =====
-- Lives of a session: sequences of accepted events.
use manbaa_backend.Base.{◌≡◌, refl, ◌≢◌, ◌⊎◌, inl, inr, Option, some, List, [], ◌∷◌, subst, sym}
use manbaa_backend.Exec.{ok}
use manbaa_backend.Session.Fsm.{
  SessionMode, auto, SessionStatus, created, in_elicitation, in_review, validated, exported,
  archived, error, SessionFsmEvent, enter_review, validate, export_completed,
  transition_session_status,
}
use manbaa_backend.Session.Fsm.Edges.{
  created_open, Edge, transition_iff_Edge, first_message, publish, result, question, answer,
  publish_answer, publish_draft, result_again, diverge, reconcile, review, approve, export,
  finalize, crash, delete,
}

-- `Run mode from to events`: the events, the last one first, were accepted one after the other.
pub data Run (mode : Option SessionMode) (from : SessionStatus)
    : SessionStatus → List SessionFsmEvent → Type 0 where
  start : Run mode from from []
  step :
      {s t : SessionStatus} {events : List SessionFsmEvent} (event : SessionFsmEvent)
      → Run mode from s events
      → transition_session_status s event mode ≡ ok t
      → Run mode from t (event ∷ events)

-- The first list is left when elements of the second are taken out.
pub data Within : List SessionFsmEvent → List SessionFsmEvent → Type 0 where
  done : (ys : List SessionFsmEvent) → Within [] ys
  same :
      {xs ys : List SessionFsmEvent} (e : SessionFsmEvent) → Within xs ys → Within (e ∷ xs) (e ∷ ys)
  skip : {xs ys : List SessionFsmEvent} (e : SessionFsmEvent) → Within xs ys → Within xs (e ∷ ys)

abbrev needed : SessionStatus → List SessionFsmEvent
needed in_review = enter_review ∷ []
needed validated = validate ∷ enter_review ∷ []
needed exported = export_completed ∷ validate ∷ enter_review ∷ []
needed _ = []

Edge-needed :
    {s t : SessionStatus} {event : SessionFsmEvent} {mode : Option SessionMode}
    → Edge s event mode t
    → (needed t ≡ []) ⊎ (needed t ≡ event ∷ needed s)
Edge-needed review = inr refl
Edge-needed approve = inr refl
Edge-needed export = inr refl
Edge-needed first_message = inl refl
Edge-needed publish = inl refl
Edge-needed result = inl refl
Edge-needed question = inl refl
Edge-needed answer = inl refl
Edge-needed publish_answer = inl refl
Edge-needed publish_draft = inl refl
Edge-needed result_again = inl refl
Edge-needed diverge = inl refl
Edge-needed reconcile = inl refl
Edge-needed (finalize h) = inl refl
Edge-needed crash = inl refl
Edge-needed delete = inl refl

Run-needed :
    {mode : Option SessionMode} {t : SessionStatus} {events : List SessionFsmEvent}
    → Run mode created t events
    → Within (needed t) events
Run-needed start = done []
Run-needed (step {s = s} {t = t} {events = events} event r e) =
    elim (Edge-needed ((transition_iff_Edge s event _ t).0 e)) [
      | inl p ↦ subst (λ l. Within l (event ∷ events)) (sym p) (done (event ∷ events))
      | inr p ↦ subst (λ l. Within l (event ∷ events)) (sym p) (same event (Run-needed r))
    ]

-- A session that starts as created is exported only after it entered review, was validated and its
-- export was completed, in this order, whatever else happened in between.
pub exported_in_order :
    {mode : Option SessionMode} {events : List SessionFsmEvent}
    → Run mode created exported events
    → Within (export_completed ∷ validate ∷ enter_review ∷ []) events
exported_in_order r = Run-needed r

-- Archived or in error.
abbrev pub IsSettled : SessionStatus → Type 0
IsSettled archived = Unit
IsSettled error = Unit
IsSettled _ = ⊥

Edge-IsSettled :
    {s t : SessionStatus} {event : SessionFsmEvent} {mode : Option SessionMode}
    → Edge s event mode t
    → IsSettled s
    → IsSettled t
Edge-IsSettled crash h = tt
Edge-IsSettled delete h = tt
Edge-IsSettled (finalize created_open) h = h
Edge-IsSettled (finalize _) h = absurd h
Edge-IsSettled _ h = absurd h

-- A session that is archived or in error stays so: whatever events are accepted from there, it only
-- moves between the two.
pub IsSettled-absorbs :
    {mode : Option SessionMode} {s t : SessionStatus} {events : List SessionFsmEvent}
    → IsSettled s
    → Run mode s t events
    → IsSettled t
IsSettled-absorbs h start = h
IsSettled-absorbs {mode} h (step {s = s} {t = t} event r e) =
    Edge-IsSettled ((transition_iff_Edge s event mode t).0 e) (IsSettled-absorbs h r)

Edge-auto :
    {s t : SessionStatus} {event : SessionFsmEvent} {mode : Option SessionMode}
    → Edge s event mode t
    → mode ≡ some auto
    → t ≢ in_elicitation
Edge-auto first_message a e = cc
Edge-auto question a e = cc
Edge-auto _ a e = cc

-- In the automatic mode the session never waits for the answer to a question.
pub auto_never_elicits :
    {s t : SessionStatus} {events : List SessionFsmEvent}
    → s ≢ in_elicitation
    → Run (some auto) s t events
    → t ≢ in_elicitation
auto_never_elicits h start = h
auto_never_elicits h (step {s = s} {t = t} event r e) =
    Edge-auto ((transition_iff_Edge s event (some auto) t).0 e) refl
