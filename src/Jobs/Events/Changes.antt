-- ===== src/Jobs/Events/Changes.antt =====
-- What a report does to the rows of the tasks and to the usage.
use manbaa_backend.Base.{
  ℕ, String, ◌≡◌, refl, ap, sym, ◌∙◌, subst, inl, inr, Bool, true, false, or_else, arith,
}
use manbaa_backend.Exec.{
  Exec, Result, ok, err, Failure, run_cases, bind_ok, bind_err, ◌>>=◌, ◌>>◌, transaction,
}
use manbaa_backend.Usage
use manbaa_backend.Usage.{
  UsageReservation, UsageReservationStatus, released, committed, is_reserved,
}
use manbaa_backend.Jobs.Types.{is_final, is_queued, AiTask, TaskEventPayload}
use manbaa_backend.Jobs.Rows.{started_task, progressed_task, cancelled_task}
use manbaa_backend.Jobs.Events.{
  Env, State, save_task, with_usage, start_task, progress_task, cancel_task, settle_task,
}
use manbaa_backend.Jobs.Edges.{cancels, here, via, Moved, is_over, queued_runs, queued_over}

module _ (env : Env) where
  -- What one report does: nothing to the tasks and the usage; or it writes the row, and the work was and is
  -- over or was not and is not; or it writes the row and settles its reservation.
  pub data Change (t : AiTask) (s s' : State env) : Type 0 where
    untouched : s'.tasks ≡ s.tasks → s'.usage ≡ s.usage → Change t s s'
    rewritten :
        (next : AiTask)
        → s'.tasks ≡ env.tasks.save next s.tasks
        → s'.usage ≡ s.usage
        → Moved t next
        → is_over next.status ≡ is_over t.status
        → Change t s s'
    settles :
        (next : AiTask) (status : UsageReservationStatus) (actual : ℕ) (r : UsageReservation)
        → s'.tasks ≡ env.tasks.save next s.tasks
        → Moved t next
        → is_reserved status ≡ false
        → Usage.finish env.usage t.usage_reservation_id status actual s.usage ≡ (ok r, s'.usage)
        → Change t s s'

  -- The tasks and the usage stay.
  pub record Calm (s s' : State env) : Type 0 where
    pub tasks : s'.tasks ≡ s.tasks
    pub usage : s'.usage ≡ s.usage

  pub Change-Calm :
      (t : AiTask) (s s' s'' : State env) → Change t s s' → Calm s' s'' → Change t s s''
  Change-Calm t s s' s'' (untouched a b) c = untouched (c.tasks ∙ a) (c.usage ∙ b)
  Change-Calm t s s' s'' (rewritten next a b m e) c = rewritten next (c.tasks ∙ a) (c.usage ∙ b) m e
  Change-Calm t s s' s'' (settles next status actual r a m e f) c =
      settles next status actual r (c.tasks ∙ a) m e (f ∙ ap (λ u. (ok r, u)) (sym c.usage))

  pub Calm-Change :
      (t : AiTask) (s s' s'' : State env) → Calm s s' → Change t s' s'' → Change t s s''
  Calm-Change t s s' s'' c (untouched a b) = untouched (a ∙ c.tasks) (b ∙ c.usage)
  Calm-Change t s s' s'' c (rewritten next a b m e) =
      rewritten next (a ∙ ap (env.tasks.save next) c.tasks) (b ∙ c.usage) m e
  Calm-Change t s s' s'' c (settles next status actual r a m e f) =
      settles next status actual r (a ∙ ap (env.tasks.save next) c.tasks) m e
        (ap (Usage.finish env.usage t.usage_reservation_id status actual) (sym c.usage) ∙ f)

  start_Moved :
      (now : ℕ) (payload : TaskEventPayload) (t : AiTask)
      → is_queued t.status ≡ true
      → Moved t (started_task now payload t)
  start_Moved now payload t q = record {
    id = refl;
    organization = refl;
    workspace = refl;
    user = refl;
    reservation = refl;
    reach = queued_runs t.status q;
    climbs = omega arith;
    bounded = omega arith;
  }

  pub start_task-Change :
      (now : ℕ) (payload : TaskEventPayload) (t : AiTask) (s : State env)
      → is_queued t.status ≡ true
      → Change t s (start_task env now payload t s).1
  unfolding start_task
  start_task-Change now payload t s q =
      let next = started_task now payload t in
      let s₁ : State env = record s { tasks = env.tasks.save next s.tasks } in
      Change-Calm t s s₁ (start_task env now payload t s).1
        (rewritten next refl refl (start_Moved now payload t q) (queued_over t.status q))
        record { tasks = refl; usage = refl }

  pub progress_task-Change :
      (payload : TaskEventPayload) (t : AiTask) (s : State env)
      → Change t s (progress_task env payload t s).1
  unfolding progress_task
  progress_task-Change payload t s =
      let next = progressed_task payload t in
      let s₁ : State env = record s { tasks = env.tasks.save next s.tasks } in
      Change-Calm t s s₁ (progress_task env payload t s).1
        (rewritten next refl refl
          record {
            id = refl;
            organization = refl;
            workspace = refl;
            user = refl;
            reservation = refl;
            reach = here;
            climbs = omega arith;
            bounded = omega arith;
          }
          refl)
        record { tasks = refl; usage = refl }

  -- A row is written and its reservation is settled, in one transaction.
  abbrev pub settling :
      AiTask → String → UsageReservationStatus → ℕ → Exec (State env) UsageReservation
  settling next id status actual =
      transaction (save_task env next >> with_usage env (Usage.finish env.usage id status actual))

  -- What the transaction comes to, by what the settling of the reservation gives.
  abbrev after_settling :
      AiTask
      → State env
      → Result UsageReservation × Usage.State env.usage
      → Result UsageReservation × State env
  after_settling next s x =
      let written : State env = record s { tasks = env.tasks.save next s.tasks; usage = x.1 } in
      elim x.0 [ ok r ↦ (ok r, written) | err e ↦ (err e, s) ]

  settling_after :
      (next : AiTask) (id : String) (status : UsageReservationStatus) (actual : ℕ) (s : State env)
      → settling next id status actual s
        ≡ after_settling next s (Usage.finish env.usage id status actual s.usage)
  settling_after next id status actual s = refl

  pub settling_ok :
      (next : AiTask) (id : String) (status : UsageReservationStatus) (actual : ℕ)
      (r : UsageReservation) (u : Usage.State env.usage) (s : State env)
      → Usage.finish env.usage id status actual s.usage ≡ (ok r, u)
      → settling next id status actual s
        ≡ (ok r, record s { tasks = env.tasks.save next s.tasks; usage = u })
  settling_ok next id status actual r u s done =
      settling_after next id status actual s ∙ ap (after_settling next s) done

  settling_err :
      (next : AiTask) (id : String) (status : UsageReservationStatus) (actual : ℕ) (e : Failure)
      (u : Usage.State env.usage) (s : State env)
      → Usage.finish env.usage id status actual s.usage ≡ (err e, u)
      → settling next id status actual s ≡ (err e, s)
  settling_err next id status actual e u s done =
      settling_after next id status actual s ∙ ap (after_settling next s) done

  settling-Change :
      (next : AiTask) (status : UsageReservationStatus) (actual : ℕ) (t : AiTask) (s : State env)
      → Moved t next
      → is_reserved status ≡ false
      → Change t s (settling next t.usage_reservation_id status actual s).1
  settling-Change next status actual t s m over =
      elim (run_cases (Usage.finish env.usage t.usage_reservation_id status actual) s.usage) [
        | inl (r, done) ↦
            subst (λ (x : Result UsageReservation × State env). Change t s x.1)
              (sym (settling_ok next t.usage_reservation_id status actual r _ s done))
              (settles next status actual r refl m over done)
        | inr (e, thrown) ↦
            subst (λ (x : Result UsageReservation × State env). Change t s x.1)
              (sym (settling_err next t.usage_reservation_id status actual e _ s thrown))
              (untouched refl refl)
      ]

  -- What comes after the first part of a method leaves the tasks and the usage.
  pub then-Change :
      {A B : Type 0} (m : Exec (State env) A) (f : A → Exec (State env) B) (t : AiTask)
      (s : State env)
      → Change t s (m s).1
      → ((a : A) (s' : State env) → Calm s' (f a s').1)
      → Change t s ((m >>= f) s).1
  then-Change {A} {B} m f t s c calm = elim (run_cases m s) [
    | inl (a, gave) ↦
        subst (λ (x : Result B × State env). Change t s x.1) (sym (bind_ok m f s (m s).1 a gave))
          (Change-Calm t s (m s).1 (f a (m s).1).1 c (calm a (m s).1))
    | inr (e, threw) ↦
        subst (λ (x : Result B × State env). Change t s x.1) (sym (bind_err m f s (m s).1 e threw))
          c
  ]

  pub cancel_task-Change :
      (now : ℕ) (t : AiTask) (s : State env)
      → is_final t.status ≡ false
      → Change t s (cancel_task env now t s).1
  unfolding cancel_task
  cancel_task-Change now t s open_now =
      let next = cancelled_task now t in
      then-Change (settling next t.usage_reservation_id released 0) _ t s
        (settling-Change next released 0 t s
          record {
            id = refl;
            organization = refl;
            workspace = refl;
            user = refl;
            reservation = refl;
            reach = via (cancels open_now) here;
            climbs = omega arith;
            bounded = omega arith;
          }
          refl)
        (λ r s'. record { tasks = refl; usage = refl })

  pub settle_task-Change :
      (t next : AiTask) (payload : TaskEventPayload) (success : Bool) (s : State env)
      → Moved t next
      → Change t s (settle_task env t next payload success s).1
  unfolding settle_task
  settle_task-Change t next payload true s m =
      then-Change (settling next t.usage_reservation_id committed (or_else payload.actual_usage 1))
        _ t s (settling-Change next committed (or_else payload.actual_usage 1) t s m refl)
        (λ r s'. record { tasks = refl; usage = refl })
  settle_task-Change t next payload false s m =
      then-Change (settling next t.usage_reservation_id released 0) _ t s
        (settling-Change next released 0 t s m refl) (λ r s'. record { tasks = refl; usage = refl })
