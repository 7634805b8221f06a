-- ===== src/Jobs/Events/Completion.antt =====
-- What a report of a completed task is charged (src/modules/jobs/ai-task-events.service.ts).
use manbaa_backend.Base.{
  ℕ, ◌+◌, String, ◌≡◌, refl, ap, sym, ◌∙◌, subst, inl, inr, true, false, ◌&&◌, some, ◌==◌,
  if◌then◌else◌, or_else, arith, eq_iff, some_inj, Option, none,
}
use manbaa_backend.Exec.{Exec, Result, ok, run_cases, bind_ok, bind_err, state_then_pure, ◌>>=◌}
use manbaa_backend.Json.{Json, get, num, null, bool, str, arr, obj, whole, minus, fraction, nan}
use manbaa_backend.Messaging.DomainEvent.{DomainEvent}
use manbaa_backend.Repository.{save-Put}
use manbaa_backend.Usage
use manbaa_backend.Usage.{
  UsageDimension, UsageReservation, UsageReservationStatus, committed, is_reserved, same_dimension,
  total_of, get_usage_summary,
}
use manbaa_backend.Usage.Settling
use manbaa_backend.Usage.Finishing
use manbaa_backend.Jobs.Types.{AiTask, completed, payload_of, as_number, usage_of}
use manbaa_backend.Jobs.Rows.{in_scope, completed_task}
use manbaa_backend.Jobs.Events.{
  Env, State, authorize, find_task, process, finish, settle_task, follow_up, announce, handle,
}
use manbaa_backend.Jobs.Events.Changes.{Calm, settling, settling_ok}
use manbaa_backend.Jobs.Edges.{is_over, over_final}
use manbaa_backend.Jobs.Events.Processing.{follow_up-Calm}
use manbaa_backend.Jobs.Events.Diagram.{announce-Calm, find_task_ok, rest}

module _ (env : Env) where
  bind-Calm :
      {A B : Type 0} (m : Exec (State env) A) (f : A → Exec (State env) B) (s : State env)
      → ((a : A) (s' : State env) → Calm env s' (f a s').1)
      → Calm env (m s).1 ((m >>= f) s).1
  bind-Calm {A} {B} m f s calm = elim (run_cases m s) [
    | inl (a, gave) ↦
        subst (λ (x : Result B × State env). Calm env (m s).1 x.1)
          (sym (bind_ok m f s (m s).1 a gave)) (calm a (m s).1)
    | inr (e, threw) ↦
        subst (λ (x : Result B × State env). Calm env (m s).1 x.1)
          (sym (bind_err m f s (m s).1 e threw)) record { tasks = refl; usage = refl }
  ]

  Calm-trans : (s s' s'' : State env) → Calm env s s' → Calm env s' s'' → Calm env s s''
  Calm-trans s s' s'' c d = record { tasks = d.tasks ∙ c.tasks; usage = d.usage ∙ c.usage }

  -- The state after a completed report, up to the messages and suggestions.
  completed-Calm :
      (now : ℕ) (id : String) (event : DomainEvent) (t : AiTask) (s : State env)
      → is_over t.status ≡ false
      → let payload = payload_of event.payload in
        Calm env
          (settling env
            (completed_task now payload t)
            t.usage_reservation_id
            committed
            (or_else payload.actual_usage 1)
            s).1
          (rest env completed now id event t s).1
  unfolding process finish settle_task
  completed-Calm now id event t s open_now =
      let payload = payload_of event.payload in
      let (unfinal, kept) = over_final t.status open_now in
      let next = completed_task now payload t in
      let settle =
        settling env next t.usage_reservation_id committed (or_else payload.actual_usage 1) in
      let settled : (settle_task env t next payload true s).1 ≡ (settle s).1 =
        state_then_pure settle tt s in
      let first : Calm env (settle s).1 (finish env now t payload true s).1 =
        subst (λ (x : State env). Calm env x (finish env now t payload true s).1) settled
          (rw (kept, unfinal)
            (bind-Calm (settle_task env t next payload true) _ s
              (λ r s'. record { tasks = refl; usage = refl }))) in
      let second =
        bind-Calm (finish env now t payload true) (follow_up env id payload true) s
          (follow_up-Calm env id payload true) in
      let third =
        bind-Calm (process env completed now id payload t) (announce env completed event.payload) s
          (λ o s'. announce-Calm env completed event.payload o s') in
      Calm-trans (settle s).1 (finish env now t payload true s).1 _ first (
        Calm-trans (finish env now t payload true s).1 (process env completed now id payload t s).1
          _ second third)

  charged_usage : (o : Option Json) (n : ℕ) → usage_of o ≡ some n → or_else (as_number o) 1 ≡ n
  charged_usage none n h = some_inj h
  charged_usage (some null) n h = some_inj h
  charged_usage (some (num (whole m))) n h = some_inj h
  charged_usage (some (num (minus m))) n h = ground (arith, h)
  charged_usage (some (num fraction)) n h = ground (arith, h)
  charged_usage (some (num nan)) n h = ground (arith, h)
  charged_usage (some (bool b)) n h = ground (arith, h)
  charged_usage (some (str x)) n h = ground (arith, h)
  charged_usage (some (arr xs)) n h = ground (arith, h)
  charged_usage (some (obj fs)) n h = ground (arith, h)

  -- A report that a task is completed, if it is admitted and finds its task, if the work on that task is not over
  -- and its reservation is still open, and if the usage that it names is a natural number or left out, stores
  -- the task as completed, and adds that usage, or 1 if it is left out, to the total of the workspace and
  -- dimension of the reservation, and to no other.
  pub handle_completed :
      (value : Json) (now : ℕ) (id w : String) (d : UsageDimension) (event : DomainEvent)
      (t : AiTask) (r : UsageReservation) (n : ℕ) (s s' : State env)
      → authorize env completed value now s ≡ (ok event, s')
      → env.tasks.find_where (in_scope event (payload_of event.payload)) s'.tasks ≡ some t
      → is_over t.status ≡ false
      → env.usage.reservations.get t.usage_reservation_id s'.usage.reservations ≡ some r
      → is_reserved r.status ≡ true
      → usage_of (get "actualUsage" event.payload) ≡ some n
      → let s'' = (handle env completed value now id s).1 in
        (env.tasks.get t.id s''.tasks ≡ some (completed_task now (payload_of event.payload) t))
        × (total_of d (get_usage_summary env.usage w s''.usage)
            ≡ total_of d (get_usage_summary env.usage w s'.usage)
              + (if r.workspace_id == w && same_dimension r.dimension d then n else 0))
  unfolding handle
  handle_completed value now id w d event t r n s s' allowed found open_now reserved_by held used =
      let payload = payload_of event.payload in
      let next = completed_task now payload t in
      let actual = or_else payload.actual_usage 1 in
      let fid = t.usage_reservation_id in
      let ran : handle env completed value now id s ≡ rest env completed now id event t s' =
        bind_ok (authorize env completed value now) _ s s' event allowed
        ∙ bind_ok (find_task env event) (rest env completed now id event) s' s' t
            (find_task_ok env event s' t found) in
      let done : Usage.finish env.usage fid committed actual s'.usage ≡ (
        ok (Settling.settled env.usage r committed actual),
        (Usage.settle env.usage r committed actual s'.usage).1,
      ) =
        Finishing.finish_found env.usage fid committed actual r s'.usage reserved_by
        ∙ (rw held refl ∙ λ i. (
          Settling.settle_ok env.usage r committed actual s'.usage i,
          (Usage.settle env.usage r committed actual s'.usage).1,
        )) in
      let written = settling_ok env next fid committed actual _ _ s' done in
      let c = completed-Calm now id event t s' open_now in
      let rows : (handle env completed value now id s).1.tasks ≡ env.tasks.save next s'.tasks =
        ap (λ (x : Result Unit × State env). x.1.tasks) ran
        ∙ (c.tasks ∙ ap (λ (x : Result UsageReservation × State env). x.1.tasks) written) in
      let charged : (handle env completed value now id s).1.usage
          ≡ (Usage.settle env.usage r committed actual s'.usage).1 =
        ap (λ (x : Result Unit × State env). x.1.usage) ran
        ∙ (c.usage ∙ ap (λ (x : Result UsageReservation × State env). x.1.usage) written) in
      (
        save-Put env.tasks t.id next s'.tasks _ (env.task_key next) rows t.id
            ∙ ground (arith, eq_iff t.id t.id),
        ap (λ (u : Usage.State env.usage). total_of d (get_usage_summary env.usage w u)) charged
            ∙ ((Settling.settle-Settled env.usage r committed actual s'.usage).totals d w
                ∙ ap
                    (λ m.
                      total_of d (get_usage_summary env.usage w s'.usage)
                      + (if r.workspace_id == w && same_dimension r.dimension d then m else 0))
                    (charged_usage (get "actualUsage" event.payload) n used)),
      )
