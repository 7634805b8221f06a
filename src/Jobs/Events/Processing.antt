-- ===== src/Jobs/Events/Processing.antt =====
-- What `finish` and the rest of a report do to the rows of the tasks and to the usage.
use manbaa_backend.Base.{
  ℕ, String, ◌≡◌, refl, sym, subst, inl, inr, Bool, true, false, or_else, if◌then◌else◌, is_some,
  arith, Bool-cases,
}
use manbaa_backend.Exec.{state_then_pure}
use manbaa_backend.Preview.Suggestions
use manbaa_backend.Jobs.Types.{
  is_final, is_started, is_queued, is_superseded, AiTask, TaskEventKind, TaskEventPayload,
  completed, failed, cancelled, started, progress, completed, failed, cancelled,
}
use manbaa_backend.Jobs.Rows.{stale_task, completed_task, failed_task, suggestion_input}
use manbaa_backend.Json.{end}
use manbaa_backend.Jobs.Events.{
  Env, State, Finish, finished, ignored, outdated, with_suggestions, announced, settle_task, finish,
  follow_up, process,
}
use manbaa_backend.Jobs.Edges.{completes, fails, here, via, Moved, superseded_stale}
use manbaa_backend.Jobs.Events.Changes.{
  Change, untouched, rewritten, Calm, then-Change, start_task-Change, progress_task-Change,
  cancel_task-Change, settle_task-Change,
}

module _ (env : Env) where
  -- The row that `finish` writes of work that is not over.
  abbrev outcome_of : ℕ → TaskEventPayload → Bool → AiTask → AiTask
  outcome_of now payload success t =
      if success then completed_task now payload t else failed_task now payload t

  outcome_Moved :
      (now : ℕ) (payload : TaskEventPayload) (success : Bool) (t : AiTask)
      → is_final t.status ≡ false
      → is_superseded t.status ≡ false
      → Moved t (outcome_of now payload success t)
  outcome_Moved now payload true t h h' = record {
    id = refl;
    organization = refl;
    workspace = refl;
    user = refl;
    reservation = refl;
    reach = via (completes h h') here;
    climbs = omega arith;
    bounded = omega arith;
  }
  outcome_Moved now payload false t h h' = record {
    id = refl;
    organization = refl;
    workspace = refl;
    user = refl;
    reservation = refl;
    reach = via (fails h h') here;
    climbs = omega arith;
    bounded = omega arith;
  }

  finish-Change :
      (now : ℕ) (t : AiTask) (payload : TaskEventPayload) (success : Bool) (s : State env)
      → Change env t s (finish env now t payload success s).1
  unfolding finish
  finish-Change now t payload success s = elim (Bool-cases (is_superseded t.status)) [
    | inl replaced ↦
        let (path, over) = superseded_stale t.status replaced in
        rw replaced (
          rewritten (stale_task now t) refl refl
            record {
              id = refl;
              organization = refl;
              workspace = refl;
              user = refl;
              reservation = refl;
              reach = path;
              climbs = omega arith;
              bounded = omega arith;
            }
            over)
    | inr kept ↦ elim (Bool-cases (is_final t.status)) [
      | inl final ↦ rw (kept, final) (untouched refl refl)
      | inr open_now ↦
          let next = outcome_of now payload success t in
          rw (kept, open_now)
            (then-Change env (settle_task env t next payload success) _ t s
              (settle_task-Change env t next payload success s
                (outcome_Moved now payload success t open_now kept))
              (λ r s'. record { tasks = refl; usage = refl }))
    ]
  ]

  pub follow_up-Calm :
      (id : String) (payload : TaskEventPayload) (success : Bool) (f : Finish) (s : State env)
      → Calm env s (follow_up env id payload success f s).1
  unfolding follow_up
  follow_up-Calm id payload success ignored s = record { tasks = refl; usage = refl }
  follow_up-Calm id payload success (outdated u) s = record { tasks = refl; usage = refl }
  follow_up-Calm id payload false (finished u) s = record { tasks = refl; usage = refl }
  follow_up-Calm id payload true (finished u) s = elim (Bool-cases (is_some u.canvas_id)) [
    | inr none_there ↦ rw none_there record { tasks = refl; usage = refl }
    | inl on_canvas ↦
        let made = with_suggestions env (
          Suggestions.create_or_update env.suggestions id
            (suggestion_input u (or_else payload.result end))) in
        rw on_canvas (
          subst (Calm env s) (sym (state_then_pure made (announced u) s))
            record { tasks = refl; usage = refl })
  ]

  pub process-Change :
      (kind : TaskEventKind) (now : ℕ) (id : String) (payload : TaskEventPayload) (t : AiTask)
      (s : State env)
      → Change env t s (process env kind now id payload t s).1
  unfolding process
  process-Change started now id payload t s = elim (Bool-cases (is_queued t.status)) [
    | inl waits ↦ rw waits (start_task-Change env now payload t s waits)
    | inr other ↦ rw other (untouched refl refl)
  ]
  process-Change progress now id payload t s = elim (Bool-cases (is_started t.status)) [
    | inl runs ↦ rw runs (progress_task-Change env payload t s)
    | inr other ↦ rw other (untouched refl refl)
  ]
  process-Change cancelled now id payload t s = elim (Bool-cases (is_final t.status)) [
    | inl final ↦ rw final (untouched refl refl)
    | inr open_now ↦ rw open_now (cancel_task-Change env now t s open_now)
  ]
  process-Change completed now id payload t s =
      then-Change env (finish env now t payload true) (follow_up env id payload true) t s
        (finish-Change now t payload true s) (follow_up-Calm id payload true)
  process-Change failed now id payload t s =
      then-Change env (finish env now t payload false) (follow_up env id payload false) t s
        (finish-Change now t payload false s) (follow_up-Calm id payload false)
