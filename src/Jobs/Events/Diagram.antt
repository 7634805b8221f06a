-- ===== src/Jobs/Events/Diagram.antt =====
-- The statuses that the reports of the workers lead to, and whose tasks they touch.
use manbaa_backend.Base.{
  some_inj, ℕ, String, ◌≡◌, refl, ap, sym, ◌∙◌, subst, inl, inr, true, Option, none, some, List, [],
  ◌∷◌, ◌==◌, if◌then◌else◌, arith, Bool-cases, eq_iff,
}
use manbaa_backend.Exec.{Exec, Result, ok, err, run_cases, bind_ok, bind_err, ◌>>=◌}
use manbaa_backend.Repository.{save-Put}
use manbaa_backend.Json.{Json, Fields}
use manbaa_backend.Messaging.DomainEvent.{DomainEvent}
use manbaa_backend.Jobs.Types.{JobStatus, AiTask, TaskEventKind, payload_of}
use manbaa_backend.Jobs.Rows.{in_scope}
use manbaa_backend.Jobs.Events.{
  Env, State, event_of, admit, Outcome, unannounced, announced, gone_stale, authorize, find_task,
  process, announce, handle,
}
use manbaa_backend.Jobs.Events.Changes.{
  Change, untouched, rewritten, settles, Calm, then-Change, Calm-Change, then-Change,
}
use manbaa_backend.Jobs.Edges.{Reach, here, via, Moved}
use manbaa_backend.Jobs.Events.Processing.{process-Change}

Reach-trans : {a b c : JobStatus} → Reach a b → Reach b c → Reach a c
Reach-trans here r = r
Reach-trans (via e q) r = via e (Reach-trans q r)

Moved-refl : (t : AiTask) → Moved t t
Moved-refl t = record {
  id = refl;
  organization = refl;
  workspace = refl;
  user = refl;
  reservation = refl;
  reach = here;
  climbs = omega arith;
  bounded = omega arith;
}

Moved-trans : (t u v : AiTask) → Moved t u → Moved u v → Moved t v
Moved-trans t u v m n = record {
  id = n.id ∙ m.id;
  organization = n.organization ∙ m.organization;
  workspace = n.workspace ∙ m.workspace;
  user = n.user ∙ m.user;
  reservation = n.reservation ∙ m.reservation;
  reach = Reach-trans m.reach n.reach;
  climbs = omega (arith, m.climbs, n.climbs, m.bounded, n.bounded);
  bounded = omega (arith, m.climbs, n.climbs, m.bounded, n.bounded);
}

module _ (env : Env) where
  pub announce-Calm :
      (kind : TaskEventKind) (payload : Fields) (o : Outcome) (s : State env)
      → Calm env s (announce env kind payload o s).1
  unfolding announce
  announce-Calm kind payload unannounced s = record { tasks = refl; usage = refl }
  announce-Calm kind payload (announced t) s = record { tasks = refl; usage = refl }
  announce-Calm kind payload (gone_stale t) s = record { tasks = refl; usage = refl }

  then-Calm :
      {A B : Type 0} (m : Exec (State env) A) (f : A → Exec (State env) B) (s : State env)
      → Calm env s (m s).1
      → ((a : A) (s' : State env) → Calm env s' (f a s').1)
      → Calm env s ((m >>= f) s).1
  then-Calm {A} {B} m f s c calm = elim (run_cases m s) [
    | inl (a, gave) ↦
        subst (λ (x : Result B × State env). Calm env s x.1) (sym (bind_ok m f s (m s).1 a gave))
          (let d = calm a (m s).1 in
            record { tasks = d.tasks ∙ c.tasks; usage = d.usage ∙ c.usage })
    | inr (e, threw) ↦
        subst (λ (x : Result B × State env). Calm env s x.1) (sym (bind_err m f s (m s).1 e threw))
          c
  ]

  pub authorize-Calm :
      (kind : TaskEventKind) (value : Json) (now : ℕ) (s : State env)
      → Calm env s (authorize env kind value now s).1
  unfolding authorize
  authorize-Calm kind value now s = admit_calm (event_of env kind value)
    where
      admit_calm : (r : Result DomainEvent) → Calm env s (admit env kind now r s).1
      admit_calm (err e) = record { tasks = refl; usage = refl }
      admit_calm (ok event) = record { tasks = refl; usage = refl }

  pub authorize_state :
      (kind : TaskEventKind) (value : Json) (now : ℕ) (s : State env)
      → (authorize env kind value now s).1
        ≡ record s { marks = (authorize env kind value now s).1.marks }
  unfolding authorize
  authorize_state kind value now s = admit_state (event_of env kind value)
    where
      admit_state :
          (r : Result DomainEvent)
          → (admit env kind now r s).1 ≡ record s { marks = (admit env kind now r s).1.marks }
      admit_state (err e) = refl
      admit_state (ok event) = refl

  -- What a report comes to: no task is touched, or one is, that is in the scope of the event.
  pub data Handled (kind : TaskEventKind) (s s' : State env) : Type 0 where
    dropped : Calm env s s' → Handled kind s s'
    applied :
        (event : DomainEvent) (t : AiTask)
        → in_scope event (payload_of event.payload) t ≡ true
        → env.tasks.get t.id s.tasks ≡ some t
        → Change env t s s'
        → Handled kind s s'

  -- The rest of `handle`, for an event that is admitted.
  abbrev pub rest : TaskEventKind → ℕ → String → DomainEvent → AiTask → Exec (State env) Unit
  rest kind now id event t =
      process env kind now id (payload_of event.payload) t >>= announce env kind event.payload

  rest-Change :
      (kind : TaskEventKind) (now : ℕ) (id : String) (event : DomainEvent) (t : AiTask)
      (s : State env)
      → Change env t s (rest kind now id event t s).1
  rest-Change kind now id event t s =
      then-Change env (process env kind now id (payload_of event.payload) t)
        (announce env kind event.payload) t s
        (process-Change env kind now id (payload_of event.payload) t s)
        (λ o s'. announce-Calm kind event.payload o s')

  pub find_task_ok :
      (event : DomainEvent) (s : State env) (t : AiTask)
      → env.tasks.find_where (in_scope event (payload_of event.payload)) s.tasks ≡ some t
      → find_task env event s ≡ (ok t, s)
  unfolding find_task
  find_task_ok event s t found = rw (found, find_task) refl

  looked_up :
      (kind : TaskEventKind) (now : ℕ) (id : String) (event : DomainEvent) (s₁ s : State env)
      → Calm env s s₁
      → (found : Option AiTask)
      → env.tasks.find_where (in_scope event (payload_of event.payload)) s₁.tasks ≡ found
      → Handled kind s ((find_task env event >>= rest kind now id event) s₁).1
  unfolding find_task
  looked_up kind now id event s₁ s c none missing =
      let same : s₁ ≡ ((find_task env event >>= rest kind now id event) s₁).1 =
        rw (missing, find_task) refl in
      dropped (subst (Calm env s) same c)
  looked_up kind now id event s₁ s c (some t) found =
      let here = find_task_ok event s₁ t found in
      let (fits, there) =
        env.tasks.find_where_sound (in_scope event (payload_of event.payload)) s₁.tasks t found in
      subst (λ (x : Result Unit × State env). Handled kind s x.1)
        (sym (bind_ok (find_task env event) (rest kind now id event) s₁ s₁ t here))
        (applied event t fits
          (subst (λ k. env.tasks.get k s.tasks ≡ some t) (env.task_key t) (rw (sym c.tasks) there))
          (Calm-Change env t s s₁ _ c (rest-Change kind now id event t s₁)))

  pub handle-Handled :
      (kind : TaskEventKind) (value : Json) (now : ℕ) (id : String) (s : State env)
      → Handled kind s (handle env kind value now id s).1
  unfolding handle find_task
  handle-Handled kind value now id s =
      let c = authorize-Calm kind value now s in
      let s₁ = (authorize env kind value now s).1 in
      elim (run_cases (authorize env kind value now) s) [
        | inr (e, refused) ↦
            subst (λ (x : Result Unit × State env). Handled kind s x.1)
              (sym (bind_err (authorize env kind value now) _ s s₁ e refused)) (dropped c)
        | inl (event, allowed) ↦
            subst (λ (x : Result Unit × State env). Handled kind s x.1)
              (sym (bind_ok (authorize env kind value now) _ s s₁ event allowed))
              (looked_up kind now id event s₁ s c
                (env.tasks.find_where (in_scope event (payload_of event.payload)) s₁.tasks) refl)
      ]

  -- One call of `handle`: the kind, the message, the time and the key of a new row.
  abbrev pub handle_all : List (TaskEventKind × Json × ℕ × String) → State env → State env
  handle_all [] s = s
  handle_all ((kind, value, now, id) ∷ cs) s = handle_all cs (handle env kind value now id s).1

  kept_row :
      (j : String) (u : AiTask) (s s' : State env)
      → s'.tasks ≡ s.tasks
      → env.tasks.get j s.tasks ≡ some u
      → (t' : AiTask) × (env.tasks.get j s'.tasks ≡ some t') × Moved u t'
  kept_row j u s s' same there = (u, rw same there, Moved-refl u)

  saved_row :
      (j : String) (t next u : AiTask) (s s' : State env)
      → s'.tasks ≡ env.tasks.save next s.tasks
      → Moved t next
      → env.tasks.get t.id s.tasks ≡ some t
      → env.tasks.get j s.tasks ≡ some u
      → (t' : AiTask) × (env.tasks.get j s'.tasks ≡ some t') × Moved u t'
  saved_row j t next u s s' saved m stored there =
      let put : env.tasks.get j s'.tasks
          ≡ (if next.id == j then some next else env.tasks.get j s.tasks) =
        save-Put env.tasks next.id next s.tasks s'.tasks (env.task_key next) saved j in
      elim (Bool-cases (next.id == j)) [
        | inr miss ↦ (u, put ∙ rw miss there, Moved-refl u)
        | inl hit ↦
            let at : t.id ≡ j = sym m.id ∙ (eq_iff next.id j).0 hit in
            let same : t ≡ u =
              some_inj (sym stored ∙ (ap (λ k. env.tasks.get k s.tasks) at ∙ there)) in
            (next, put ∙ rw hit refl, subst (λ (x : AiTask). Moved x next) same m)
      ]

  Change-row :
      (j : String) (t u : AiTask) (s s' : State env)
      → Change env t s s'
      → env.tasks.get t.id s.tasks ≡ some t
      → env.tasks.get j s.tasks ≡ some u
      → (t' : AiTask) × (env.tasks.get j s'.tasks ≡ some t') × Moved u t'
  Change-row j t u s s' (untouched a b) stored there = kept_row j u s s' a there
  Change-row j t u s s' (rewritten next a b m e) stored there =
      saved_row j t next u s s' a m stored there
  Change-row j t u s s' (settles next status actual r a m e f) stored there =
      saved_row j t next u s s' a m stored there

  Handled-row :
      (kind : TaskEventKind) (j : String) (u : AiTask) (s s' : State env)
      → Handled kind s s'
      → env.tasks.get j s.tasks ≡ some u
      → (t' : AiTask) × (env.tasks.get j s'.tasks ≡ some t') × Moved u t'
  Handled-row kind j u s s' (dropped c) there = kept_row j u s s' c.tasks there
  Handled-row kind j u s s' (applied event t fits stored c) there =
      Change-row j t u s s' c stored there

  -- Whatever the workers report, and however often, a task stays stored, of the same user, workspace and
  -- organisation, with the same reservation; its status follows the diagram; and its progress neither falls
  -- below what it was, up to 100, nor rises above 100 if it was not above.
  pub handle_all-Moved :
      (cs : List (TaskEventKind × Json × ℕ × String)) (j : String) (t : AiTask) (s : State env)
      → env.tasks.get j s.tasks ≡ some t
      → (t' : AiTask) × (env.tasks.get j (handle_all cs s).tasks ≡ some t') × Moved t t'
  handle_all-Moved [] j t s there = (t, there, Moved-refl t)
  handle_all-Moved ((kind, value, now, id) ∷ cs) j t s there =
      let s₁ = (handle env kind value now id s).1 in
      let (u, there₁, m) = Handled-row kind j t s s₁ (handle-Handled kind value now id s) there in
      let (v, there₂, n) = handle_all-Moved cs j u s₁ there₁ in (v, there₂, Moved-trans t u v m n)
