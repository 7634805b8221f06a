-- ===== src/Jobs/Events/Charges.antt =====
-- The reservations and the usage of the tasks that the workers report on.
use manbaa_backend.Base.{
  ℕ, String, ◌≡◌, refl, ap, sym, ◌∙◌, subst, ◌⊎◌, inl, inr, true, false, some, List, [], ◌∷◌, ◌==◌,
  if◌then◌else◌, arith, Bool-cases, some_inj,
}
use manbaa_backend.Exec.{Result, ok, bind_ok}
use manbaa_backend.Json.{Json}
use manbaa_backend.Messaging.DomainEvent.{DomainEvent}
use manbaa_backend.Repository.{save-Put}
use manbaa_backend.Usage.{UsageReservation, is_reserved}
use manbaa_backend.Usage.Finishing
use manbaa_backend.Jobs.Types.{
  JobStatus, is_final, is_superseded, is_queued, is_started, AiTask, TaskEventKind, started,
  progress, completed, failed, cancelled, TaskEventPayload, payload_of,
}
use manbaa_backend.Jobs.Rows.{in_scope}
use manbaa_backend.Jobs.Events.{
  Env, State, unannounced, authorize, find_task, process, finish, follow_up, announce, handle,
}
use manbaa_backend.Jobs.Events.Changes.{Change, untouched, rewritten, settles}
use manbaa_backend.Jobs.Edges.{is_over}
use manbaa_backend.Jobs.Events.Diagram.{
  Handled, dropped, applied, handle-Handled, handle_all, authorize_state, find_task_ok, rest,
}

final_unqueued : (a : JobStatus) → is_final a ≡ true → is_queued a ≡ false
final_unqueued a h = ground (arith, h)

final_unstarted : (a : JobStatus) → is_final a ≡ true → is_started a ≡ false
final_unstarted a h = ground (arith, h)

final_kept : (a : JobStatus) → is_final a ≡ true → is_superseded a ≡ false
final_kept a h = ground (arith, h)

module _ (env : Env) where
  -- A task on which the work is over holds no reservation any more.
  unfoldable pub IsSettled : State env → Type 0
  IsSettled s =
      (j : String) (t : AiTask) (r : UsageReservation)
      → env.tasks.get j s.tasks ≡ some t
      → is_over t.status ≡ true
      → env.usage.reservations.get t.usage_reservation_id s.usage.reservations ≡ some r
      → is_reserved r.status ≡ false

  -- The row of `j` after `next` was saved for `t` is that one, if `j` is the id of `t`, or is as it was.
  saved_at :
      (j : String) (t next u : AiTask) (s s' : State env)
      → s'.tasks ≡ env.tasks.save next s.tasks
      → env.tasks.get j s'.tasks ≡ some u
      → (next ≡ u) ⊎ (env.tasks.get j s.tasks ≡ some u)
  saved_at j t next u s s' saved there =
      let put : env.tasks.get j s'.tasks
          ≡ (if next.id == j then some next else env.tasks.get j s.tasks) =
        save-Put env.tasks next.id next s.tasks s'.tasks (env.task_key next) saved j in
      elim (Bool-cases (next.id == j)) [
        | inr miss ↦ inr (sym (put ∙ rw miss refl) ∙ there)
        | inl hit ↦ inl (some_inj (sym (put ∙ rw hit refl) ∙ there))
      ]

  Change-IsSettled :
      (t : AiTask) (s s' : State env)
      → Change env t s s'
      → env.tasks.get t.id s.tasks ≡ some t
      → IsSettled s
      → IsSettled s'
  unfolding IsSettled
  Change-IsSettled t s s' (untouched a b) stored i j u r there over found =
      i j u r (rw a at there) over (rw b at found)
  Change-IsSettled t s s' (rewritten next a b m e) stored i j u r there over found =
      elim (saved_at j t next u s s' a there) [
        | inr before ↦ i j u r before over (rw b at found)
        | inl same ↦
            let over_next : is_over next.status ≡ true = rw same over in
            let held_by : u.usage_reservation_id ≡ t.usage_reservation_id =
              ap (λ (x : AiTask). x.usage_reservation_id) (sym same) ∙ m.reservation in
            i t.id t r stored (sym e ∙ over_next) (rw (held_by, b) at found)
      ]
  Change-IsSettled t s s' (settles next status actual r₀ a m e f) stored i j u r there over found =
      let g =
        Finishing.finish-Finished env.usage t.usage_reservation_id status actual r₀ s.usage s'.usage
          e f in
      elim (saved_at j t next u s s' a there) [
        | inl same ↦
            let held_by : u.usage_reservation_id ≡ t.usage_reservation_id =
              ap (λ (x : AiTask). x.usage_reservation_id) (sym same) ∙ m.reservation in
            let is_it : r₀ ≡ r = some_inj (sym g.there ∙ (rw held_by at found)) in
            subst (λ (x : UsageReservation). is_reserved x.status ≡ false) is_it g.over
        | inr before ↦ elim (Bool-cases (is_reserved r.status)) [
          | inr released_now ↦ released_now
          | inl held ↦ i j u r before over (g.others u.usage_reservation_id r found held)
        ]
      ]

  Handled-IsSettled :
      (kind : TaskEventKind) (s s' : State env) → Handled env kind s s' → IsSettled s → IsSettled s'
  unfolding IsSettled
  Handled-IsSettled kind s s' (dropped c) i j u r there over found =
      i j u r (rw c.tasks at there) over (rw c.usage at found)
  Handled-IsSettled kind s s' (applied event t fits stored c) i j u r there over found =
      Change-IsSettled t s s' c stored i j u r there over found

  -- Whatever the workers report, a task on which the work is over holds no reservation, if this holds before.
  pub handle_all-IsSettled :
      (cs : List (TaskEventKind × Json × ℕ × String)) (s : State env)
      → IsSettled s
      → IsSettled (handle_all env cs s)
  handle_all-IsSettled [] s i = i
  handle_all-IsSettled ((kind, value, now, id) ∷ cs) s i =
      let s₁ = (handle env kind value now id s).1 in
      handle_all-IsSettled cs s₁
        (Handled-IsSettled kind s s₁ (handle-Handled env kind value now id s) i)

  process_final :
      (kind : TaskEventKind) (now : ℕ) (id : String) (payload : TaskEventPayload) (t : AiTask)
      (s : State env)
      → is_final t.status ≡ true
      → process env kind now id payload t s ≡ (ok unannounced, s)
  unfolding process finish follow_up
  process_final started now id payload t s final =
      let other : is_queued t.status ≡ false = final_unqueued t.status final in rw other refl
  process_final progress now id payload t s final =
      let other : is_started t.status ≡ false = final_unstarted t.status final in rw other refl
  process_final cancelled now id payload t s final = rw final refl
  process_final completed now id payload t s final =
      let kept : is_superseded t.status ≡ false = final_kept t.status final in rw (kept, final) refl
  process_final failed now id payload t s final =
      let kept : is_superseded t.status ≡ false = final_kept t.status final in rw (kept, final) refl

  -- A report, which is admitted and finds its task, on a task that is completed, failed, cancelled or stale
  -- changes nothing but the mark of its
  -- token: nothing is written, charged, suggested or broadcast, and no exception is thrown.
  pub handle_final :
      (kind : TaskEventKind) (value : Json) (now : ℕ) (id : String) (event : DomainEvent)
      (t : AiTask) (s s' : State env)
      → authorize env kind value now s ≡ (ok event, s')
      → env.tasks.find_where (in_scope event (payload_of event.payload)) s'.tasks ≡ some t
      → is_final t.status ≡ true
      → handle env kind value now id s ≡ (ok tt, record s { marks = s'.marks })
  unfolding handle announce
  handle_final kind value now id event t s s' allowed found final =
      let is_after : (authorize env kind value now s).1 ≡ s' =
        ap (λ (x : Result DomainEvent × State env). x.1) allowed in
      bind_ok (authorize env kind value now) _ s s' event allowed
      ∙ (bind_ok (find_task env event) (rest env kind now id event) s' s' t
            (find_task_ok env event s' t found)
          ∙ (bind_ok (process env kind now id (payload_of event.payload) t)
                (announce env kind event.payload) s' s' unannounced
                (process_final kind now id (payload_of event.payload) t s' final)
              ∙ (ap (λ (x : State env). (ok tt, x))
                  (sym is_after
                    ∙ (authorize_state env kind value now s
                        ∙ ap (λ (x : State env). record s { marks = x.marks }) is_after)))))
