-- ===== src/Preview/Coordinator/Debounce.antt =====
-- When the preview of a canvas that is being edited is due, and what its timer then does.
use manbaa_backend.Base.{
  find, inr, Bool-cases, some_inj, ℕ, ◌+◌, ◌-◌, ◌≤◌, String, ◌≡◌, refl, sym, ap, ap₂, ◌∙◌, Bool,
  true, false, Option, none, some, List, [], ◌∷◌, ◌++◌, if◌then◌else◌, ◌==◌, Has, inl, arith,
  eq_iff,
}
use manbaa_backend.Preview.Coordinator.{
  Config, PendingPreview, Timer, State, lookup, entry, timer_for, schedule_edit, fire, fires,
  get_pending, trigger_of, reason_for, first_edit, without, shown, invoke, clear,
}
use manbaa_backend.Preview.Coordinator.Armed.{lookup-put, lookup-without}
use manbaa_backend.Preview.Coordinator.Timers.{fire_found}

module _ {Handler : Type 0} (config : Config) where
  -- Edits of one canvas, one after another: the time, the revision and the handler of each.
  abbrev pub edits : String → List (ℕ × ℕ × Handler) → State Handler → State Handler
  edits c [] s = s
  edits c ((now, revision, handler) ∷ es) s =
      edits c es (schedule_edit config now c revision handler s).1

  edit-lookup :
      (now : ℕ) (c : String) (revision : ℕ) (handler : Handler) (s : State Handler)
      → config.auto_preview_enabled ≡ true
      → lookup c (schedule_edit config now c revision handler s).1.pending
        ≡ some (entry config now revision handler (lookup c s.pending) s.next_timer)
  unfolding schedule_edit
  edit-lookup now c revision handler s on = rw on (
      ground (
        arith,
        lookup-put c c (entry config now revision handler (lookup c s.pending) s.next_timer)
            s.pending,
        eq_iff c c,
      ))

  edits-lookup :
      (c : String) (es : List (ℕ × ℕ × Handler)) (p : PendingPreview Handler) (s : State Handler)
      → config.auto_preview_enabled ≡ true
      → lookup c s.pending ≡ some p
      → p.due_at ≤ p.first_edit_at + config.max_debounce_ms
      → (q : PendingPreview Handler) × (lookup c (edits c es s).pending ≡ some q)
        × (q.first_edit_at ≡ p.first_edit_at)
        × (q.due_at ≤ p.first_edit_at + config.max_debounce_ms)
  edits-lookup c [] p s on found timely = (p, found, refl, timely)
  edits-lookup c ((now, revision, handler) ∷ es) p s on found timely =
      let s' = (schedule_edit config now c revision handler s).1 in
      let q = entry config now revision handler (some p) s.next_timer in
      let found' : lookup c s'.pending ≡ some q =
        edit-lookup now c revision handler s on ∙ rw found refl in
      edits-lookup c es q s' on found' (ground arith)

  get_pending_found :
      (c : String) (s : State Handler) (p : PendingPreview Handler)
      → lookup c s.pending ≡ some p
      → get_pending c s ≡ some (p.revision, p.first_edit_at, p.due_at)
  unfolding get_pending
  get_pending_found c s p found = rw (found, get_pending) refl

  -- However often a canvas is edited while its preview is pending, the timer of the last edit waits no
  -- longer than the longest debounce after the first one, if previews are enabled, the pending entry is due
  -- by that time and the last edit comes before it; and its time is the pending one.
  pub edits_in_time :
      (c : String) (es : List (ℕ × ℕ × Handler)) (now revision : ℕ) (handler : Handler)
      (p : PendingPreview Handler) (s : State Handler)
      → config.auto_preview_enabled ≡ true
      → lookup c s.pending ≡ some p
      → p.due_at ≤ p.first_edit_at + config.max_debounce_ms
      → now ≤ p.first_edit_at + config.max_debounce_ms
      → let s' = (schedule_edit config now c revision handler (edits c es s)).1 in
        (t : Timer Handler) × Has t s'.timers
        × (t.canvas_id ≡ c)
        × (t.runs_at ≤ p.first_edit_at + config.max_debounce_ms)
        × (get_pending c s' ≡ some (revision, p.first_edit_at, t.runs_at))
  unfolding schedule_edit
  edits_in_time c es now revision handler p s on found timely before =
      let s₁ = edits c es s in
      let (q, found₁, first, due) = edits-lookup c es p s on found timely in
      let made = entry config now revision handler (lookup c s₁.pending) s₁.next_timer in
      let since : first_edit (lookup c s₁.pending) now ≡ p.first_edit_at = rw found₁ first in
      let waits : now + (made.due_at - now) ≡ made.due_at = omega (arith, before, since) in
      (
        timer_for config now c made,
        rw on (inl refl),
        refl,
        omega (arith, waits, since),
        get_pending_found c (schedule_edit config now c revision handler s₁).1 made
              (edit-lookup now c revision handler s₁ on)
            ∙ ap₂ (λ f d. some (revision, f, d)) since (sym waits),
      )

  shown-if :
      (b : Bool) (o : Option (PendingPreview Handler))
      → shown (if b then none else o) ≡ (if b then none else shown o)
  shown-if true o = refl
  shown-if false o = refl

  -- The state after an edit and the run of its timer.
  edit_runs :
      (now later : ℕ) (c : String) (revision : ℕ) (handler : Handler) (s : State Handler)
      → config.auto_preview_enabled ≡ true
      → now ≤ later
      → (entry config now revision handler (lookup c s.pending) s.next_timer).due_at ≤ later
      → let made = entry config now revision handler (lookup c s.pending) s.next_timer in
        let s₁ = (schedule_edit config now c revision handler s).1 in
        fire later s.next_timer s₁
        ≡ invoke handler
            (trigger_of (timer_for config now c made))
            (record s₁ { timers = clear s.next_timer s₁.timers; pending = without c s₁.pending })
  unfolding schedule_edit
  edit_runs now later c revision handler s on reached passed =
      let made = entry config now revision handler (lookup c s.pending) s.next_timer in
      let s₁ = (schedule_edit config now c revision handler s).1 in
      let t = timer_for config now c made in
      let runs : fires later s.next_timer t ≡ true = ground (arith, reached, passed) in
      let first : find (fires later s.next_timer) s₁.timers ≡ some t = rw (on, runs) refl in
      fire_found later s.next_timer t s₁ first (edit-lookup now c revision handler s on)

  -- The timer of an edit that was scheduled, once its time has come, hands the revision of that edit to its
  -- handler, with the reason that the times give; then nothing is pending for the canvas, and for the others
  -- what was.
  pub edit-fire :
      (now later due : ℕ) (c j : String) (revision : ℕ) (handler : Handler) (s s' : State Handler)
      → schedule_edit config now c revision handler s ≡ (some due, s')
      → now ≤ later
      → due ≤ later
      → ((fire later s.next_timer s').triggered
          ≡ s.triggered
            ++ (
              handler,
              record {
                canvas_id = c;
                revision = revision;
                reason =
                    reason_for due (first_edit (lookup c s.pending) now + config.max_debounce_ms);
              },
            )
              ∷ [])
        × (get_pending j (fire later s.next_timer s') ≡ (if c == j then none else get_pending j s))
  unfolding schedule_edit get_pending
  edit-fire now later due c j revision handler s s' scheduled reached passed =
      elim (Bool-cases config.auto_preview_enabled) [
        | inr off ↦ absurd (ground (arith, scheduled))
        | inl on ↦
            let made = entry config now revision handler (lookup c s.pending) s.next_timer in
            let s₁ = (schedule_edit config now c revision handler s).1 in
            let first : some made.due_at ≡ some due =
              sym (rw on refl) ∙ ap (λ (r : Option ℕ × State Handler). r.0) scheduled in
            let is_due : made.due_at ≡ due = some_inj first in
            let is_next : s₁ ≡ s' = ap (λ (r : Option ℕ × State Handler). r.1) scheduled in
            let ran = edit_runs now later c revision handler s on reached (rw is_due passed) in
            let others : lookup j (without c s₁.pending)
                ≡ (if c == j then none else lookup j s.pending) =
              lookup-without c j s₁.pending
              ∙ rw on (ground (arith, lookup-put c j made s.pending)) in
            (
              rw (sym is_next, sym is_due) (ap (λ r. r.triggered) ran ∙ rw on refl),
              rw (sym is_next) (
                  ap (get_pending j) ran
                  ∙ (ap shown others ∙ shown-if (c == j) (lookup j s.pending))),
            )
      ]
