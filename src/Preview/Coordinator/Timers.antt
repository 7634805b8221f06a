-- ===== src/Preview/Coordinator/Timers.antt =====
-- The timers that are armed and the entries that are pending, for every canvas.
use manbaa_backend.Base.{
  ℕ, suc, String, ◌≡◌, refl, sym, subst, inl, inr, true, not, some, List, [], ◌∷◌, eqb, find,
  find-Has, select-Has, Has-select, arith, eq_iff, Bool-cases, Option-cases,
}
use manbaa_backend.Preview.Coordinator.{
  Config, Timer, State, lookup, without, put, clear, clear_existing, entry, timer_for,
  schedule_edit, cancel, trigger_explicit, callback, fire, invoke, is_current, trigger_of, fires,
}
use manbaa_backend.Preview.Coordinator.Armed.{
  lookup-without, lookup-put, IsArmed, Dropped, Dropped-IsArmed, Armed, Armed-IsArmed,
}

module _ {Handler : Type 0} where
  -- The canvas without its entry and its timer.
  abbrev cleared : String → State Handler → State Handler
  cleared c s = record s {
    timers = clear_existing (lookup c s.pending) s.timers;
    pending = without c s.pending;
  }

  -- The timer of the entry of a canvas is cleared, whether there was one or not.
  cleared-Dropped : (c : String) (s : State Handler) → IsArmed s → Dropped c s (cleared c s)
  cleared-Dropped c s a = record {
    timers = λ t h. elim (Option-cases (lookup c s.pending)) [
      | inl free ↦
          (rw free at h, ground (arith, a.sound t (rw free at h), free, eq_iff t.canvas_id c))
      | inr (p, found) ↦
          let (there, uncleared) =
            select-Has (λ (u : Timer Handler). not (eqb u.pending.timer p.timer)) s.timers t
              (rw found at h) in
          (there, ground (arith, a.sound t there, found, uncleared, eq_iff t.canvas_id c))
    ];
    kept = λ t h other. elim (Option-cases (lookup c s.pending)) [
      | inl free ↦ rw free h
      | inr (p, found) ↦
          let (u, there, at, same) = a.complete c p found in
          let uncleared : not (eqb t.pending.timer p.timer) ≡ true =
            elim (Bool-cases (eqb t.pending.timer p.timer)) [
              | inl hit ↦
                  let again : t ≡ u = a.distinct t u h there (ground (arith, same)) in
                  absurd (
                    ground (
                      arith,
                      eq_iff t.canvas_id c,
                      subst (λ (x : Timer Handler). x.canvas_id ≡ c) (sym again) at,
                    ))
              | inr miss ↦ rw miss refl
            ] in
          rw found (
            Has-select (λ (u : Timer Handler). not (eqb u.pending.timer p.timer)) s.timers t h
              uncleared)
    ];
    pending = λ j. lookup-without c j s.pending;
    next = refl;
  }

  schedule_edit-IsArmed :
      (config : Config) (now : ℕ) (c : String) (revision : ℕ) (handler : Handler)
      (s : State Handler)
      → IsArmed s
      → IsArmed (schedule_edit config now c revision handler s).1
  unfolding schedule_edit
  schedule_edit-IsArmed config now c revision handler s a =
      elim (Bool-cases config.auto_preview_enabled) [
        | inr off ↦ rw off a
        | inl on ↦
            let existing = lookup c s.pending in
            let p = entry config now revision handler existing s.next_timer in
            let armed : Armed (timer_for config now c p) (cleared c s) (record s {
              pending = put c p s.pending;
              timers = timer_for config now c p ∷ clear_existing existing s.timers;
              next_timer = suc s.next_timer;
            }) =
              record {
                timers = refl;
                pending =
                    λ j. ground (arith, lookup-put c j p s.pending, lookup-without c j s.pending);
                handle = refl;
                next = refl;
                free = ground (arith, lookup-without c c s.pending, eq_iff c c);
              } in
            rw on (
              Armed-IsArmed (timer_for config now c p) (cleared c s) _
                (Dropped-IsArmed c s (cleared c s) a (cleared-Dropped c s a)) armed)
      ]

  cancel-Dropped : (c : String) (s : State Handler) → IsArmed s → Dropped c s (cancel c s).1
  unfolding cancel
  cancel-Dropped c s a = elim (Option-cases (lookup c s.pending)) [
    | inl free ↦
        let same : s ≡ (cancel c s).1 = rw (free, cancel) refl in
        subst (Dropped c s) same record {
          timers = λ t h. (h, ground (arith, a.sound t h, free, eq_iff t.canvas_id c));
          kept = λ t h other. h;
          pending = λ j. ground (arith, free, eq_iff c j);
          next = refl;
        }
    | inr (p, found) ↦
        let same : cleared c s ≡ (cancel c s).1 = rw (found, cancel) refl in
        subst (Dropped c s) same (cleared-Dropped c s a)
  ]

  -- The timer runs, and its entry is the one that is pending.
  pub fire_found :
      (now timer : ℕ) (t : Timer Handler) (s : State Handler)
      → find (fires now timer) s.timers ≡ some t
      → lookup t.canvas_id s.pending ≡ some t.pending
      → fire now timer s
        ≡ invoke t.pending.handler
            (trigger_of t)
            (record s { timers = clear timer s.timers; pending = without t.canvas_id s.pending })
  unfolding fire callback
  fire_found now timer t s found current =
      let itself : is_current t (some t.pending) ≡ true = ground arith in
      rw (found, fire, current, itself) refl

  -- The callback of a timer that was armed finds the entry that was made with it.
  fire_runs :
      (now timer : ℕ) (t : Timer Handler) (s : State Handler)
      → IsArmed s
      → find (fires now timer) s.timers ≡ some t
      → fire now timer s ≡ invoke t.pending.handler (trigger_of t) (cleared t.canvas_id s)
  fire_runs now timer t s a found =
      let (there, fits) = find-Has (fires now timer) s.timers t found in
      let current : lookup t.canvas_id s.pending ≡ some t.pending = a.sound t there in
      let handle : t.pending.timer ≡ timer = ground arith in
      let shut : clear_existing (lookup t.canvas_id s.pending) s.timers ≡ clear timer s.timers =
        rw (current, handle) refl in
      rw shut (fire_found now timer t s found current)

  pub fire-IsArmed : (now timer : ℕ) (s : State Handler) → IsArmed s → IsArmed (fire now timer s)
  unfolding fire
  fire-IsArmed now timer s a = elim (Option-cases (find (fires now timer) s.timers)) [
    | inl early ↦ let same : s ≡ fire now timer s = rw (early, fire) refl in subst IsArmed same a
    | inr (t, found) ↦
        let d = cleared-Dropped t.canvas_id s a in
        subst IsArmed (sym (fire_runs now timer t s a found)) (
          Dropped-IsArmed t.canvas_id s _ a
            record { timers = d.timers; kept = d.kept; pending = d.pending; next = d.next })
  ]

  trigger_explicit-IsArmed :
      (c : String) (revision : ℕ) (handler : Handler) (s : State Handler)
      → IsArmed s
      → IsArmed (trigger_explicit c revision handler s)
  unfolding trigger_explicit
  trigger_explicit-IsArmed c revision handler s a =
      let d = cancel-Dropped c s a in
      Dropped-IsArmed c s _ a
        record { timers = d.timers; kept = d.kept; pending = d.pending; next = d.next }

-- The calls of the service, with the time of the clock where they read it, and the runs of timers.
pub data Step (Handler : Type 0) : Type 0 where
  edit : ℕ → String → ℕ → Handler → Step Handler
  explicitly : String → ℕ → Handler → Step Handler
  drop : String → Step Handler
  run : ℕ → ℕ → Step Handler

module _ {Handler : Type 0} (config : Config) where
  abbrev pub step : Step Handler → State Handler → State Handler
  step (edit now c revision handler) s = (schedule_edit config now c revision handler s).1
  step (explicitly c revision handler) s = trigger_explicit c revision handler s
  step (drop c) s = (cancel c s).1
  step (run now timer) s = fire now timer s

  abbrev pub steps : List (Step Handler) → State Handler → State Handler
  steps [] s = s
  steps (x ∷ xs) s = steps xs (step x s)

  abbrev pub start : State Handler
  start = record { pending = []; timers = []; next_timer = 0; triggered = [] }

  step-IsArmed : (x : Step Handler) (s : State Handler) → IsArmed s → IsArmed (step x s)
  step-IsArmed (edit now c revision handler) s a =
      schedule_edit-IsArmed config now c revision handler s a
  step-IsArmed (explicitly c revision handler) s a = trigger_explicit-IsArmed c revision handler s a
  step-IsArmed (drop c) s a = Dropped-IsArmed c s _ a (cancel-Dropped c s a)
  step-IsArmed (run now timer) s a = fire-IsArmed now timer s a

  -- Whatever is called and whichever timers run, from a state in which this holds: the timers that are
  -- armed are those of the entries, a canvas has one at most, and no handle is given twice.
  pub steps-IsArmed :
      (xs : List (Step Handler)) (s : State Handler) → IsArmed s → IsArmed (steps xs s)
  steps-IsArmed [] s a = a
  steps-IsArmed (x ∷ xs) s a = steps-IsArmed xs (step x s) (step-IsArmed x s a)

  pub start-IsArmed : IsArmed start
  start-IsArmed = record {
    sound = λ t h. absurd h;
    complete = λ c p h. cc;
    fresh = λ t h. absurd h;
    distinct = λ t u h h'. absurd h;
    one = λ t u h h'. absurd h;
  }
