-- ===== src/Preview/Coordinator/Tests.antt =====
-- Edits of one canvas with a debounce of 3 and of at most 15, and the theorems at concrete inputs.
use manbaa_backend.Base.{◌≤◌, ◌≡◌, refl, true, none, some, List, [], ◌∷◌, String, Has, arith}
use manbaa_backend.Preview.Coordinator.{
  Config, State, Timer, debounce, schedule_edit, fire, cancel, get_pending, PendingPreview, entry,
  explicit, callback, trigger_explicit,
}
use manbaa_backend.Preview.Coordinator.Armed.{IsArmed}
use manbaa_backend.Preview.Coordinator.Timers.{
  Step, edit, explicitly, run, steps, start, steps-IsArmed, start-IsArmed,
}
use manbaa_backend.Preview.Coordinator.Debounce.{edits, edits_in_time, edit-fire}

abbrev config : Config
config = record { debounce_ms = 3; max_debounce_ms = 15; auto_preview_enabled = true }

abbrev empty : State String
empty = start config

abbrev script : List (Step String)
script =
    edit 100 "c1" 1 "first"
    ∷ edit 102 "c1" 2 "second"
    ∷ edit 102 "c2" 7 "other"
    ∷ run 103 0
    ∷ run 105 1
    ∷ explicitly "c2" 8 "asked"
    ∷ run 109 2
    ∷ []

-- The second edit replaced the first, and the explicit preview the pending one of its canvas.
script_calls :
    (steps config script empty).triggered
    ≡ ("second", record { canvas_id = "c1"; revision = 2; reason = debounce })
      ∷ ("asked", record { canvas_id = "c2"; revision = 8; reason = explicit })
      ∷ []
unfolding schedule_edit fire cancel callback trigger_explicit
script_calls = refl

steps-IsArmed_example : IsArmed (steps config script empty)
steps-IsArmed_example = steps-IsArmed config script empty (start-IsArmed config)

abbrev edited : State String
edited = (schedule_edit config 100 "c1" 1 "first" empty).1

abbrev pending : PendingPreview String
pending = entry config 100 1 "first" none 0

edits_in_time_example :
    let s' =
      (schedule_edit config 114 "c1" 5 "last"
        (edits config "c1" ((102, 2, "a") ∷ (112, 3, "b") ∷ []) edited)).1 in
    (t : Timer String) × Has t s'.timers
    × (t.canvas_id ≡ "c1")
    × (t.runs_at ≤ 115)
    × (get_pending "c1" s' ≡ some (5, 100, t.runs_at))
unfolding schedule_edit
edits_in_time_example =
    edits_in_time config "c1" ((102, 2, "a") ∷ (112, 3, "b") ∷ []) 114 5 "last" pending edited refl
      refl (omega arith) (omega arith)

edit-fire_example :
    ((fire 103 0 edited).triggered
      ≡ ("first", record { canvas_id = "c1"; revision = 1; reason = debounce }) ∷ [])
    × (get_pending "c1" (fire 103 0 edited) ≡ none)
unfolding schedule_edit
edit-fire_example =
    edit-fire config 100 103 103 "c1" "c1" 1 "first" empty edited refl (omega arith) (omega arith)
