-- ===== src/Preview/Suggestions/Tests.antt =====
-- A suggestion of a canvas, and the theorem at a concrete input.
use manbaa_backend.Base.{◌≡◌, refl, some, none, [], ◌∷◌}
use manbaa_backend.Exec.{err, Failure}
use manbaa_backend.Repository.Assoc.{assoc}
use manbaa_backend.Repository.Listing.{listing}
use manbaa_backend.Preview.Suggestions.{
  CanvasAiSuggestion, CreateSuggestionInput, Env, State, suggestion_of, accept, reject, mark_stale,
  create_or_update,
}
use manbaa_backend.Preview.Suggestions.Decisions.{stored, at_once, mark_stale_lem}

abbrev env : Env
env = record {
  suggestions = assoc (λ (g : CanvasAiSuggestion). g.id);
  suggestion_key = λ g. refl;
  listing = listing (λ (g : CanvasAiSuggestion). g.id);
}

abbrev input : CreateSuggestionInput
input = record {
  task_id = "t1";
  organization_id = "o1";
  workspace_id = "w1";
  canvas_id = "c1";
  snapshot_id = some "s1";
  snapshot_version = some 1;
  canvas_revision = some 4;
  result_type = "component";
  component_spec = none;
  asset_id = none;
  asset_version_id = none;
  enhanced_prompt = none;
  evidence_ids = none;
}

abbrev suggestion : CanvasAiSuggestion
suggestion = suggestion_of env "g1" input

abbrev start : State env
start = record { suggestions = suggestion ∷ []; effects = [] }

abbrev outdated : State env
outdated = (mark_stale env "c1" "s2" 2 "o1" "w1" start).1

-- The worker reports its result once more after the canvas has changed.
abbrev stored_again : State env
stored_again = (create_or_update env "g2" input outdated).1

mark_stale_lem_example :
    ((e : Failure) × (accept env "g1" "o1" "w1" 9 stored_again ≡ (err e, stored_again)))
    × ((e : Failure) × (reject env "g1" "o1" "w1" 9 stored_again ≡ (err e, stored_again)))
unfolding mark_stale
mark_stale_lem_example =
    mark_stale_lem env "c1" "s2" "o1" "w1" 2 9 "o1" "w1" suggestion start stored_again refl refl
      refl refl (stored "g2" input refl at_once)
