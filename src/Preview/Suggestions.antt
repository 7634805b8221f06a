-- ===== src/Preview/Suggestions.antt =====
-- src/modules/canvas/services/canvas-ai-suggestion.service.ts.
pub mod Decisions
mod Tests
use manbaa_backend.Base.{
  ℕ, ◌<◌, String, ◌≡◌, Bool, true, false, not, ◌&&◌, ◌||◌, Option, none, some, List, [], ◌∷◌, ◌++◌,
  eqb, ltb, length, ◌==◌, if◌then◌else◌, or_else,
}
use manbaa_backend.Exec.{
  Exec, bad_request, conflict, not_found, ◌>>=◌, ◌>>◌, pure, gets, require, modify, guard,
}
use manbaa_backend.Json.{Json}
use manbaa_backend.Repository.{Repository, find_one}
use manbaa_backend.Repository.Listing.{Listing}

pub data AiSuggestionStatus : Type 0 where
  queued processing ready stale accepted rejected failed cancelled superseded : AiSuggestionStatus

abbrev pub is_ready : AiSuggestionStatus → Bool
is_ready ready = true
is_ready _ = false

abbrev pub is_accepted : AiSuggestionStatus → Bool
is_accepted accepted = true
is_accepted _ = false

abbrev pub is_rejected : AiSuggestionStatus → Bool
is_rejected rejected = true
is_rejected _ = false

-- `In([QUEUED, PROCESSING, READY])`
abbrev pub is_open : AiSuggestionStatus → Bool
is_open queued = true
is_open processing = true
is_open ready = true
is_open _ = false

pub record CreateSuggestionInput : Type 0 where
  pub task_id : String
  pub organization_id : String
  pub workspace_id : String
  pub canvas_id : String
  pub snapshot_id : Option String
  pub snapshot_version : Option ℕ
  pub canvas_revision : Option ℕ
  pub result_type : String
  pub component_spec : Option Json
  pub asset_id : Option String
  pub asset_version_id : Option String
  pub enhanced_prompt : Option String
  pub evidence_ids : Option Json

pub record CanvasAiSuggestion : Type 0 where
  pub id : String
  pub task_id : String
  pub organization_id : String
  pub workspace_id : String
  pub canvas_id : String
  pub snapshot_id : Option String
  pub snapshot_version : Option ℕ
  pub canvas_revision : Option ℕ
  pub result_type : String
  pub component_spec : Option Json
  pub asset_id : Option String
  pub asset_version_id : Option String
  pub status : AiSuggestionStatus
  pub enhanced_prompt : Option String
  pub evidence_ids : Option Json
  pub stale_flag : Bool
  pub accepted_at : Option ℕ
  pub rejected_at : Option ℕ

-- The realtime messages, by the row that they are made from; the last one by its scope and snapshot.
pub data Effect : Type 0 where
  broadcast_ready broadcast_accepted broadcast_rejected : CanvasAiSuggestion → Effect
  -- organisation, workspace, canvas, snapshot, version
  broadcast_stale : String → String → String → String → ℕ → Effect

pub record Env : Type 1 where
  pub suggestions : Repository CanvasAiSuggestion
  pub suggestion_key : (g : CanvasAiSuggestion) → suggestions.key g ≡ g.id
  pub listing : Listing suggestions

-- `value ?? previous`, of two values that may be null.
abbrev pub or_previous {ℓ} : {A : Type ℓ} → Option A → Option A → Option A
or_previous none previous = previous
or_previous (some a) previous = some a

module _ (env : Env) where
  pub record State : Type 0 where
    pub suggestions : env.suggestions.Store
    pub effects : List Effect

  abbrev pub save : CanvasAiSuggestion → Exec State Unit
  save g = modify (λ s. record s { suggestions = env.suggestions.save g s.suggestions })

  abbrev pub broadcast : Effect → Exec State Unit
  broadcast e = modify (λ s. record s { effects = s.effects ++ e ∷ [] })

  abbrev pub in_workspace : String → String → CanvasAiSuggestion → Bool
  in_workspace organization_id workspace_id g =
      g.organization_id == organization_id && g.workspace_id == workspace_id

  unfoldable pub find_by_id : String → String → String → Exec State CanvasAiSuggestion
  find_by_id id organization_id workspace_id = do
    found ←
        gets (λ s.
          find_one env.suggestions id (in_workspace organization_id workspace_id) s.suggestions)
    require found (not_found "Suggestion not found")

  unfoldable pub find_by_task_id : String → String → String → State → Option CanvasAiSuggestion
  find_by_task_id task_id organization_id workspace_id s =
      env.suggestions.find_where
        (λ g. g.task_id == task_id && in_workspace organization_id workspace_id g) s.suggestions

  abbrev pub updated : CreateSuggestionInput → CanvasAiSuggestion → CanvasAiSuggestion
  updated input existing = record existing {
    status = ready;
    component_spec = input.component_spec;
    asset_id = input.asset_id;
    asset_version_id = input.asset_version_id;
    enhanced_prompt = input.enhanced_prompt;
    evidence_ids = input.evidence_ids;
    result_type = input.result_type;
    snapshot_id = or_previous input.snapshot_id existing.snapshot_id;
    snapshot_version = or_previous input.snapshot_version existing.snapshot_version;
    canvas_revision = or_previous input.canvas_revision existing.canvas_revision;
  }

  abbrev pub suggestion_of : String → CreateSuggestionInput → CanvasAiSuggestion
  suggestion_of id input = record {
    id = id;
    task_id = input.task_id;
    organization_id = input.organization_id;
    workspace_id = input.workspace_id;
    canvas_id = input.canvas_id;
    snapshot_id = input.snapshot_id;
    snapshot_version = input.snapshot_version;
    canvas_revision = input.canvas_revision;
    result_type = input.result_type;
    component_spec = input.component_spec;
    asset_id = input.asset_id;
    asset_version_id = input.asset_version_id;
    status = ready;
    enhanced_prompt = input.enhanced_prompt;
    evidence_ids = input.evidence_ids;
    stale_flag = false;
    accepted_at = none;
    rejected_at = none;
  }

  -- `id` is the key that the database makes.
  unfoldable pub create_or_update : String → CreateSuggestionInput → Exec State CanvasAiSuggestion
  create_or_update id input = do
    existing ← gets (find_by_task_id input.task_id input.organization_id input.workspace_id)
    elim existing [
      | some g ↦ save (updated input g) >> pure (updated input g)
      | none ↦
          save (suggestion_of id input)
          >> (broadcast (broadcast_ready (suggestion_of id input)) >> pure (suggestion_of id input))
    ]

  unfoldable pub accept : String → String → String → ℕ → Exec State CanvasAiSuggestion
  accept id organization_id workspace_id now = do
    g ← find_by_id id organization_id workspace_id
    guard (not g.stale_flag) (conflict "Cannot accept a stale suggestion")
    guard (not (is_accepted g.status)) (conflict "Suggestion is already accepted")
    guard (is_ready g.status) (bad_request "Cannot accept suggestion in status")
    let saved = record g { status = accepted; accepted_at = some now }
    save saved
    broadcast (broadcast_accepted saved)
    pure saved

  unfoldable pub reject : String → String → String → ℕ → Exec State CanvasAiSuggestion
  reject id organization_id workspace_id now = do
    g ← find_by_id id organization_id workspace_id
    guard (not g.stale_flag) (conflict "Cannot reject a stale suggestion")
    guard (not (is_rejected g.status)) (conflict "Suggestion is already rejected")
    guard (is_ready g.status) (bad_request "Cannot reject suggestion in status")
    let saved = record g { status = rejected; rejected_at = some now }
    save saved
    broadcast (broadcast_rejected saved)
    pure saved

  abbrev pub outdate : List CanvasAiSuggestion → env.suggestions.Store → env.suggestions.Store
  outdate [] s = s
  outdate (g ∷ gs) s =
      outdate gs (env.suggestions.save (record g { stale_flag = true; status = stale }) s)

  -- The rows that the update statement of `markStale` matches.
  abbrev pub outdated : String → String → String → CanvasAiSuggestion → Bool
  outdated canvas_id organization_id workspace_id g =
      g.canvas_id == canvas_id
      && (in_workspace organization_id workspace_id g && (not g.stale_flag && is_open g.status))

  unfoldable pub mark_stale : String → String → ℕ → String → String → Exec State ℕ
  mark_stale canvas_id snapshot_id snapshot_version organization_id workspace_id = do
    rows ←
        gets
          (λ s. env.listing.select (outdated canvas_id organization_id workspace_id) s.suggestions)
    modify (λ s. record s { suggestions = outdate rows s.suggestions })
    let message =
        broadcast_stale organization_id workspace_id canvas_id snapshot_id snapshot_version
    if ltb 0 (length rows) then broadcast message else pure tt
    pure (length rows)
