-- ===== src/Application/Service/Commands.antt =====
-- The commands that change an application, and when they are refused.
use manbaa_backend.Base.{ℕ, String, ◌≡◌, ◌⊎◌, inl, inr, Option, none, some, arith, ◌==◌}
use manbaa_backend.Exec.{Failure, Result, ok, err, not_found, bad_request}
use manbaa_backend.Repository.{find_one}
use manbaa_backend.Application.Types.{
  Application, archived, UpdateApplicationDto, SaveDraftSchemaDto, CreateApplicationVersionDto,
  DuplicateApplicationDto,
}
use manbaa_backend.Application.Service.{
  Env, State, find_one_application, update, save_draft_schema, create_version, publish_version,
  unpublish_version, duplicate, archive,
}

-- A request for one application, with what the database and the clock supply.
pub data Command : Type 0 where
  edit : UpdateApplicationDto → Command
  draft : SaveDraftSchemaDto → Command
  version : String → CreateApplicationVersionDto → Command
  publish : ℕ → String → Command
  unpublish : Command
  copy : String → String → DuplicateApplicationDto → Command
  remove : Command

abbrev pub IsRemove : Command → Type 0
IsRemove remove = Unit
IsRemove _ = ⊥

-- What an archived application answers.
abbrev pub refusal : Command → String
refusal (version uuid dto) = "Cannot create version for archived application"
refusal (publish now v) = "Cannot publish an archived application"
refusal unpublish = "Cannot unpublish an archived application"
refusal (copy u v dto) = "Cannot duplicate an archived application"
refusal _ = "Cannot modify an archived application"

-- What is left of a result when its value is forgotten.
abbrev pub failure {ℓ} : {A : Type ℓ} → Result A → Option Failure
failure (ok a) = none
failure (err e) = some e

module _ (env : Env) where
  abbrev forget : {A : Type 0} → Result A × State env → Option Failure × State env
  forget (r, s) = (failure r, s)

  -- The state after the command, and the exception if it threw one.
  unfoldable pub execute :
      Command → String → String → String → State env → Option Failure × State env
  execute (edit dto) id org_id actor_id s = forget (update env id dto org_id actor_id s)
  execute (draft dto) id org_id actor_id s = forget (save_draft_schema env id dto org_id actor_id s)
  execute (version uuid dto) id org_id actor_id s =
      forget (create_version env uuid id dto org_id actor_id s)
  execute (publish now version_id) id org_id actor_id s =
      forget (publish_version env now id version_id org_id actor_id s)
  execute unpublish id org_id actor_id s = forget (unpublish_version env id org_id actor_id s)
  execute (copy uuid version_uuid dto) id org_id actor_id s =
      forget (duplicate env uuid version_uuid id dto org_id actor_id s)
  execute remove id org_id actor_id s = forget (archive env id org_id actor_id s)

  module _ (c : Command) (id org_id actor_id : String) (s : State env) where
    -- A command that throws has written nothing, neither a row nor an audit entry.
    pub execute_atomic :
        (e : Failure)
        → (execute c id org_id actor_id s).0 ≡ some e
        → (execute c id org_id actor_id s).1 ≡ s
    unfolding execute update save_draft_schema create_version publish_version unpublish_version
        duplicate archive find_one_application
    execute_atomic e h = elim c [
      | edit dto ↦ ground arith
      | draft dto ↦ ground arith
      | version uuid dto ↦ ground arith
      | publish now v ↦ ground arith
      | unpublish ↦ ground arith
      | copy u v dto ↦ ground arith
      | remove ↦ ground arith
    ]

    abbrev found : Option Application
    found = find_one env.applications id (λ a. a.org_id == org_id) s.applications

    -- A command on an application that does not exist or belongs to another organisation is answered
    -- with "not found" and writes nothing.
    pub execute_foreign :
        found ≡ none
        → execute c id org_id actor_id s ≡ (some (not_found "Application not found"), s)
    unfolding execute update save_draft_schema create_version publish_version unpublish_version
        duplicate archive find_one_application
    execute_foreign h = elim c [
      | edit dto ↦ ground arith
      | draft dto ↦ ground arith
      | version uuid dto ↦ ground arith
      | publish now v ↦ ground arith
      | unpublish ↦ ground arith
      | copy u v dto ↦ ground arith
      | remove ↦ ground arith
    ]

    -- An archived application takes no command but to be archived again: every other one is refused as
    -- a bad request and writes nothing.
    pub execute_archived :
        (a : Application)
        → found ≡ some a
        → a.status ≡ archived
        → IsRemove c ⊎ (execute c id org_id actor_id s ≡ (some (bad_request (refusal c)), s))
    unfolding execute update save_draft_schema create_version publish_version unpublish_version
        duplicate archive find_one_application
    execute_archived a h e =
        elim c
          as (λ k.
            IsRemove k ⊎ (execute k id org_id actor_id s ≡ (some (bad_request (refusal k)), s))) [
              | edit dto ↦ inr (ground arith)
              | draft dto ↦ inr (ground arith)
              | version uuid dto ↦ inr (ground arith)
              | publish now v ↦ inr (ground arith)
              | unpublish ↦ inr (ground arith)
              | copy u v dto ↦ inr (ground arith)
              | remove ↦ inl tt
            ]
