-- ===== src/Application/Service/Numbering.antt =====
-- The numbers of the versions under every command.
use manbaa_backend.Base.{String, ◌≡◌, inl, inr, none, some, sym, ap, subst}
use manbaa_backend.Exec.{Result, Failure, ok, Result-cases}
use manbaa_backend.Application.Service.{
  Env, State, update, save_draft_schema, create_version, publish_version, unpublish_version,
  duplicate, archive,
}
use manbaa_backend.Application.Service.Commands.{
  failure, Command, edit, draft, version, publish, unpublish, copy, remove, execute, execute_atomic,
}
use manbaa_backend.Application.Service.Numbers.{Step, WellNumbered, Step-WellNumbered}
use manbaa_backend.Application.Service.Steps.{
  update-Step, draft-Step, version-Step, publish-Step, unpublish-Step, archive-Step, duplicate-Step,
}

outcome :
    {A : Type 0} (env : Env) (s : State env) (r : Result A × State env)
    → WellNumbered env s
    → ((e : Failure) → failure r.0 ≡ some e → r.1 ≡ s)
    → ((a : A) → r.0 ≡ ok a → Step env s r.1)
    → WellNumbered env r.1
outcome env s r w same step = elim (Result-cases r.0) [
  | inl (a, e) ↦ Step-WellNumbered env s r.1 w (step a e)
  | inr (x, e) ↦ subst (WellNumbered env) (sym (same x (ap failure e))) w
]

-- The id that a copy is new.
abbrev pub IsFresh : (env : Env) → Command → State env → Type 0
IsFresh env (copy uuid version_uuid dto) s = env.applications.get uuid s.applications ≡ none
IsFresh env _ s = Unit

-- Every command keeps the numbers in order: each version has a number that its application has given
-- out, and no two versions of one application have the same number.
pub execute-WellNumbered :
    (env : Env) (c : Command) (id org_id actor_id : String) (s : State env)
    → IsFresh env c s
    → WellNumbered env s
    → WellNumbered env (execute env c id org_id actor_id s).1
unfolding execute
execute-WellNumbered env (edit dto) id org_id actor_id s fresh w =
    outcome env s (update env id dto org_id actor_id s) w
      (execute_atomic env (edit dto) id org_id actor_id s)
      (update-Step env id org_id actor_id s dto)
execute-WellNumbered env (draft dto) id org_id actor_id s fresh w =
    outcome env s (save_draft_schema env id dto org_id actor_id s) w
      (execute_atomic env (draft dto) id org_id actor_id s)
      (draft-Step env id org_id actor_id s dto)
execute-WellNumbered env (version uuid dto) id org_id actor_id s fresh w =
    outcome env s (create_version env uuid id dto org_id actor_id s) w
      (execute_atomic env (version uuid dto) id org_id actor_id s)
      (version-Step env id org_id actor_id s uuid dto)
execute-WellNumbered env (publish now v) id org_id actor_id s fresh w =
    outcome env s (publish_version env now id v org_id actor_id s) w
      (execute_atomic env (publish now v) id org_id actor_id s)
      (publish-Step env id org_id actor_id s now v)
execute-WellNumbered env unpublish id org_id actor_id s fresh w =
    outcome env s (unpublish_version env id org_id actor_id s) w
      (execute_atomic env unpublish id org_id actor_id s) (unpublish-Step env id org_id actor_id s)
execute-WellNumbered env (copy u v dto) id org_id actor_id s fresh w =
    outcome env s (duplicate env u v id dto org_id actor_id s) w
      (execute_atomic env (copy u v dto) id org_id actor_id s)
      (λ a. duplicate-Step env id org_id actor_id s u v dto a fresh)
execute-WellNumbered env remove id org_id actor_id s fresh w =
    outcome env s (archive env id org_id actor_id s) w
      (execute_atomic env remove id org_id actor_id s) (λ a. archive-Step env id org_id actor_id s)
