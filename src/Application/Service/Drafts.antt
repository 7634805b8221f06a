-- ===== src/Application/Service/Drafts.antt =====
-- Saving the draft schema: what is checked, what is written, and two clients that race.
use manbaa_backend.Base.{
  ℕ, suc, String, ◌≡◌, inl, inr, true, false, eqb, some, List, [], arith, eq_refl, Option-cases,
  ◌==◌, sym, ◌∙◌, ap, or_else,
}
use manbaa_backend.Exec.{ok, err, conflict}
use manbaa_backend.Schema.Validate.{validate_application_schema}
use manbaa_backend.Application.Types.{Application, is_archived, SaveDraftSchemaDto}
use manbaa_backend.Application.Service.{
  Env, State, find_one_application, save_draft_schema, full_schema, is_empty, expects,
}

is_empty_nil : {A : Type 0} (xs : List A) → is_empty xs ≡ true → xs ≡ []
is_empty_nil xs h = ground arith

module _ (env : Env) (id org_id actor_id : String) (dto : SaveDraftSchemaDto) (s : State env) where
  open env use {applications, patterns}

  -- What saving a draft that went through has read and written.
  pub record Saved (a' : Application) (t : State env) : Type 0 where
    pub application : Application
    pub found : applications.get id s.applications ≡ some application
    pub tenant : (application.org_id == org_id) ≡ true
    pub active : is_archived application.status ≡ false
    pub expected : expects dto.expected_revision application.schema_revision ≡ true
    pub valid :
        validate_application_schema patterns
          (full_schema (or_else dto.schema_version "1.0.0") id application.name dto.schema)
        ≡ []
    pub result : a' ≡ record application {
      draft_schema =
          some (full_schema (or_else dto.schema_version "1.0.0") id application.name dto.schema);
      schema_revision = suc application.schema_revision;
    }
    pub after : t ≡ record s { applications = applications.save a' s.applications }

  -- A draft that is saved has passed the validator, under the schema version and the metadata that the
  -- service adds; the row gets the schema and the next revision, and nothing else changes.
  pub save_draft_schema_lem :
      (a' : Application)
      → (save_draft_schema env id dto org_id actor_id s).0 ≡ ok a'
      → Saved a' (save_draft_schema env id dto org_id actor_id s).1
  unfolding save_draft_schema find_one_application
  save_draft_schema_lem a' h = elim (Option-cases (applications.get id s.applications)) [
    | inl missing ↦ ground arith
    | inr (a, there) ↦ record {
      application = a;
      found = there;
      tenant = ground arith;
      active = ground arith;
      expected = ground arith;
      valid =
          is_empty_nil
            (validate_application_schema patterns
              (full_schema (or_else dto.schema_version "1.0.0") id a.name dto.schema))
            (ground arith);
      result = ground arith;
      after = ground arith;
    }
  ]

stale :
    (env : Env) (id org_id actor_id : String) (dto : SaveDraftSchemaDto) (s : State env)
    (a : Application) (r : ℕ)
    → env.applications.get id s.applications ≡ some a
    → (a.org_id == org_id) ≡ true
    → is_archived a.status ≡ false
    → dto.expected_revision ≡ some r
    → eqb a.schema_revision r ≡ false
    → save_draft_schema env id dto org_id actor_id s
      ≡ (err (conflict "APPLICATION_SCHEMA_REVISION_CONFLICT"), s)
unfolding save_draft_schema find_one_application
stale env id org_id actor_id dto s a r there tenant active expected other = ground arith

-- Of two clients that both send the same `expectedRevision` and save a draft one right after the other, the
-- second is refused with a conflict and writes nothing, once the first has gone through.
pub save_draft_race :
    (env : Env) (id org_id actor_id other : String) (dto dto' : SaveDraftSchemaDto) (s : State env)
    (r : ℕ) (a' : Application)
    → dto.expected_revision ≡ some r
    → dto'.expected_revision ≡ some r
    → (save_draft_schema env id dto org_id actor_id s).0 ≡ ok a'
    → save_draft_schema env id dto' org_id other (save_draft_schema env id dto org_id actor_id s).1
      ≡ (
        err (conflict "APPLICATION_SCHEMA_REVISION_CONFLICT"),
        (save_draft_schema env id dto org_id actor_id s).1,
      )
save_draft_race env id org_id actor_id other dto dto' s r a' e e' h =
    let p = save_draft_schema_lem env id org_id actor_id dto s a' h in
    let a = p.application in
    let key : env.applications.key a' ≡ id =
      env.application_key a'
      ∙ (ap (λ (x : Application). x.id) p.result
          ∙ (sym (env.application_key a) ∙ env.applications.key-get id s.applications a p.found)) in
    let row = env.applications.get-save a' s.applications id in
    let expected = p.expected in
    let result = p.result in
    stale env id org_id other dto' (save_draft_schema env id dto org_id actor_id s).1 a' r
      (ground (arith, eq_refl id, p.after)) (ground (arith, p.tenant)) (ground (arith, p.active)) e'
      (ground arith)
