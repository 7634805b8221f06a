-- ===== src/Application/Service/Steps.antt =====
-- What each command writes, as far as the numbers of the versions go.
use manbaa_backend.Base.{
  ℕ, suc, ◌≤◌, String, ◌≡◌, refl, ◌⊎◌, inl, inr, false, Option, none, some, arith, Option-cases,
  sym, ◌∙◌, ap,
}
use manbaa_backend.Exec.{ok}
use manbaa_backend.Repository.{Put, save-Put}
use manbaa_backend.Application.Types.{
  duplicated_from, archived, Application, ApplicationVersion, UpdateApplicationDto,
  SaveDraftSchemaDto, CreateApplicationVersionDto, DuplicateApplicationDto,
}
use manbaa_backend.Application.Service.{
  Env, State, find_one_application, update, save_draft_schema, create_version, publish_version,
  unpublish_version, duplicate, archive, published_id,
}
use manbaa_backend.Application.Service.Numbers.{Origin, Step}
use manbaa_backend.Application.Service.Publishing.{publish_version_lem, unpublish_version_lem}
use manbaa_backend.Application.Service.Drafts.{save_draft_schema_lem}

module _ (env : Env) (id org_id actor_id : String) (s : State env) where
  open env use {applications, versions}

  Put-application :
      (a : Application) (t : applications.Store)
      → t ≡ applications.save a s.applications
      → Put applications a.id a s.applications t
  Put-application a t = save-Put applications a.id a s.applications t (env.application_key a)

  Put-version :
      (v : ApplicationVersion) (t : versions.Store)
      → t ≡ versions.save v s.versions
      → Put versions v.id v s.versions t
  Put-version v t = save-Put versions v.id v s.versions t (env.version_key v)

  -- The row of the application was written again.
  again :
      (t : State env) (a a' : Application)
      → applications.get id s.applications ≡ some a
      → a'.id ≡ a.id
      → a.current_version ≤ a'.current_version
      → t.applications ≡ applications.save a' s.applications
      → (t.versions ≡ s.versions)
        ⊎ ((v : ApplicationVersion) × Put versions v.id v s.versions t.versions × Origin env s a' v)
      → Step env s t
  again t a a' there same more after rest =
      let key : id ≡ a'.id =
        sym (applications.key-get id s.applications a there) ∙ (env.application_key a ∙ sym same) in
      record {
        application = a';
        applications_after = Put-application a' t.applications after;
        grows = inr (a, ap (λ k. applications.get k s.applications) (sym key) ∙ there, more);
        versions_after = rest;
      }

  pub update-Step :
      (dto : UpdateApplicationDto) (a' : Application)
      → (update env id dto org_id actor_id s).0 ≡ ok a'
      → Step env s (update env id dto org_id actor_id s).1
  unfolding update find_one_application
  update-Step dto a' h = elim (Option-cases (applications.get id s.applications)) [
    | inl missing ↦ ground arith
    | inr (a, there) ↦
        again (update env id dto org_id actor_id s).1 a a' there (ground arith) (ground arith)
          (ground arith) (inl (ground arith))
  ]

  pub draft-Step :
      (dto : SaveDraftSchemaDto) (a' : Application)
      → (save_draft_schema env id dto org_id actor_id s).0 ≡ ok a'
      → Step env s (save_draft_schema env id dto org_id actor_id s).1
  draft-Step dto a' h =
      let p = save_draft_schema_lem env id org_id actor_id dto s a' h in
      again (save_draft_schema env id dto org_id actor_id s).1 p.application a' p.found
        (ap (λ (x : Application). x.id) p.result) (ground (arith, p.result))
        (ap (λ (t : State env). t.applications) p.after)
        (inl (ap (λ (t : State env). t.versions) p.after))

  pub version-Step :
      (uuid : String) (dto : CreateApplicationVersionDto) (v : ApplicationVersion)
      → (create_version env uuid id dto org_id actor_id s).0 ≡ ok v
      → Step env s (create_version env uuid id dto org_id actor_id s).1
  unfolding create_version find_one_application
  version-Step uuid dto v h = elim (Option-cases (applications.get id s.applications)) [
    | inl missing ↦ ground arith
    | inr (a, there) ↦
        let a' = record a {
          current_version = suc a.current_version;
          draft_schema = some v.schema;
        } in
        let key : id ≡ a.id =
          sym (applications.key-get id s.applications a there) ∙ env.application_key a in
        let here : applications.get a.id s.applications ≡ some a =
          ap (λ k. applications.get k s.applications) (sym key) ∙ there in
        let given_out : v.version_number ≡ suc a.current_version = ground arith in
        again (create_version env uuid id dto org_id actor_id s).1 a a' there refl (ground arith)
          (ground arith)
          (inr (
            v,
            Put-version v (create_version env uuid id dto org_id actor_id s).1.versions
                (ground arith),
            inr (ground arith, ground arith, given_out, inr (a, here, ground arith)),
          ))
  ]

  pub publish-Step :
      (now : ℕ) (version_id : String) (v : ApplicationVersion)
      → (publish_version env now id version_id org_id actor_id s).0 ≡ ok v
      → Step env s (publish_version env now id version_id org_id actor_id s).1
  publish-Step now version_id v h =
      let p = publish_version_lem env now id version_id org_id actor_id s v h in
      let old = p.version in
      let key : version_id ≡ old.id =
        sym (versions.key-get version_id s.versions old p.version_found) ∙ env.version_key old in
      again (publish_version env now id version_id org_id actor_id s).1 p.application _
        p.application_found refl (ground arith) p.applications_after
        (inr (
          _,
          Put-version _ (publish_version env now id version_id org_id actor_id s).1.versions
              p.versions_after,
          inl (old, ap (λ k. versions.get k s.versions) (sym key) ∙ p.version_found, refl, refl),
        ))

  pub unpublish-Step :
      (a' : Application)
      → (unpublish_version env id org_id actor_id s).0 ≡ ok a'
      → Step env s (unpublish_version env id org_id actor_id s).1
  unpublish-Step a' h =
      let u = unpublish_version_lem env id org_id actor_id s a' h in
      again (unpublish_version env id org_id actor_id s).1 u.application a' u.application_found
        (ap (λ (x : Application). x.id) u.result) (ground (arith, u.result)) u.applications_after
        (elim u.versions_after [
          | inl (gone, same) ↦ inl same
          | inr (old, there, after) ↦
              let key : u.version_id ≡ old.id =
                sym (versions.key-get u.version_id s.versions old there) ∙ env.version_key old in
              inr (
                _,
                Put-version _ (unpublish_version env id org_id actor_id s).1.versions after,
                inl (old, ap (λ k. versions.get k s.versions) (sym key) ∙ there, refl, refl),
              )
        ])

  pub archive-Step :
      (archive env id org_id actor_id s).0 ≡ ok tt → Step env s (archive env id org_id actor_id s).1
  unfolding archive find_one_application
  archive-Step h = elim (Option-cases (applications.get id s.applications)) [
    | inl missing ↦ ground arith
    | inr (a, there) ↦
        again (archive env id org_id actor_id s).1 a (record a { status = archived }) there refl
          (ground arith) (ground arith) (inl (ground arith))
  ]

  -- A row that is saved twice, the second time with another number.
  Put-twice :
      (a a' : Application) (t : applications.Store)
      → a.id ≡ a'.id
      → t ≡ applications.save a' (applications.save a s.applications)
      → Put applications a'.id a' s.applications t
  Put-twice a a' t same h k =
      ap (applications.get k) h
      ∙ ground (
        arith,
        applications.get-save a' (applications.save a s.applications) k,
        applications.get-save a s.applications k,
        env.application_key a,
        env.application_key a',
      )

  abbrev to_copy : Application → Option ApplicationVersion
  to_copy a = elim (published_id env a) [ none ↦ none | some v ↦ versions.get v s.versions ]

  pub duplicate-Step :
      (uuid version_uuid : String) (dto : DuplicateApplicationDto) (a' : Application)
      → applications.get uuid s.applications ≡ none
      → (duplicate env uuid version_uuid id dto org_id actor_id s).0 ≡ ok a'
      → Step env s (duplicate env uuid version_uuid id dto org_id actor_id s).1
  unfolding duplicate find_one_application
  duplicate-Step uuid version_uuid dto a' fresh h =
      let t = (duplicate env uuid version_uuid id dto org_id actor_id s).1 in
      elim (Option-cases (applications.get id s.applications)) [
        | inl missing ↦ ground arith
        | inr (a, there) ↦ elim (Option-cases (to_copy a)) [
          | inl nothing ↦ record {
            application = a';
            applications_after = Put-application a' t.applications (ground arith);
            grows = inl (ground arith);
            versions_after = inl (ground arith);
          }
          | inr (v, old) ↦
              let v' : ApplicationVersion = record {
                id = version_uuid;
                application_id = uuid;
                version_number = 1;
                schema_version = v.schema_version;
                schema = v.schema;
                description = some (duplicated_from a.name v.version_number);
                is_published = false;
                published_at = none;
                published_by = none;
                created_by = some actor_id;
              } in
              let id_after : a'.id ≡ uuid = ground arith in
              let unknown : applications.get a'.id s.applications ≡ none =
                ap (λ k. applications.get k s.applications) id_after ∙ fresh in
              record {
                application = a';
                applications_after =
                    Put-twice (record a' { current_version = 0 }) a' t.applications refl
                      (ground arith);
                grows = inl unknown;
                versions_after = inr (
                  v',
                  Put-version v' t.versions (ground arith),
                  inr (sym id_after, ground arith, ground arith, inl unknown),
                );
              }
        ]
      ]
