-- ===== src/Application/Service/Publishing.antt =====
-- Publishing a version, reading the published one, and taking it back.
use manbaa_backend.Base.{
  ℕ, String, ◌≡◌, refl, ◌⊎◌, inl, inr, true, false, none, some, arith, eq_refl, Option-cases, ◌==◌,
  sym, ◌∙◌, ap,
}
use manbaa_backend.Exec.{ok, err, not_found, conflict}
use manbaa_backend.Application.Types.{Application, ApplicationVersion, published, draft}
use manbaa_backend.Application.Service.{
  Env, State, find_one_application, publish_version, unpublish_version, get_published_version,
  published_id,
}

marked_refused :
    (env : Env) (id org_id : String) (s : State env) (a : Application) (w : ApplicationVersion)
    (j : String) (now : ℕ) (actor_id : String)
    → env.applications.get id s.applications ≡ some a
    → (a.org_id == org_id) ≡ true
    → a.status ≡ published
    → env.versions.get j s.versions ≡ some w
    → (w.application_id == id) ≡ true
    → w.is_published ≡ true
    → (publish_version env now id j org_id actor_id s).0
      ≡ err (conflict "VERSION_ALREADY_PUBLISHED")
unfolding publish_version find_one_application
marked_refused env id org_id s a w j now actor_id there tenant open_ here owned marked =
    ground arith

module _ (env : Env) (now : ℕ) (id version_id org_id actor_id : String) (s : State env) where
  open env use {applications, versions}

  -- The version that is saved.
  abbrev stamped : ApplicationVersion → ApplicationVersion
  stamped v = record v {
    is_published = true;
    published_at = some now;
    published_by = some actor_id;
  }

  abbrev shown : Application → ApplicationVersion → Application
  shown a v = record a { published_version_id = some v.id; status = published }

  -- What a publication that went through has read and written.
  pub record Published (v' : ApplicationVersion) (t : State env) : Type 0 where
    pub application : Application
    pub version : ApplicationVersion
    pub application_found : applications.get id s.applications ≡ some application
    pub tenant : (application.org_id == org_id) ≡ true
    pub version_found : versions.get version_id s.versions ≡ some version
    pub owned : (version.application_id == id) ≡ true
    pub result : v' ≡ stamped version
    pub versions_after : t.versions ≡ versions.save (stamped version) s.versions
    pub applications_after :
        t.applications ≡ applications.save (shown application version) s.applications

  pub publish_version_lem :
      (v' : ApplicationVersion)
      → (publish_version env now id version_id org_id actor_id s).0 ≡ ok v'
      → Published v' (publish_version env now id version_id org_id actor_id s).1
  unfolding publish_version find_one_application
  publish_version_lem v' h = elim (Option-cases (applications.get id s.applications)) [
    | inl missing ↦ ground arith
    | inr (a, there) ↦ elim (Option-cases (versions.get version_id s.versions)) [
      | inl missing ↦ ground arith
      | inr (v, here) ↦ record {
        application = a;
        version = v;
        application_found = there;
        tenant = ground arith;
        version_found = here;
        owned = ground arith;
        result = ground arith;
        versions_after = ground arith;
        applications_after = ground arith;
      }
    ]
  ]

  -- The version of a publication that went through is the one that is read as published, by anybody
  -- in the organisation, with its stamps; the ids of versions are not empty.
  pub publish-get_published :
      (v' : ApplicationVersion)
      → (version_id == "") ≡ false
      → (publish_version env now id version_id org_id actor_id s).0 ≡ ok v'
      → (get_published_version env id org_id
          (publish_version env now id version_id org_id actor_id s).1).0
        ≡ ok v'
  unfolding get_published_version find_one_application
  publish-get_published v' filled h =
      let p = publish_version_lem v' h in
      let a = p.application in
      let v = p.version in
      let app_key : applications.key (shown a v) ≡ id =
        env.application_key (shown a v)
        ∙ (sym (env.application_key a)
            ∙ applications.key-get id s.applications a p.application_found) in
      let same_id : v.id ≡ version_id =
        sym (env.version_key v) ∙ versions.key-get version_id s.versions v p.version_found in
      let row = applications.get-save (shown a v) s.applications id in
      let saved = versions.get-save (stamped v) s.versions version_id in
      let key_of = env.version_key (stamped v) in
      ground (
        arith,
        eq_refl id,
        eq_refl version_id,
        p.result,
        p.versions_after,
        p.applications_after,
        p.tenant,
      )

  -- A publication leaves every other version as it was. In particular a version that was published
  -- before keeps its mark, although it is no longer the one that is read.
  pub publish_others :
      (v' : ApplicationVersion) (j : String)
      → (publish_version env now id version_id org_id actor_id s).0 ≡ ok v'
      → (version_id == j) ≡ false
      → versions.get j (publish_version env now id version_id org_id actor_id s).1.versions
        ≡ versions.get j s.versions
  publish_others v' j h other =
      let p = publish_version_lem v' h in
      let v = p.version in
      let same_id : versions.key (stamped v) ≡ version_id =
        env.version_key (stamped v)
        ∙ (sym (env.version_key v) ∙ versions.key-get version_id s.versions v p.version_found) in
      ap (versions.get j) p.versions_after
      ∙ (versions.get-save (stamped v) s.versions j ∙ ground arith)

  -- Once another version of the application is published in its place, an older published version
  -- cannot be published again: the attempt is refused as already published.
  pub republish_refused :
      (v' w : ApplicationVersion) (j : String) (later : ℕ) (someone : String)
      → (publish_version env now id version_id org_id actor_id s).0 ≡ ok v'
      → (version_id == j) ≡ false
      → versions.get j s.versions ≡ some w
      → (w.application_id == id) ≡ true
      → w.is_published ≡ true
      → (publish_version env later id j org_id someone
          (publish_version env now id version_id org_id actor_id s).1).0
        ≡ err (conflict "VERSION_ALREADY_PUBLISHED")
  republish_refused v' w j later someone h other there owned marked =
      let p = publish_version_lem v' h in
      let a = p.application in
      let v = p.version in
      let app_key : applications.key (shown a v) ≡ id =
        env.application_key (shown a v)
        ∙ (sym (env.application_key a)
            ∙ applications.key-get id s.applications a p.application_found) in
      let row = applications.get-save (shown a v) s.applications id in
      let kept = publish_others v' j h other in
      marked_refused env id org_id (publish_version env now id version_id org_id actor_id s).1
        (shown a v) w j later someone (ground (arith, eq_refl id, p.applications_after)) p.tenant
        refl (kept ∙ there) owned marked

module _ (env : Env) (id org_id actor_id : String) (s : State env) where
  open env use {applications, versions}

  abbrev taken_back : ApplicationVersion → ApplicationVersion
  taken_back v = record v { is_published = false }

  -- What taking back a publication has read and written.
  pub record Unpublished (a' : Application) (t : State env) : Type 0 where
    pub application : Application
    pub application_found : applications.get id s.applications ≡ some application
    pub tenant : (application.org_id == org_id) ≡ true
    pub result : a' ≡ record application { published_version_id = none; status = draft }
    pub version_id : String
    pub was_published : published_id env application ≡ some version_id
    pub applications_after : t.applications ≡ applications.save a' s.applications
    pub versions_after :
        ((versions.get version_id s.versions ≡ none) × (t.versions ≡ s.versions))
        ⊎ ((v : ApplicationVersion) × (versions.get version_id s.versions ≡ some v)
            × (t.versions ≡ versions.save (taken_back v) s.versions))

  pub unpublish_version_lem :
      (a' : Application)
      → (unpublish_version env id org_id actor_id s).0 ≡ ok a'
      → Unpublished a' (unpublish_version env id org_id actor_id s).1
  unfolding unpublish_version find_one_application
  unpublish_version_lem a' h = elim (Option-cases (applications.get id s.applications)) [
    | inl missing ↦ ground arith
    | inr (a, there) ↦ elim (Option-cases (published_id env a)) [
      | inl missing ↦ ground arith
      | inr (j, here) ↦ record {
        application = a;
        application_found = there;
        tenant = ground arith;
        result = ground arith;
        version_id = j;
        was_published = here;
        applications_after = ground arith;
        versions_after = elim (Option-cases (versions.get j s.versions)) [
          | inl gone ↦ inl (gone, ground arith)
          | inr (v, old) ↦ inr (v, old, ground arith)
        ];
      }
    ]
  ]

  -- After a publication was taken back nothing is read as published.
  pub unpublish-get_published :
      (a' : Application)
      → (unpublish_version env id org_id actor_id s).0 ≡ ok a'
      → (get_published_version env id org_id (unpublish_version env id org_id actor_id s).1).0
        ≡ err (not_found "No published version found for application")
  unfolding get_published_version find_one_application
  unpublish-get_published a' h =
      let u = unpublish_version_lem a' h in
      let a = u.application in
      let app_key : applications.key a' ≡ id =
        env.application_key a'
        ∙ (ap (λ (x : Application). x.id) u.result
            ∙ (sym (env.application_key a)
                ∙ applications.key-get id s.applications a u.application_found)) in
      let row = applications.get-save a' s.applications id in
      ground (arith, eq_refl id, u.result, u.applications_after, u.tenant)
