-- ===== src/Application/Service/Making.antt =====
-- Making a version.
use manbaa_backend.Base.{suc, String, ◌≡◌, true, some, arith, eq_refl, ◌==◌, sym, ◌∙◌, ap}
use manbaa_backend.Exec.{ok}
use manbaa_backend.Application.Types.{Application, ApplicationVersion, CreateApplicationVersionDto}
use manbaa_backend.Application.Service.{
  Env, State, find_one_application, create_version, find_version,
}

read :
    (env : Env) (uuid id org_id : String) (t : State env) (a : Application) (v : ApplicationVersion)
    → env.applications.get id t.applications ≡ some a
    → env.versions.get uuid t.versions ≡ some v
    → (a.org_id == org_id) ≡ true
    → v.application_id ≡ id
    → (find_version env id uuid org_id t).0 ≡ ok v
unfolding find_version find_one_application
read env uuid id org_id t a v there here tenant owned = ground (arith, eq_refl id)

module _ (env : Env) (uuid id org_id actor_id : String) (dto : CreateApplicationVersionDto)
    (s : State env) where
  open env use {applications, versions}

  -- A version that was made can be read back by its id, has the next number, and becomes the draft of
  -- its application; the revision of the draft stays what it was.
  pub create_version-find_version :
      (v : ApplicationVersion) (old : Application)
      → applications.get id s.applications ≡ some old
      → (create_version env uuid id dto org_id actor_id s).0 ≡ ok v
      → ((find_version env id uuid org_id (create_version env uuid id dto org_id actor_id s).1).0
          ≡ ok v)
        × (v.version_number ≡ suc old.current_version)
        × (applications.get id (create_version env uuid id dto org_id actor_id s).1.applications
            ≡ some
                (record old { current_version = v.version_number; draft_schema = some v.schema }))
  unfolding create_version find_version find_one_application
  create_version-find_version v old there h =
      let number : v.version_number ≡ suc old.current_version = ground arith in
      let new : Application = record old {
        current_version = v.version_number;
        draft_schema = some v.schema;
      } in
      let t = (create_version env uuid id dto org_id actor_id s).1 in
      let key : applications.key new ≡ id =
        env.application_key new
        ∙ (sym (env.application_key old) ∙ applications.key-get id s.applications old there) in
      let saved : t.applications ≡ applications.save new s.applications = ground arith in
      let row : applications.get id t.applications ≡ some new =
        ap (applications.get id) saved
        ∙ (applications.get-save new s.applications id ∙ ground (arith, eq_refl id)) in
      let stored : t.versions ≡ versions.save v s.versions = ground arith in
      let key' : versions.key v ≡ uuid = env.version_key v ∙ ground arith in
      let row' : versions.get uuid t.versions ≡ some v =
        ap (versions.get uuid) stored
        ∙ (versions.get-save v s.versions uuid ∙ ground (arith, eq_refl uuid)) in
      (read env uuid id org_id t new v row row' (ground arith) (ground arith), number, row)
