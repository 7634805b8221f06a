-- ===== src/Application/Service/Numbers.antt =====
-- The numbers of the versions of an application.
use manbaa_backend.Base.{
  ℕ, ◌≤◌, ◌<◌, String, ◌≡◌, ◌⊎◌, inl, inr, none, some, arith, eq_iff, eq_refl, Bool-cases, ◌==◌,
  sym, ◌∙◌, ap, subst,
}
use manbaa_backend.Repository.{Put}
use manbaa_backend.Application.Types.{Application, ApplicationVersion}
use manbaa_backend.Application.Service.{Env, State}

module _ (env : Env) where
  open env use {applications, versions}

  -- The row of the application that a version belongs to, with a number that it has given out.
  pub record Numbered (s : State env) (v : ApplicationVersion) : Type 0 where
    pub application : Application
    pub found : applications.get v.application_id s.applications ≡ some application
    pub positive : 1 ≤ v.version_number
    pub given_out : v.version_number ≤ application.current_version

  -- Every version has a number that its application has given out, and no two versions of one
  -- application have the same number.
  pub record WellNumbered (s : State env) : Type 0 where
    pub numbered :
        (j : String) (v : ApplicationVersion) → versions.get j s.versions ≡ some v → Numbered s v
    pub distinct :
        (i j : String) (v w : ApplicationVersion)
        → versions.get i s.versions ≡ some v
        → versions.get j s.versions ≡ some w
        → v.application_id ≡ w.application_id
        → v.version_number ≡ w.version_number
        → i ≡ j

  -- The application gave out no number, or its first one, or the next one.
  abbrev pub NumberBefore : State env → Application → ℕ → Type 0
  NumberBefore s a n =
      (applications.get a.id s.applications ≡ none)
      ⊎ ((old : Application) × (applications.get a.id s.applications ≡ some old)
          × (old.current_version < n))

  -- The version that was written is an old one with its number, or a new one with a new number.
  abbrev pub Origin : State env → Application → ApplicationVersion → Type 0
  Origin s a v =
      ((old : ApplicationVersion) × (versions.get v.id s.versions ≡ some old)
        × (old.application_id ≡ v.application_id)
        × (old.version_number ≡ v.version_number))
      ⊎ ((v.application_id ≡ a.id)
          × (1 ≤ v.version_number)
          × (v.version_number ≡ a.current_version)
          × NumberBefore s a v.version_number)

  -- What a command writes, as far as numbers go.
  pub record Step (s t : State env) : Type 0 where
    pub application : Application
    pub applications_after :
        Put applications application.id application s.applications t.applications
    pub grows :
        (applications.get application.id s.applications ≡ none)
        ⊎ ((old : Application) × (applications.get application.id s.applications ≡ some old)
            × (old.current_version ≤ application.current_version))
    pub versions_after :
        (t.versions ≡ s.versions)
        ⊎ ((v : ApplicationVersion) × Put versions v.id v s.versions t.versions
            × Origin s application v)

  module _ (s t : State env) (w : WellNumbered s) (p : Step s t) where
    -- A version that was numbered is still.
    still-Numbered : (v : ApplicationVersion) → Numbered s v → Numbered t v
    still-Numbered v n =
        let after = p.applications_after v.application_id in
        let grows = p.grows in
        let found = n.found in
        let given_out = n.given_out in
        elim (Bool-cases (p.application.id == v.application_id)) [
          | inl same ↦
              let id : p.application.id ≡ v.application_id =
                (eq_iff p.application.id v.application_id).0 same in
              record {
                application = p.application;
                found = ground arith;
                positive = n.positive;
                given_out = elim grows [
                  | inl gone ↦ ground (arith, ap (λ k. applications.get k s.applications) id)
                  | inr (old, there, more) ↦
                      ground (arith, ap (λ k. applications.get k s.applications) id)
                ];
              }
          | inr other ↦ record {
            application = n.application;
            found = ground arith;
            positive = n.positive;
            given_out = n.given_out;
          }
        ]

    Step-Numbered :
        (j : String) (v : ApplicationVersion) → versions.get j t.versions ≡ some v → Numbered t v
    Step-Numbered j v there = elim p.versions_after [
      | inl same ↦ still-Numbered v (w.numbered j v (ap (versions.get j) (sym same) ∙ there))
      | inr (v', put, origin) ↦ elim (Bool-cases (v'.id == j)) [
        | inr other ↦ still-Numbered v (w.numbered j v (ground (arith, put j)))
        | inl hit ↦
            let here : v' ≡ v = ground (arith, put j) in
            subst (Numbered t) here (elim origin [
              | inl (old, was, app, number) ↦
                  let n = still-Numbered old (w.numbered v'.id old was) in
                  record {
                    application = n.application;
                    found = ap (λ k. applications.get k t.applications) (sym app) ∙ n.found;
                    positive = ground (arith, n.positive);
                    given_out = ground (arith, n.given_out);
                  }
              | inr (app, positive, number, before) ↦ record {
                application = p.application;
                found =
                    ap (λ k. applications.get k t.applications) app
                    ∙ (p.applications_after p.application.id
                        ∙ ground (arith, eq_refl p.application.id));
                positive = positive;
                given_out = ground arith;
              }
            ])
      ]
    ]

    -- A row that has the number of the one that was written has its id.
    clash :
        (v : ApplicationVersion)
        → Origin s p.application v
        → (j : String) (u : ApplicationVersion) → versions.get j s.versions ≡ some u
        → v.application_id ≡ u.application_id
        → v.version_number ≡ u.version_number
        → v.id ≡ j
    clash v (inl (old, was, app, number)) j u there same equal =
        w.distinct v.id j old u was there (app ∙ same) (number ∙ equal)
    clash v (inr (app, positive, number, before)) j u there same equal =
        let n = w.numbered j u there in
        let given_out = n.given_out in
        let found : applications.get p.application.id s.applications ≡ some n.application =
          ap (λ k. applications.get k s.applications) (sym app ∙ same) ∙ n.found in
        elim before [ inl gone ↦ ground arith | inr (old, was, fewer) ↦ ground arith ]

    Step-distinct :
        (i j : String) (v u : ApplicationVersion)
        → versions.get i t.versions ≡ some v
        → versions.get j t.versions ≡ some u
        → v.application_id ≡ u.application_id
        → v.version_number ≡ u.version_number
        → i ≡ j
    Step-distinct i j v u vi uj same equal = elim p.versions_after [
      | inl kept ↦
          w.distinct i j v u (ap (versions.get i) (sym kept) ∙ vi)
            (ap (versions.get j) (sym kept) ∙ uj) same equal
      | inr (v', put, origin) ↦ elim (Bool-cases (v'.id == i)) [
        | inl hit ↦
            let here : v' ≡ v = ground (arith, put i) in
            let id = (eq_iff v'.id i).0 hit in
            elim (Bool-cases (v'.id == j)) [
              | inl hit' ↦ sym id ∙ (eq_iff v'.id j).0 hit'
              | inr other ↦
                  sym id
                  ∙ clash v' origin j u (ground (arith, put j))
                      (ap (λ (x : ApplicationVersion). x.application_id) here ∙ same)
                      (ap (λ (x : ApplicationVersion). x.version_number) here ∙ equal)
            ]
        | inr other ↦ elim (Bool-cases (v'.id == j)) [
          | inl hit' ↦
              let here : v' ≡ u = ground (arith, put j) in
              sym (
                sym ((eq_iff v'.id j).0 hit')
                ∙ clash v' origin i v (ground (arith, put i))
                    (ap (λ (x : ApplicationVersion). x.application_id) here ∙ sym same)
                    (ap (λ (x : ApplicationVersion). x.version_number) here ∙ sym equal))
          | inr other' ↦
              w.distinct i j v u (ground (arith, put i)) (ground (arith, put j)) same equal
        ]
      ]
    ]

    pub Step-WellNumbered : WellNumbered t
    Step-WellNumbered = record { numbered = Step-Numbered; distinct = Step-distinct }
