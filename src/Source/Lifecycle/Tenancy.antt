-- ===== src/Source/Lifecycle/Tenancy.antt =====
-- Which versions a transaction moves, and how far.
use manbaa_backend.Base.{
  String, ◌≡◌, refl, ◌⊎◌, inl, inr, Bool, true, ◌&&◌, some, List, [], ◌∷◌, arith, eq_iff, ◌==◌,
  subst, sym, ◌∙◌, ap, Bool-cases, Option-cases, some_inj,
}
use manbaa_backend.Source.Types.{SourceStatus, SourceVersion, SourceLifecycleKind, LifecycleScope}
use manbaa_backend.Source.Transition.{status_for}
use manbaa_backend.Source.Transition.Order.{Advances, changed_iff_Advances, changed_version}
use manbaa_backend.Source.Lifecycle.{Env, State, Screened, find_version, commit, result_of}
use manbaa_backend.Source.Lifecycle.Once.{Moved, commit-Effect, commits}

-- Steps that advance a status, one after the other.
pub data Climbs (from : SourceStatus) : SourceStatus → Type 0 where
  stay : Climbs from from
  up :
      {to : SourceStatus} (kind : SourceLifecycleKind)
      → Climbs from to
      → Advances to kind
      → Climbs from (status_for kind)

-- The row is in the tenant and belongs to the source that the event names.
pub record InScope (scope : LifecycleScope) (v : SourceVersion) : Type 0 where
  pub version_id : v.id ≡ scope.source_version_id
  pub source_id : v.source_id ≡ scope.source_id
  pub organization : v.organization_id ≡ scope.organization_id
  pub workspace : v.workspace_id ≡ scope.workspace_id

module _ (env : Env) (kind : SourceLifecycleKind) (job : Screened) (jti : String)
    (s : State env) where
  open env use {versions}

  abbrev is_in_scope : SourceVersion → Bool
  is_in_scope r =
      r.source_id == job.scope.source_id
      && (r.organization_id == job.scope.organization_id
          && r.workspace_id == job.scope.workspace_id)

  within-InScope :
      (w : SourceVersion)
      → versions.get job.scope.source_version_id s.versions ≡ some w
      → is_in_scope w ≡ true
      → InScope job.scope w
  within-InScope w there h = record {
    version_id =
        sym (env.version_key w) ∙ versions.key-get job.scope.source_version_id s.versions w there;
    source_id = ground (arith, eq_iff w.source_id job.scope.source_id);
    organization = ground (arith, eq_iff w.organization_id job.scope.organization_id);
    workspace = ground (arith, eq_iff w.workspace_id job.scope.workspace_id);
  }

  locked_InScope :
      (v : SourceVersion)
      → find_version env job.scope s ≡ some v
      → (versions.get job.scope.source_version_id s.versions ≡ some v) × InScope job.scope v
  unfolding find_version
  locked_InScope v h = elim (Option-cases (versions.get job.scope.source_version_id s.versions)) [
    | inl missing ↦ ground arith
    | inr (w, there) ↦ elim (Bool-cases (is_in_scope w)) [
      | inr out ↦ ground arith
      | inl within ↦
          let same : w ≡ v = ground arith in
          (ground arith, subst (InScope job.scope) same (within-InScope w there within))
    ]
  ]

  Moved-version :
      (j : String) (v : SourceVersion)
      → versions.get j s.versions ≡ some v
      → Moved env kind job jti s (commit env kind job jti s).1
      → (t : SourceVersion) × (versions.get j (commit env kind job jti s).1.versions ≡ some t)
        × ((t ≡ v)
            ⊎ (InScope job.scope v
                × Advances v.processing_status kind
                × (t.processing_status ≡ status_for kind)))
  Moved-version j v there m =
      let new = (result_of env kind job m.source m.version).version in
      let (found, scoped) = locked_InScope m.version m.locked_version in
      let (same_id, status) = changed_version kind m.source m.version _ _ _ m.outcome in
      let advance = (changed_iff_Advances kind m.source m.version _ _ _).0 m.outcome in
      let saved =
        ap (λ (t : State env). versions.get j t.versions) m.after
        ∙ versions.get-save new s.versions j in
      elim (Bool-cases (versions.key new == j)) [
        | inl hit ↦
            let here : job.scope.source_version_id ≡ j =
              sym scoped.version_id
              ∙ (sym same_id ∙ (sym (env.version_key new) ∙ (eq_iff (versions.key new) j).0 hit)) in
            let same : m.version ≡ v =
              some_inj (sym found ∙ (ap (λ k. versions.get k s.versions) here ∙ there)) in
            (
              new,
              saved ∙ rw hit,
              inr (
                subst (InScope job.scope) same scoped,
                subst (λ (x : SourceVersion). Advances x.processing_status kind) same advance.1,
                status,
              ),
            )
        | inr miss ↦ (v, saved ∙ rw miss there, inl refl)
      ]

  -- A transaction touches at most the version that its event names, and that only if the row lies in
  -- the organisation, the workspace and the source of the event; it then advances the status by the
  -- one step that the event stands for.
  pub commit_version :
      (j : String) (v : SourceVersion)
      → versions.get j s.versions ≡ some v
      → (t : SourceVersion) × (versions.get j (commit env kind job jti s).1.versions ≡ some t)
        × ((t ≡ v)
            ⊎ (InScope job.scope v
                × Advances v.processing_status kind
                × (t.processing_status ≡ status_for kind)))
  commit_version j v there = elim (commit-Effect env kind job jti s) [
    | inl same ↦ (v, ap (λ (t : State env). versions.get j t.versions) same ∙ there, inl refl)
    | inr (inl r) ↦ (v, ap (λ (t : State env). versions.get j t.versions) r.after ∙ there, inl refl)
    | inr (inr m) ↦ Moved-version j v there m
  ]

Climbs-trans : {a b c : SourceStatus} → Climbs a b → Climbs b c → Climbs a c
Climbs-trans p stay = p
Climbs-trans p (up kind q a) = up kind (Climbs-trans p q) a

-- Whatever events arrive, in whatever order and however often, the status of a version only climbs:
-- from pending over processing and extracted to indexed, one step at a time, or from one of the first
-- three to failed. It never goes back.
pub commits-Climbs :
    (env : Env) (jobs : List (SourceLifecycleKind × Screened × String)) (s : State env) (j : String)
    (v : SourceVersion)
    → env.versions.get j s.versions ≡ some v
    → (t : SourceVersion) × (env.versions.get j (commits env jobs s).versions ≡ some t)
      × Climbs v.processing_status t.processing_status
unfolding commits
commits-Climbs env [] s j v there = (v, there, stay)
commits-Climbs env ((kind, job, jti) ∷ jobs) s j v there =
    let (u, found, moved) = commit_version env kind job jti s j v there in
    let (t, last, climbs) = commits-Climbs env jobs (commit env kind job jti s).1 j u found in
    (
      t,
      last,
      elim moved [
        | inl same ↦
            subst (λ (x : SourceVersion). Climbs x.processing_status t.processing_status) same
              climbs
        | inr (scoped, a, e) ↦
            Climbs-trans (subst (Climbs v.processing_status) (sym e) (up kind stay a)) climbs
      ],
    )
