-- ===== src/Source/Lifecycle/Once.antt =====
-- The transaction of `handle` on refused, early and repeated events.
use manbaa_backend.Base.{
  String, ◌≡◌, ◌≢◌, ◌⊎◌, inl, inr, none, some, arith, eq_iff, ◌==◌, Option-cases, List, [], ◌∷◌,
  subst, sym, ◌∙◌, ap,
}
use manbaa_backend.Exec.{Failure, ok, err}
use manbaa_backend.Json.{Json}
use manbaa_backend.Source.Types.{
  Source, SourceVersion, SourceLifecycleEvent, SourceLifecycleKind, LifecycleScope,
}
use manbaa_backend.Source.Transition.{changed, TransitionOutcome-cases}
use manbaa_backend.Source.Lifecycle.{
  Env, State, Screened, screen, find_source, find_version, settle, commit, handle, receipt_of,
  result_of,
}

module _ (env : Env) where
  open env use {receipts, sources, versions}

  -- A transaction that throws has written nothing, so the event can be delivered again.
  pub commit_refused :
      (kind : SourceLifecycleKind) (job : Screened) (jti : String) (s : State env) (e : Failure)
      → (commit env kind job jti s).0 ≡ err e
      → (commit env kind job jti s).1 ≡ s
  unfolding commit settle
  commit_refused kind job jti s e h = ground arith

  -- The event was recorded, and the rows were left alone.
  pub record Recorded (kind : SourceLifecycleKind) (job : Screened) (jti : String) (s t : State env)
      : Type 0 where
    pub fresh : receipts.get job.scope.event_id s.receipts ≡ none
    pub unused : receipts.find_where (λ r. r.token_jti == jti) s.receipts ≡ none
    pub after : t ≡ record s { receipts = receipts.save (receipt_of env job.scope jti) s.receipts }

  -- The event was recorded, and moved the version and its source on.
  pub record Moved (kind : SourceLifecycleKind) (job : Screened) (jti : String) (s t : State env)
      : Type 0 where
    pub source : Source
    pub version : SourceVersion
    pub locked_source : find_source env job.scope s ≡ some source
    pub locked_version : find_version env job.scope s ≡ some version
    pub outcome : (result_of env kind job source version).outcome ≡ changed
    pub fresh : receipts.get job.scope.event_id s.receipts ≡ none
    pub unused : receipts.find_where (λ r. r.token_jti == jti) s.receipts ≡ none
    pub after : t ≡ record s {
      receipts = receipts.save (receipt_of env job.scope jti) s.receipts;
      versions = versions.save (result_of env kind job source version).version s.versions;
      sources = sources.save (result_of env kind job source version).source s.sources;
    }

  abbrev Effect : SourceLifecycleKind → Screened → String → State env → State env → Type 0
  Effect kind job jti s t = (t ≡ s) ⊎ Recorded kind job jti s t ⊎ Moved kind job jti s t

  settle-Effect :
      (kind : SourceLifecycleKind) (job : Screened) (jti : String) (s : State env) (source : Source)
      (version : SourceVersion)
      → find_source env job.scope s ≡ some source
      → find_version env job.scope s ≡ some version
      → receipts.get job.scope.event_id s.receipts ≡ none
      → Effect kind job jti s (settle env kind job jti source version s).1
  unfolding settle
  settle-Effect kind job jti s source version fs fv fresh =
      elim (Option-cases (receipts.find_where (λ r. r.token_jti == jti) s.receipts)) [
        | inr (r, used) ↦ inl (ground arith)
        | inl unused ↦
            elim (TransitionOutcome-cases (result_of env kind job source version).outcome) [
              | inl e ↦ inr (
                  inr (record {
                    source = source;
                    version = version;
                    locked_source = fs;
                    locked_version = fv;
                    outcome = e;
                    fresh = fresh;
                    unused = unused;
                    after = ground arith;
                  }))
              | inr (inl e) ↦
                  inr (inl (record { fresh = fresh; unused = unused; after = ground arith }))
              | inr (inr e) ↦ inl (ground arith)
            ]
      ]

  pub commit-Effect :
      (kind : SourceLifecycleKind) (job : Screened) (jti : String) (s : State env)
      → Effect kind job jti s (commit env kind job jti s).1
  unfolding commit
  commit-Effect kind job jti s = elim (Option-cases (receipts.get job.scope.event_id s.receipts)) [
    | inr (r, there) ↦ inl (ground arith)
    | inl fresh ↦ elim (Option-cases (find_source env job.scope s)) [
      | inl missing ↦ inl (ground arith)
      | inr (source, fs) ↦ elim (Option-cases (find_version env job.scope s)) [
        | inl missing ↦ inl (ground arith)
        | inr (version, fv) ↦
            let same : (commit env kind job jti s).1
                ≡ (settle env kind job jti source version s).1 =
              ground arith in
            subst (Effect kind job jti s) (sym same)
              (settle-Effect kind job jti s source version fs fv fresh)
      ]
    ]
  ]

  receipt_stored :
      (scope : LifecycleScope) (jti : String) (table : receipts.Store)
      → receipts.get scope.event_id (receipts.save (receipt_of env scope jti) table)
        ≡ some (receipt_of env scope jti)
  receipt_stored scope jti table = ground (
    arith,
    receipts.get-save (receipt_of env scope jti) table scope.event_id,
    env.receipt_key (receipt_of env scope jti),
    eq_iff scope.event_id scope.event_id,
  )

  -- A transaction that wrote anything has left a receipt of its event.
  pub written-receipt :
      (kind : SourceLifecycleKind) (job : Screened) (jti : String) (s : State env)
      → (commit env kind job jti s).1 ≢ s
      → receipts.get job.scope.event_id (commit env kind job jti s).1.receipts
        ≡ some (receipt_of env job.scope jti)
  written-receipt kind job jti s h = elim (commit-Effect kind job jti s) [
    | inl same ↦ absurd (h same)
    | inr (inl r) ↦
        ap (λ (t : State env). receipts.get job.scope.event_id t.receipts) r.after
        ∙ receipt_stored job.scope jti s.receipts
    | inr (inr m) ↦
        ap (λ (t : State env). receipts.get job.scope.event_id t.receipts) m.after
        ∙ receipt_stored job.scope jti s.receipts
  ]

  -- Once a receipt of an event is stored, the transaction writes nothing for that event any more.
  pub receipt_blocks :
      (kind : SourceLifecycleKind) (job : Screened) (jti : String) (s : State env)
      (r : SourceLifecycleEvent)
      → receipts.get job.scope.event_id s.receipts ≡ some r
      → (commit env kind job jti s).1 ≡ s
  unfolding commit
  receipt_blocks kind job jti s r there = ground arith

  -- A receipt of a new event leaves the receipts of the others as they are.
  receipt_beside :
      (scope : LifecycleScope) (jti id : String) (table : receipts.Store) (r : SourceLifecycleEvent)
      → receipts.get scope.event_id table ≡ none
      → receipts.get id table ≡ some r
      → receipts.get id (receipts.save (receipt_of env scope jti) table) ≡ some r
  receipt_beside scope jti id table r fresh there = ground (
    arith,
    receipts.get-save (receipt_of env scope jti) table id,
    env.receipt_key (receipt_of env scope jti),
    eq_iff scope.event_id id,
  )

  receipt-commit :
      (kind : SourceLifecycleKind) (job : Screened) (jti : String) (s : State env) (id : String)
      (r : SourceLifecycleEvent)
      → receipts.get id s.receipts ≡ some r
      → receipts.get id (commit env kind job jti s).1.receipts ≡ some r
  receipt-commit kind job jti s id r there = elim (commit-Effect kind job jti s) [
    | inl same ↦ ap (λ (t : State env). receipts.get id t.receipts) same ∙ there
    | inr (inl new) ↦
        ap (λ (t : State env). receipts.get id t.receipts) new.after
        ∙ receipt_beside job.scope jti id s.receipts r new.fresh there
    | inr (inr m) ↦
        ap (λ (t : State env). receipts.get id t.receipts) m.after
        ∙ receipt_beside job.scope jti id s.receipts r m.fresh there
  ]

  -- The transactions of events, one after the other; a refused one leaves the state as it was.
  unfoldable pub commits : List (SourceLifecycleKind × Screened × String) → State env → State env
  commits [] s = s
  commits ((kind, job, jti) ∷ jobs) s = commits jobs (commit env kind job jti s).1

  -- No transaction takes a receipt away or changes it.
  receipt-commits :
      (jobs : List (SourceLifecycleKind × Screened × String)) (s : State env) (id : String)
      (r : SourceLifecycleEvent)
      → receipts.get id s.receipts ≡ some r
      → receipts.get id (commits jobs s).receipts ≡ some r
  unfolding commits
  receipt-commits [] s id r there = there
  receipt-commits ((kind, job, jti) ∷ jobs) s id r there =
      receipt-commits jobs (commit env kind job jti s).1 id r
        (receipt-commit kind job jti s id r there)

  -- An event takes effect at most once: after a transaction that wrote something for it, and any number of
  -- transactions of other events or of this one, a transaction of the same event, of whatever kind, scope and
  -- token, leaves the state as it is.
  pub commit_once :
      (kind kind' : SourceLifecycleKind) (job job' : Screened) (jti jti' : String)
      (jobs : List (SourceLifecycleKind × Screened × String)) (s : State env)
      → (commit env kind job jti s).1 ≢ s
      → job'.scope.event_id ≡ job.scope.event_id
      → let t = commits jobs (commit env kind job jti s).1 in (commit env kind' job' jti' t).1 ≡ t
  commit_once kind kind' job job' jti jti' jobs s h e =
      let t = commits jobs (commit env kind job jti s).1 in
      let stored : receipts.get job.scope.event_id t.receipts
          ≡ some (receipt_of env job.scope jti) =
        receipt-commits jobs (commit env kind job jti s).1 job.scope.event_id
          (receipt_of env job.scope jti) (written-receipt kind job jti s h) in
      receipt_blocks kind' job' jti' t (receipt_of env job.scope jti) (rw e stored)

  -- An event that is delivered again after its receipt was stored changes nothing and sends nothing,
  -- whatever other handlers do meanwhile and whatever its token is worth by then.
  pub handle_again :
      (others : State env → State env) (kind : SourceLifecycleKind) (value : Json) (s : State env)
      (job : Screened) (r : SourceLifecycleEvent)
      → screen env kind value s ≡ (ok job, s)
      → receipts.get job.scope.event_id s.receipts ≡ some r
      → (handle env others kind value s).1 ≡ s
  unfolding handle
  handle_again others kind value s job r shape there = ground arith
