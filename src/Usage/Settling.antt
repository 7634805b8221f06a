-- ===== src/Usage/Settling.antt =====
-- What the settling of a reservation writes, and what it is charged.
use manbaa_backend.Base.{
  ℕ, ◌+◌, String, ◌≡◌, refl, ap, sym, ◌∙◌, inl, inr, Option, none, some, ◌==◌, if◌then◌else◌, arith,
  eq_iff, Bool-cases, Option-cases, ◌&&◌,
}
use manbaa_backend.Exec.{ok}
use manbaa_backend.Repository.{Put, save-Put}
use manbaa_backend.Usage.{
  UsageDimension, UsageReservation, WorkspaceUsage, UsageReservationStatus, reserved, released,
  committed, expired, is_committed, same_dimension, total_of, with_total, Env, State,
  get_usage_summary, totals_of, usage_for, charge, settle,
}
use manbaa_backend.Usage.Totals.{total_of_added}

module _ (env : Env) where
  -- The row of `finish` that was settled.
  abbrev pub settled : UsageReservation → UsageReservationStatus → ℕ → UsageReservation
  settled r status actual = record r { status = status; actual_amount = some actual }

  -- What `settle` leaves: the row is written, and the totals have grown if it was a commit.
  pub record Settled (r : UsageReservation) (status : UsageReservationStatus) (actual : ℕ)
      (s s' : State env) : Type 0 where
    pub row : Put env.reservations r.id (settled r status actual) s.reservations s'.reservations
    pub totals :
        (d : UsageDimension) (w : String)
        → total_of d (get_usage_summary env w s')
          ≡ total_of d (get_usage_summary env w s)
            + (if is_committed status && (r.workspace_id == w && same_dimension r.dimension d)
                then actual
                else 0)

  pub settle_ok :
      (r : UsageReservation) (status : UsageReservationStatus) (actual : ℕ) (s : State env)
      → (settle env r status actual s).0 ≡ ok (settled r status actual)
  unfolding settle charge
  settle_ok r reserved actual s = refl
  settle_ok r committed actual s = refl
  settle_ok r released actual s = refl
  settle_ok r expired actual s = refl

  usage_for_totals :
      (r : UsageReservation) (o : Option WorkspaceUsage)
      → (usage_for env r o).totals ≡ totals_of env o
  usage_for_totals r none = refl
  usage_for_totals r (some u) = refl

  usage_for_workspace :
      (r : UsageReservation) (s : State env)
      → (usage_for env r (env.usages.get r.workspace_id s.usages)).workspace_id ≡ r.workspace_id
  usage_for_workspace r s = elim (Option-cases (env.usages.get r.workspace_id s.usages)) [
    | inl missing ↦ rw missing refl
    | inr (u, found) ↦
        rw found (sym (env.usage_key u) ∙ env.usages.key-get r.workspace_id s.usages u found)
  ]

  charge-totals :
      (r : UsageReservation) (actual : ℕ) (s : State env) (d : UsageDimension) (w : String)
      → total_of d (get_usage_summary env w (charge env r actual s).1)
        ≡ total_of d (get_usage_summary env w s)
          + (if r.workspace_id == w && same_dimension r.dimension d then actual else 0)
  unfolding charge
  charge-totals r actual s d w =
      let u = usage_for env r (env.usages.get r.workspace_id s.usages) in
      let u' : WorkspaceUsage = record u {
        totals = with_total r.dimension (total_of r.dimension u.totals + actual) u.totals;
      } in
      let after = env.usages.save u' s.usages in
      let put : env.usages.get w after
          ≡ (if r.workspace_id == w then some u' else env.usages.get w s.usages) =
        save-Put env.usages r.workspace_id u' s.usages after
          (env.usage_key u' ∙ usage_for_workspace r s) refl w in
      elim (Bool-cases (r.workspace_id == w)) [
        | inl hit ↦
            let now : env.usages.get w after ≡ some u' = rw hit at put in
            let here : r.workspace_id ≡ w = (eq_iff r.workspace_id w).0 hit in
            let before : u.totals ≡ get_usage_summary env w s =
              usage_for_totals r (env.usages.get r.workspace_id s.usages)
              ∙ ap (λ x. get_usage_summary env x s) here in
            rw (now, hit)
              (total_of_added d r.dimension actual u.totals
                ∙ ap (λ ts. total_of d ts + (if same_dimension r.dimension d then actual else 0))
                    before)
        | inr miss ↦
            let now : env.usages.get w after ≡ env.usages.get w s.usages = rw miss at put in
            rw (now, miss) (omega arith)
      ]

  abbrev saved : UsageReservation → UsageReservationStatus → ℕ → State env → State env
  saved r status actual s = record s {
    reservations = env.reservations.save (settled r status actual) s.reservations;
  }

  written :
      (r : UsageReservation) (status : UsageReservationStatus) (actual : ℕ) (s : State env)
      → Put env.reservations r.id
          (settled r status actual)
          s.reservations
          (saved r status actual s).reservations
  written r status actual s =
      save-Put env.reservations r.id (settled r status actual) s.reservations _
        (env.reservation_key (settled r status actual)) refl

  pub settle-Settled :
      (r : UsageReservation) (status : UsageReservationStatus) (actual : ℕ) (s : State env)
      → Settled r status actual s (settle env r status actual s).1
  unfolding settle charge
  settle-Settled r committed actual s = record {
    row = written r committed actual s;
    totals =
        λ d w. charge-totals (settled r committed actual) actual (saved r committed actual s) d w;
  }
  settle-Settled r reserved actual s = record {
    row = written r reserved actual s;
    totals = λ d w. omega arith;
  }
  settle-Settled r released actual s = record {
    row = written r released actual s;
    totals = λ d w. omega arith;
  }
  settle-Settled r expired actual s = record {
    row = written r expired actual s;
    totals = λ d w. omega arith;
  }
