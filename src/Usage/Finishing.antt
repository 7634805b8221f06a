-- ===== src/Usage/Finishing.antt =====
-- `finish` of src/modules/usage/usage.service.ts: a reservation is settled once.
use manbaa_backend.Base.{
  ℕ, ◌+◌, String, ◌≡◌, refl, ap, sym, ◌∙◌, subst, inl, inr, true, false, some, ◌==◌, if◌then◌else◌,
  arith, eq_iff, Bool-cases, Option-cases, some_inj, ◌&&◌,
}
use manbaa_backend.Exec.{Result, ok}
use manbaa_backend.Repository.{Put}
use manbaa_backend.Usage.{
  UsageDimension, UsageReservation, UsageReservationStatus, is_committed, same_dimension,
  is_reserved, total_of, Env, State, get_usage_summary, settle, finish,
}
use manbaa_backend.Usage.Totals.{not_both}
use manbaa_backend.Usage.Settling.{settled, settle_ok, settle-Settled}

ok_inj : {a b : UsageReservation} → ok a ≡ ok b → a ≡ b
ok_inj h = cc

module _ (env : Env) where
  -- `finish` of a row that is there: it is settled env if it was reserved, and else left as it is.
  pub finish_found :
      (id : String) (status : UsageReservationStatus) (actual : ℕ) (r : UsageReservation)
      (s : State env)
      → env.reservations.get id s.reservations ≡ some r
      → finish env id status actual s
        ≡ (if is_reserved r.status then settle env r status actual s else (ok r, s))
  unfolding finish
  finish_found id status actual r s found = elim (Bool-cases (is_reserved r.status)) [
    | inl held ↦ rw (found, finish, held) refl
    | inr over ↦ rw (found, finish, over) refl
  ]

  finish_over :
      (id : String) (status : UsageReservationStatus) (actual : ℕ) (r : UsageReservation)
      (s : State env)
      → env.reservations.get id s.reservations ≡ some r
      → is_reserved r.status ≡ false
      → finish env id status actual s ≡ (ok r, s)
  finish_over id status actual r s found over =
      finish_found id status actual r s found ∙ rw over refl

  -- What `finish` leaves: its row is settled env, and the rows that are reserved were there before.
  pub record Finished (id : String) (r : UsageReservation) (s s' : State env) : Type 0 where
    pub there : env.reservations.get id s'.reservations ≡ some r
    pub over : is_reserved r.status ≡ false
    pub others :
        (k : String) (x : UsageReservation)
        → env.reservations.get k s'.reservations ≡ some x
        → is_reserved x.status ≡ true
        → env.reservations.get k s.reservations ≡ some x

  settle-Finished :
      (id : String) (status : UsageReservationStatus) (actual : ℕ) (r₀ r : UsageReservation)
      (s s' : State env)
      → is_reserved status ≡ false
      → env.reservations.get id s.reservations ≡ some r₀
      → settle env r₀ status actual s ≡ (ok r, s')
      → Finished id r s s'
  settle-Finished id status actual r₀ r s s' over found now =
      let next = settled env r₀ status actual in
      let same : next ≡ r = ok_inj (
        sym (settle_ok env r₀ status actual s)
        ∙ ap (λ (x : Result UsageReservation × State env). x.0) now) in
      let is_id : r₀.id ≡ id =
        sym (env.reservation_key r₀) ∙ env.reservations.key-get id s.reservations r₀ found in
      let put : Put env.reservations r₀.id next s.reservations s'.reservations =
        subst (λ (x : State env). Put env.reservations r₀.id next s.reservations x.reservations)
          (ap (λ (x : Result UsageReservation × State env). x.1) now)
          (settle-Settled env r₀ status actual s).row in
      record {
        there = put id ∙ (ground (arith, is_id, eq_iff r₀.id id) ∙ ap some same);
        over = subst (λ (x : UsageReservation). is_reserved x.status ≡ false) same over;
        others = λ k x stored held. elim (Bool-cases (r₀.id == k)) [
          | inr miss ↦ sym (put k ∙ rw miss refl) ∙ stored
          | inl hit ↦
              let is_next : next ≡ x = some_inj (sym (put k ∙ rw hit refl) ∙ stored) in
              absurd (
                not_both
                  (sym over ∙ (ap (λ (y : UsageReservation). is_reserved y.status) is_next ∙ held)))
        ];
      }

  pub finish-Finished :
      (id : String) (status : UsageReservationStatus) (actual : ℕ) (r : UsageReservation)
      (s s' : State env)
      → is_reserved status ≡ false
      → finish env id status actual s ≡ (ok r, s')
      → Finished id r s s'
  unfolding finish
  finish-Finished id status actual r s s' over done =
      elim (Option-cases (env.reservations.get id s.reservations)) [
        | inl missing ↦ absurd (ground (arith, done))
        | inr (r₀, found) ↦
            let ran = finish_found id status actual r₀ s found in
            elim (Bool-cases (is_reserved r₀.status)) [
              | inl held ↦
                  settle-Finished id status actual r₀ r s s' over found
                    (sym (ran ∙ rw held refl) ∙ done)
              | inr settled_before ↦
                  let same : r₀ ≡ r = ground (arith, ran, done) in
                  let still : s ≡ s' = ground (arith, ran, done) in
                  record {
                    there = rw (still, same) at found;
                    over = rw same at settled_before;
                    others = λ k x stored held. rw still stored;
                  }
            ]
      ]

  -- What was settled env stays as it is, whoever settles it again and how.
  pub finish_again :
      (id : String) (status status' : UsageReservationStatus) (actual actual' : ℕ)
      (r : UsageReservation) (s s' : State env)
      → is_reserved status ≡ false
      → finish env id status actual s ≡ (ok r, s')
      → finish env id status' actual' s' ≡ (ok r, s')
  finish_again id status status' actual actual' r s s' over done =
      let f = finish-Finished id status actual r s s' over done in
      finish_over id status' actual' r s' f.there f.over

  -- A commit of a reservation that is held adds its amount to the total of its workspace and dimension, once
  -- and there only.
  pub finish-totals :
      (id w : String) (d : UsageDimension) (status : UsageReservationStatus) (actual : ℕ)
      (r : UsageReservation) (s : State env)
      → env.reservations.get id s.reservations ≡ some r
      → total_of d (get_usage_summary env w (finish env id status actual s).1)
        ≡ total_of d (get_usage_summary env w s)
          + (if is_reserved r.status
                && (is_committed status && (r.workspace_id == w && same_dimension r.dimension d))
              then actual
              else 0)
  finish-totals id w d status actual r s found =
      let ran =
        ap (λ (x : Result UsageReservation × State env). total_of d (get_usage_summary env w x.1))
          (finish_found id status actual r s found) in
      elim (Bool-cases (is_reserved r.status)) [
        | inl held ↦ ran ∙ rw held ((settle-Settled env r status actual s).totals d w)
        | inr over ↦ ran ∙ rw over (omega arith)
      ]
