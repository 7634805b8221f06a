-- ===== src/Outbox/Publisher/Lease.antt =====
-- What one claim takes, and two claims in a row.
use manbaa_backend.Base.{
  ℕ, zero, suc, String, ◌≡◌, refl, sym, ap, subst, ◌∙◌, ◌⊎◌, inl, inr, Bool, true, false, not, ◌&&◌,
  [], ◌∷◌, ◌+◌, ◌<◌, arith, eq_iff, ◌==◌, length, any, All, Bool-cases,
}
use manbaa_backend.Outbox.Publisher.{
  publishing, OutboxEvent, Table, publish_lease_ms, due, leased, claim,
}

-- An event with a lease that was given at `now`, and with attempts left.
abbrev pub IsLeased : ℕ → OutboxEvent → Type 0
IsLeased now e =
    (e.status ≡ publishing) × (e.available_at ≡ now + publish_lease_ms) × (e.attempt_count < 8)

abbrev pub is_free : (String → Bool) → ℕ → OutboxEvent → Bool
is_free locked now e = due now e && not (locked e.id)

module _ (locked : String → Bool) (now n : ℕ) (e : OutboxEvent) (table : Table) where
  take :
      is_free locked now e ≡ true
      → claim locked now (suc n) (e ∷ table)
        ≡ (leased now e ∷ (claim locked now n table).0, leased now e ∷ (claim locked now n table).1)
  unfolding claim
  take free = rw free refl

  pass :
      is_free locked now e ≡ false
      → claim locked now (suc n) (e ∷ table)
        ≡ ((claim locked now (suc n) table).0, e ∷ (claim locked now (suc n) table).1)
  unfolding claim
  pass other = rw other refl

pub claim-IsLeased :
    (locked : String → Bool) (now n : ℕ) (table : Table)
    → All (IsLeased now) (claim locked now n table).0
unfolding claim
claim-IsLeased locked now zero table = tt
claim-IsLeased locked now (suc n) [] = tt
claim-IsLeased locked now (suc n) (e ∷ table) = elim (Bool-cases (is_free locked now e)) [
  | inl free ↦ rw free ((refl, refl, ground arith), claim-IsLeased locked now n table)
  | inr other ↦ rw other (claim-IsLeased locked now (suc n) table)
]

-- A claim takes no more events than it may; if it takes fewer, no event that is due and not locked
-- is left in the table.
pub claim_exhausts :
    (locked : String → Bool) (now n : ℕ) (table : Table)
    → (length (claim locked now n table).0 ≡ n)
      ⊎ ((length (claim locked now n table).0 < n)
          × All (λ e. is_free locked now e ≡ false) (claim locked now n table).1)
unfolding claim
claim_exhausts locked now zero table = inl refl
claim_exhausts locked now (suc n) [] = inr (ground arith, tt)
claim_exhausts locked now (suc n) (e ∷ table) = elim (Bool-cases (is_free locked now e)) [
  | inl free ↦
      let eq = take locked now n e table free in
      let spent : is_free locked now (leased now e) ≡ false = ground arith in
      elim (claim_exhausts locked now n table) [
        | inl full ↦ inl (ap (λ (r : Table × Table). length r.0) eq ∙ ap suc full)
        | inr (fewer, none_left) ↦ inr (
          subst (λ (m : ℕ). m < suc n) (sym (ap (λ (r : Table × Table). length r.0) eq))
              (omega arith),
          subst (All (λ x. is_free locked now x ≡ false)) (sym (ap (λ (r : Table × Table). r.1) eq))
              (spent, none_left),
        )
      ]
  | inr other ↦
      let eq = pass locked now n e table other in
      elim (claim_exhausts locked now (suc n) table) [
        | inl full ↦ inl (ap (λ (r : Table × Table). length r.0) eq ∙ full)
        | inr (fewer, none_left) ↦ inr (
          subst (λ (m : ℕ). m < suc n) (sym (ap (λ (r : Table × Table). length r.0) eq)) fewer,
          subst (All (λ x. is_free locked now x ≡ false)) (sym (ap (λ (r : Table × Table). r.1) eq))
              (other, none_left),
        )
      ]
]

abbrev pub has_id : String → Table → Bool
has_id i = any (λ e. e.id == i)

-- The ids of the table are different.
abbrev pub IsKeyed : Table → Type 0
IsKeyed [] = Unit
IsKeyed (e ∷ table) = (has_id e.id table ≡ false) × IsKeyed table

claimed_has_id :
    (locked : String → Bool) (now n : ℕ) (table : Table) (i : String)
    → has_id i table ≡ false
    → (has_id i (claim locked now n table).0 ≡ false)
      × (has_id i (claim locked now n table).1 ≡ false)
unfolding claim
claimed_has_id locked now zero table i h = (refl, h)
claimed_has_id locked now (suc n) [] i h = (refl, h)
claimed_has_id locked now (suc n) (e ∷ table) i h = elim (Bool-cases (is_free locked now e)) [
  | inl free ↦ rw free (
      let (a, b) = claimed_has_id locked now n table i (ground arith) in
      (ground arith, ground arith))
  | inr other ↦ rw other (
      let (a, b) = claimed_has_id locked now (suc n) table i (ground arith) in
      (ground arith, ground arith))
]

-- Two claims do not take the same event: as long as the first one's lease lasts, a second claim, which
-- may be of another process, takes none of its events.
pub claim_disjoint :
    (locked locked' : String → Bool) (now now' n n' : ℕ) (table : Table) (i : String)
    → IsKeyed table
    → now' < now + publish_lease_ms
    → has_id i (claim locked now n table).0 ≡ true
    → has_id i (claim locked' now' n' (claim locked now n table).1).0 ≡ false
unfolding claim
claim_disjoint locked locked' now now' n zero table i keyed soon h = refl
claim_disjoint locked locked' now now' zero (suc n') table i keyed soon h = ground arith
claim_disjoint locked locked' now now' (suc n) (suc n') [] i keyed soon h = ground arith
claim_disjoint locked locked' now now' (suc n) (suc n') (e ∷ table) i keyed soon h =
    let here = eq_iff e.id i in
    elim (Bool-cases (is_free locked now e)) [
      | inl free ↦
          let first = claim locked now n table in
          let eq = take locked now n e table free in
          let spent : is_free locked' now' (leased now e) ≡ false = ground arith in
          let eq' = pass locked' now' n' (leased now e) first.1 spent in
          let same =
            ap (λ (r : Table × Table). has_id i (claim locked' now' (suc n') r.1).0) eq
            ∙ ap (λ (r : Table × Table). has_id i r.0) eq' in
          same ∙ elim (Bool-cases (e.id == i)) [
            | inl hit ↦
                let gone : has_id i table ≡ false =
                  subst (λ k. has_id k table ≡ false) (here.0 hit) keyed.0 in
                (claimed_has_id locked' now' (suc n') first.1 i
                  (claimed_has_id locked now n table i gone).1).0
            | inr other ↦
                let h' = sym (ap (λ (r : Table × Table). has_id i r.0) eq) ∙ h in
                claim_disjoint locked locked' now now' n (suc n') table i keyed.1 soon
                  (ground arith)
          ]
      | inr held ↦
          let first = claim locked now (suc n) table in
          let eq = pass locked now n e table held in
          let h' : has_id i first.0 ≡ true =
            sym (ap (λ (r : Table × Table). has_id i r.0) eq) ∙ h in
          let miss : (e.id == i) ≡ false = elim (Bool-cases (e.id == i)) [
            | inr other ↦ other
            | inl hit ↦
                let gone : has_id i table ≡ false =
                  subst (λ k. has_id k table ≡ false) (here.0 hit) keyed.0 in
                let not_claimed = claimed_has_id locked now (suc n) table i gone in ground arith
          ] in
          ap (λ (r : Table × Table). has_id i (claim locked' now' (suc n') r.1).0) eq
          ∙ elim (Bool-cases (is_free locked' now' e)) [
            | inl free ↦
                let rest =
                  claim_disjoint locked locked' now now' (suc n) n' table i keyed.1 soon h' in
                ap (λ (r : Table × Table). has_id i r.0) (take locked' now' n' e first.1 free)
                ∙ ground arith
            | inr other ↦
                let rest =
                  claim_disjoint locked locked' now now' (suc n) (suc n') table i keyed.1 soon h' in
                ap (λ (r : Table × Table). has_id i r.0) (pass locked' now' n' e first.1 other)
                ∙ rest
          ]
    ]
