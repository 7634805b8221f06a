-- ===== src/Usage/Totals.antt =====
-- The totals of a workspace by dimension.
use manbaa_backend.Base.{
  ℕ, ◌+◌, ◌≡◌, refl, sym, ◌∙◌, inl, inr, true, false, List, [], ◌∷◌, eqb, if◌then◌else◌, arith,
  Bool-cases,
}
use manbaa_backend.Usage.{UsageDimension, same_dimension, dimension_index, total_of, with_total}

eqb_same : (a b d : ℕ) → eqb a b ≡ true → eqb a d ≡ eqb b d
eqb_same a b d h = ground (arith, h)

same_dimension_same :
    (a b d : UsageDimension) → same_dimension a b ≡ true → same_dimension a d ≡ same_dimension b d
unfolding same_dimension
same_dimension_same a b d h = eqb_same (dimension_index a) (dimension_index b) (dimension_index d) h

pub not_both : false ≡ true → ⊥
not_both h = cc

eqb_sym : (a b : ℕ) → eqb a b ≡ eqb b a
eqb_sym a b = ground arith

same_dimension_sym : (a b : UsageDimension) → same_dimension a b ≡ same_dimension b a
unfolding same_dimension
same_dimension_sym a b = eqb_sym (dimension_index a) (dimension_index b)

pub total_of-with_total :
    (d e : UsageDimension) (n : ℕ) (ts : List (UsageDimension × ℕ))
    → total_of d (with_total e n ts) ≡ (if same_dimension e d then n else total_of d ts)
total_of-with_total d e n [] = refl
total_of-with_total d e n ((x, m) ∷ ts) = elim (Bool-cases (same_dimension x e)) [
  | inl hit ↦
      let same = same_dimension_same x e d hit in
      elim (Bool-cases (same_dimension e d)) [
        | inl yes_d ↦
            let there : same_dimension x d ≡ true = same ∙ yes_d in rw (hit, there, yes_d) refl
        | inr no_d ↦
            let other : same_dimension x d ≡ false = same ∙ no_d in rw (hit, other, no_d) refl
      ]
  | inr miss ↦ elim (Bool-cases (same_dimension x d)) [
    | inl yes_x ↦
        let other : same_dimension e d ≡ false = elim (Bool-cases (same_dimension e d)) [
          | inl yes_d ↦ absurd (
              not_both
                (sym miss ∙ (same_dimension_same x d e yes_x ∙ (same_dimension_sym d e ∙ yes_d))))
          | inr no_d ↦ no_d
        ] in
        rw (miss, yes_x, other) refl
    | inr no_x ↦ rw (miss, no_x) (total_of-with_total d e n ts)
  ]
]

total_of_same :
    (a b : UsageDimension) (ts : List (UsageDimension × ℕ))
    → same_dimension a b ≡ true
    → total_of a ts ≡ total_of b ts
total_of_same a b [] h = refl
total_of_same a b ((x, m) ∷ ts) h =
    let alike : same_dimension x a ≡ same_dimension x b =
      same_dimension_sym x a ∙ (same_dimension_same a b x h ∙ same_dimension_sym b x) in
    rw (alike, total_of_same a b ts h) refl

-- The total of one dimension after what was added to another or the same.
pub total_of_added :
    (d e : UsageDimension) (n : ℕ) (ts : List (UsageDimension × ℕ))
    → total_of d (with_total e (total_of e ts + n) ts)
      ≡ total_of d ts + (if same_dimension e d then n else 0)
total_of_added d e n ts = elim (Bool-cases (same_dimension e d)) [
  | inl yes_d ↦
      total_of-with_total d e (total_of e ts + n) ts ∙ rw (yes_d, total_of_same e d ts yes_d) refl
  | inr no_d ↦ total_of-with_total d e (total_of e ts + n) ts ∙ rw no_d (omega arith)
]
