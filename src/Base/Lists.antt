-- ===== src/Base/Lists.antt =====
-- Lists measured by native numbers, and the array methods `some`, `every`, `find`, `filter`.
use Prim.Native.Nat.{ℕ, suc, ◌+◌}
use mathlib.Core.Path.{◌≡◌, refl, ap, subst}
use mathlib.Core.Logic.{◌⊎◌, inl, inr}
use mathlib.Core.Bool.{Bool, true, false, ◌||◌}
use mathlib.Core.Option.{Option, none, some}
use mathlib.Core.List.{List, [], ◌∷◌, ◌++◌, map}
use native.Mathlib.Omega.{arith}
use manbaa_backend.Base.Tests.{Bool-cases, if◌then◌else◌}

module _ {ℓ} {A : Type ℓ} where
  abbrev pub length : List A → ℕ
  length [] = 0
  length (x ∷ xs) = suc (length xs)

  abbrev pub any : (A → Bool) → List A → Bool
  any p [] = false
  any p (x ∷ xs) = p x || any p xs

  abbrev pub find : (A → Bool) → List A → Option A
  find p [] = none
  find p (x ∷ xs) = let rest = find p xs in if p x then some x else rest

  abbrev pub select : (A → Bool) → List A → List A
  select p [] = []
  select p (x ∷ xs) = let rest = select p xs in if p x then x ∷ rest else rest

  pub length-append : (xs ys : List A) → length (xs ++ ys) ≡ length xs + length ys
  length-append [] ys = omega arith
  length-append (x ∷ xs) ys = omega (arith, length-append xs ys)

module _ {ℓ κ} {A : Type ℓ} where
  abbrev pub All : (A → Type κ) → List A → Type κ
  All P [] = Unit
  All P (x ∷ xs) = P x × All P xs

  pub find-All :
      (P : A → Type κ) (q : A → Bool) (xs : List A) (r : A)
      → All P xs
      → find q xs ≡ some r
      → P r × (q r ≡ true)
  find-All P q [] r h e = cc
  find-All P q (x ∷ xs) r h e = elim (Bool-cases (q x)) [
    | inl yes_x ↦ let same : x ≡ r = cc in (subst P same h.0, subst (λ y. q y ≡ true) same yes_x)
    | inr no_x ↦ find-All P q xs r h.1 (rw no_x at e)
  ]

  pub any-All :
      (P : A → Type κ) (q : A → Bool) (xs : List A)
      → All P xs
      → any q xs ≡ true
      → (r : A) × P r × (q r ≡ true)
  any-All P q [] h e = cc
  any-All P q (x ∷ xs) h e = elim (Bool-cases (q x)) [
    | inl yes_x ↦ (x, h.0, yes_x)
    | inr no_x ↦ any-All P q xs h.1 (rw no_x at e)
  ]

module _ {ℓ} {A : Type ℓ} where
  pub any_of_find :
      (p q : A → Bool) (xs : List A) (r : A) → find p xs ≡ some r → q r ≡ true → any q xs ≡ true
  any_of_find p q [] r e h = cc
  any_of_find p q (x ∷ xs) r e h = elim (Bool-cases (p x)) [
    | inl yes_x ↦ let same : x ≡ r = cc in rw (same, h)
    | inr no_x ↦ ground (arith, any_of_find p q xs r (rw no_x at e) h)
  ]

module _ {ℓ κ μ} {A : Type ℓ} {P : A → Type κ} {Q : A → Type μ} where
  pub All-mono : (f : (x : A) → P x → Q x) (xs : List A) → All P xs → All Q xs
  All-mono f [] h = tt
  All-mono f (x ∷ xs) h = (f x h.0, All-mono f xs h.1)

-- The value stands in the list.
abbrev pub Has : {A : Type 0} → A → List A → Type 0
Has a [] = ⊥
Has a (x ∷ xs) = (x ≡ a) ⊎ Has a xs

pub Has-All : {A : Type 0} (P : A → Type 0) (xs : List A) (a : A) → All P xs → Has a xs → P a
Has-All P [] a all h = absurd h
Has-All P (x ∷ xs) a all (inl same) = subst P same all.0
Has-All P (x ∷ xs) a all (inr h) = Has-All P xs a all.1 h

pub Has-map : {A B : Type 0} (f : A → B) (xs : List A) (a : A) → Has a xs → Has (f a) (map f xs)
Has-map f [] a h = absurd h
Has-map f (x ∷ xs) a (inl same) = inl (ap f same)
Has-map f (x ∷ xs) a (inr h) = inr (Has-map f xs a h)

pub map-Has :
    {A B : Type 0} (f : A → B) (xs : List A) (b : B)
    → Has b (map f xs)
    → (a : A) × Has a xs × (f a ≡ b)
map-Has f [] b h = absurd h
map-Has f (x ∷ xs) b (inl same) = (x, inl refl, same)
map-Has f (x ∷ xs) b (inr h) = let (a, there, same) = map-Has f xs b h in (a, inr there, same)

pub find-none :
    {A : Type 0} (p : A → Bool) (xs : List A) (a : A) → find p xs ≡ none → Has a xs → p a ≡ false
find-none p [] a h there = absurd there
find-none p (x ∷ xs) a h there = elim (Bool-cases (p x)) [
  | inl yes_x ↦ cc
  | inr no_x ↦ elim there [
    | inl same ↦ subst (λ y. p y ≡ false) same no_x
    | inr rest ↦ find-none p xs a (rw no_x at h) rest
  ]
]

pub Has-append : {A : Type 0} (xs ys : List A) (a : A) → Has a (xs ++ ys) → Has a xs ⊎ Has a ys
Has-append [] ys a h = inr h
Has-append (x ∷ xs) ys a (inl same) = inl (inl same)
Has-append (x ∷ xs) ys a (inr h) = elim (Has-append xs ys a h) [
  | inl l ↦ inl (inr l)
  | inr r ↦ inr r
]

pub select-Has :
    {A : Type 0} (p : A → Bool) (xs : List A) (a : A)
    → Has a (select p xs)
    → Has a xs × (p a ≡ true)
select-Has p [] a h = absurd h
select-Has p (x ∷ xs) a h = elim (Bool-cases (p x)) [
  | inl yes_x ↦
      let here : (x ≡ a) ⊎ Has a (select p xs) = rw yes_x at h in
      elim here [
        | inl same ↦ (inl same, subst (λ y. p y ≡ true) same yes_x)
        | inr rest ↦ let (there, fits) = select-Has p xs a rest in (inr there, fits)
      ]
  | inr no_x ↦ let (there, fits) = select-Has p xs a (rw no_x at h) in (inr there, fits)
]

pub Has-select :
    {A : Type 0} (p : A → Bool) (xs : List A) (a : A) → Has a xs → p a ≡ true → Has a (select p xs)
Has-select p [] a h fits = absurd h
Has-select p (x ∷ xs) a (inl same) fits =
    let yes_x : p x ≡ true = rw same fits in rw yes_x (inl same)
Has-select p (x ∷ xs) a (inr h) fits = elim (Bool-cases (p x)) [
  | inl yes_x ↦ rw yes_x (inr (Has-select p xs a h fits))
  | inr no_x ↦ rw no_x (Has-select p xs a h fits)
]

pub find-Has :
    {A : Type 0} (p : A → Bool) (xs : List A) (a : A) → find p xs ≡ some a → Has a xs × (p a ≡ true)
find-Has p [] a h = cc
find-Has p (x ∷ xs) a h = elim (Bool-cases (p x)) [
  | inl yes_x ↦ let same : x ≡ a = cc in (inl same, subst (λ y. p y ≡ true) same yes_x)
  | inr no_x ↦ let (there, fits) = find-Has p xs a (rw no_x at h) in (inr there, fits)
]
