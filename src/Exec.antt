-- ===== src/Exec.antt =====
-- Methods that read and write a state and may throw. The state comes back beside the error too, so
-- that what a method wrote before it threw is visible. The exceptions are those of `@nestjs/common`,
-- each with its fixed text or its code; the values that a message interpolates are left out.
pub mod Check
use manbaa_backend.Base.{
  String, ◌≡◌, refl, ap, ◌⊎◌, inl, inr, Bool, true, false, Option, none, some,
}

pub data Failure : Type 0 where
  bad_request unauthorized forbidden not_found conflict unprocessable unsupported_media :
      String → Failure
  -- `throw new Error(…)` and `throw new TypeError(…)`
  error type_error : String → Failure

pub data Result {ℓ} (A : Type ℓ) : Type ℓ where
  ok : A → Result A
  err : Failure → Result A

abbrev pub Exec {ℓ} : Type ℓ → Type ℓ → Type ℓ
Exec S A = S → Result A × S

module _ {ℓ} {S A B : Type ℓ} where
  abbrev pub proceed : Result A → (A → Exec S B) → Exec S B
  proceed (ok a) f s = f a s
  proceed (err e) f s = (err e, s)

  infixl 10 ◌>>=◌ ◌>>◌
  abbrev pub ◌>>=◌ : Exec S A → (A → Exec S B) → Exec S B
  ◌>>=◌ m f s = let (r, s') = m s in proceed r f s'

  abbrev pub ◌>>◌ : Exec S A → Exec S B → Exec S B
  m >> n = m >>= λ _. n

module _ {ℓ} {S A : Type ℓ} where
  abbrev pub pure : A → Exec S A
  pure a s = (ok a, s)

  abbrev pub raise : Failure → Exec S A
  raise e s = (err e, s)

  abbrev pub gets : (S → A) → Exec S A
  gets f s = (ok (f s), s)

  -- a value that has to be there
  abbrev pub require : Option A → Failure → Exec S A
  require none e s = (err e, s)
  require (some a) e s = (ok a, s)

  abbrev pub lift : Result A → Exec S A
  lift r s = (r, s)

module _ {S : Type 0} where
  abbrev pub modify : (S → S) → Exec S Unit
  modify f s = (ok tt, f s)

  -- `if (!b) throw e`
  abbrev pub guard : Bool → Failure → Exec S Unit
  guard true e s = (ok tt, s)
  guard false e s = (err e, s)

-- `dataSource.transaction(…)`: what was written is undone if it throws.
abbrev pub transaction {ℓ} : {S A : Type ℓ} → Exec S A → Exec S A
transaction m s = let (r, s') = m s in elim r [ ok a ↦ (ok a, s') | err e ↦ (err e, s) ]

pub Result-cases {ℓ} :
    {A : Type ℓ} (r : Result A) → ((a : A) × (r ≡ ok a)) ⊎ ((e : Failure) × (r ≡ err e))
Result-cases (ok a) = inl (a, refl)
Result-cases (err e) = inr (e, refl)

-- A method of a component, run on that part of the state.
abbrev pub zoom : {S T A : Type 0} → (S → T) → (T → S → S) → Exec T A → Exec S A
zoom part put m s = let (r, t) = m (part s) in (r, put t s)

-- What follows a method, once it is known what the method gave.
module _ {ℓ} {S A B : Type ℓ} where
  pub bind_ok :
      (m : Exec S A) (f : A → Exec S B) (s s' : S) (a : A) → m s ≡ (ok a, s') → (m >>= f) s ≡ f a s'
  bind_ok m f s s' a h = ap (λ (x : Result A × S). proceed x.0 f x.1) h

  pub bind_err :
      (m : Exec S A) (f : A → Exec S B) (s s' : S) (e : Failure)
      → m s ≡ (err e, s')
      → (m >>= f) s ≡ (err e, s')
  bind_err m f s s' e h = ap (λ (x : Result A × S). proceed x.0 f x.1) h

-- Every run of a method gives a result or throws.
pub run_cases {ℓ} :
    {S A : Type ℓ} (m : Exec S A) (s : S)
    → ((a : A) × (m s ≡ (ok a, (m s).1))) ⊎ ((e : Failure) × (m s ≡ (err e, (m s).1)))
run_cases m s = elim (Result-cases (m s).0) [
  | inl (a, h) ↦ inl (a, λ i. (h i, (m s).1))
  | inr (e, h) ↦ inr (e, λ i. (h i, (m s).1))
]

-- A method that then gives a value leaves the state that it left.
pub state_then_pure {ℓ} :
    {S A B : Type ℓ} (m : Exec S A) (b : B) (s : S) → ((m >>= λ a. pure b) s).1 ≡ (m s).1
state_then_pure m b s = elim (Result-cases (m s).0) [
  | inl (a, h) ↦ ap (λ r. (proceed r (λ a. pure b) (m s).1).1) h
  | inr (e, h) ↦ ap (λ r. (proceed r (λ a. pure b) (m s).1).1) h
]
