-- ===== src/Exec/Check.antt =====
-- Chains of checks that only read: `Result` with a bind of its own.
use manbaa_backend.Base.{Bool, true, false, Option, none, some}
use manbaa_backend.Exec.{Failure, Result, ok, err}

module _ {ℓ κ} {A : Type ℓ} {B : Type κ} where
  infixl 10 ◌>>=◌ ◌>>◌
  -- The rest of the checks, unless one has failed.
  abbrev pub ◌>>=◌ : Result A → (A → Result B) → Result B
  err failure >>= rest = err failure
  ok value >>= rest = rest value

  abbrev pub ◌>>◌ : Result A → Result B → Result B
  first >> next = first >>= (λ done. next)

-- `if (!b) throw e`
abbrev pub ensure : Bool → Failure → Result (Unit {0})
ensure true failure = ok tt
ensure false failure = err failure

abbrev pub present {ℓ} : {A : Type ℓ} → Option A → Failure → Result A
present none failure = err failure
present (some value) failure = ok value
