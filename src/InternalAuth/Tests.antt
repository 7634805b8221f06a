-- ===== src/InternalAuth/Tests.antt =====
-- A token that is presented again, and the theorem at a concrete input.
use manbaa_backend.Base.{◌≡◌, refl, [], ◌∷◌}
use manbaa_backend.Exec.{ok, err, Failure}
use manbaa_backend.InternalAuth.Token.{validate, verify, mark_once}
use manbaa_backend.InternalAuth.Replay.{validate_all, validate_once}
use manbaa_backend.InternalAuth.Samples.{claims, env, config}

accepted_first : validate env config "t" "workers" 100500 [] ≡ (ok claims, ("j1", 300500) ∷ [])
unfolding validate verify mark_once
accepted_first = refl

validate_once_example :
    (e : Failure) × ((validate env config "t" "workers" 200000
        (validate_all env config (("t", "workers", 150000) ∷ []) (("j1", 300500) ∷ []))).0
      ≡ err e)
validate_once_example =
    validate_once env config "t" "workers" "workers" 100500 200000 claims
      (("t", "workers", 150000) ∷ []) [] (("j1", 300500) ∷ []) accepted_first
