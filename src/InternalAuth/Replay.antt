-- ===== src/InternalAuth/Replay.antt =====
-- A token is accepted once.
use manbaa_backend.Base.{
  ℕ, ◌+◌, ◌-◌, ◌*◌, ◌/◌, ◌<◌, max, String, ◌≡◌, refl, ap, sym, ◌∙◌, inl, inr, Bool, true, false,
  some, List, [], ◌∷◌, if◌then◌else◌, arith, Bool-cases, Option-cases,
}
use manbaa_backend.Exec.{Result, ok, err, Failure, unauthorized, Result-cases}
use manbaa_backend.InternalAuth.Token.{
  InternalServiceClaims, Env, Config, has_service, secrets, try_secrets, verify, mark_once,
  validate,
}

-- The mark of a token lasts as long as the token.
within : (exp now later : ℕ) → later < exp * 1000 → later < now + max 1 (exp - now / 1000) * 1000
within exp now later h = omega (arith, h)

module _ (env : Env) (config : Config) where
  -- Tokens that were presented, with the audience and the time.
  abbrev pub validate_all : List (String × String × ℕ) → env.marks.Store → env.marks.Store
  validate_all [] s = s
  validate_all ((token, audience, now) ∷ rest) s =
      validate_all rest (validate env config token audience now s).1

  try_secrets_found :
      (ss : List String) (token audience : String) (now : ℕ) (c : InternalServiceClaims)
      → try_secrets env config ss token audience now ≡ some c
      → (secret : String) × (env.jwt.verify secret config.issuer audience now token ≡ some c)
  try_secrets_found [] token audience now c h = cc
  try_secrets_found (secret ∷ ss) token audience now c h =
      elim (Option-cases (env.jwt.verify secret config.issuer audience now token)) [
        | inl bad ↦ try_secrets_found ss token audience now c (rw (bad, try_secrets) at h)
        | inr (c', good) ↦ let same : c' ≡ c = cc in (secret, rw same at good)
      ]

  verify_found :
      (token audience : String) (now : ℕ) (c : InternalServiceClaims)
      → verify env config token audience now ≡ ok c
      → (secret : String) × (env.jwt.verify secret config.issuer audience now token ≡ some c)
  unfolding verify
  verify_found token audience now c h =
      elim (Option-cases (try_secrets env config (secrets config) token audience now)) [
        | inl none_fits ↦ absurd (ground (arith, h))
        | inr (c', found) ↦ elim (Bool-cases (has_service config c'.service)) [
          | inr other ↦ absurd (ground (arith, h))
          | inl known ↦
              let same : c' ≡ c = ground (arith, h) in
              try_secrets_found (secrets config) token audience now c (rw same at found)
        ]
      ]

  -- What `validate` does once the token is verified, by what Redis answers.
  abbrev ttl_of : InternalServiceClaims → ℕ → ℕ
  ttl_of c now = max 1 (c.exp - now / 1000)

  abbrev marked : InternalServiceClaims → ℕ → env.marks.Store → Bool × env.marks.Store
  marked c now s = env.marks.set_nx (env.key "internal-auth" c.jti) (ttl_of c now) now s

  abbrev answer : InternalServiceClaims → Bool → Result InternalServiceClaims
  answer c b = if b then ok c else err (unauthorized "Internal token replay detected")

  verified :
      (token audience : String) (now : ℕ) (c : InternalServiceClaims) (s : env.marks.Store)
      → verify env config token audience now ≡ ok c
      → validate env config token audience now s ≡ (answer c (marked c now s).0, (marked c now s).1)
  unfolding validate mark_once
  verified token audience now c s h = ground (arith, h)

  refused :
      (token audience : String) (now : ℕ) (e : Failure) (s : env.marks.Store)
      → verify env config token audience now ≡ err e
      → validate env config token audience now s ≡ (err e, s)
  unfolding validate
  refused token audience now e s h = rw (h, validate) refl

  keeps :
      (xs : List (String × String × ℕ)) (key : String) (later : ℕ) (s : env.marks.Store)
      → env.marks.is_set key later s ≡ true
      → env.marks.is_set key later (validate_all xs s) ≡ true
  keeps [] key later s h = h
  keeps ((token, audience, now) ∷ xs) key later s h =
      elim (Result-cases (verify env config token audience now)) [
        | inl (c, fine) ↦ keeps xs key later (validate env config token audience now s).1 (
            rw (verified token audience now c s fine) (
              env.marks.set_nx-keeps key (env.key "internal-auth" c.jti) (ttl_of c now) now later s
                h))
        | inr (e, bad) ↦
            keeps xs key later (validate env config token audience now s).1
              (rw (refused token audience now e s bad) h)
      ]

  -- Once a token was accepted it is accepted no more, whatever was presented since, at whatever time and
  -- for whatever audience.
  pub validate_once :
      (token audience audience' : String) (now later : ℕ) (c : InternalServiceClaims)
      (between : List (String × String × ℕ)) (s s' : env.marks.Store)
      → validate env config token audience now s ≡ (ok c, s')
      → (e : Failure) × ((validate env config token audience' later (validate_all between s')).0
          ≡ err e)
  validate_once token audience audience' now later c between s s' accepted =
      let before = validate_all between s' in
      elim (Result-cases (verify env config token audience' later)) [
        | inr (e, bad) ↦ (
          e,
          ap (λ (r : Result InternalServiceClaims × env.marks.Store). r.0)
              (refused token audience' later e before bad),
        )
        | inl (c', fine) ↦ elim (Result-cases (verify env config token audience now)) [
          | inr (e, bad) ↦ absurd (ground (arith, refused token audience now e s bad, accepted))
          | inl (c₁, first) ↦
              let ran = verified token audience now c₁ s first in
              elim (Bool-cases (marked c₁ now s).0) [
                | inr seen ↦ absurd (ground (arith, ran, accepted))
                | inl fresh ↦
                    let (secret, found) = verify_found token audience now c₁ first in
                    let (secret', found') = verify_found token audience' later c' fine in
                    let same : c₁ ≡ c' =
                      env.jwt.verify_payload secret secret' config.issuer audience audience' token
                        now later c₁ c' found found' in
                    let unexpired : later < c'.exp * 1000 =
                      env.jwt.verify_unexpired secret' config.issuer audience' token later c'
                        found' in
                    let left : later < c₁.exp * 1000 = rw same unexpired in
                    let written : (marked c₁ now s).1 ≡ s' =
                      sym (ap (λ (r : Result InternalServiceClaims × env.marks.Store). r.1) ran)
                      ∙ ap (λ (r : Result InternalServiceClaims × env.marks.Store). r.1) accepted in
                    let there : env.marks.is_set (env.key "internal-auth" c₁.jti) later s' ≡ true =
                      rw (sym written) (
                        env.marks.set_nx-lasts (env.key "internal-auth" c₁.jti) (ttl_of c₁ now) now
                          later s fresh (within c₁.exp now later left)) in
                    let kept = keeps between (env.key "internal-auth" c₁.jti) later s' there in
                    let seen : (marked c' later before).0 ≡ false =
                      env.marks.set_nx-set (env.key "internal-auth" c'.jti) (ttl_of c' later) later
                        before (rw same at kept) in
                    (
                      unauthorized "Internal token replay detected",
                      ap (λ (r : Result InternalServiceClaims × env.marks.Store). r.0)
                            (verified token audience' later c' before fine)
                          ∙ rw seen refl,
                    )
              ]
        ]
      ]
