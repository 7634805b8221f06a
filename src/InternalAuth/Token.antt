-- ===== src/InternalAuth/Token.antt =====
-- src/core/internal-auth/internal-service-token.service.ts, with `markOnce` of
-- src/infra/redis/redis.service.ts. Times are milliseconds, and `exp` is in seconds.
use manbaa_backend.Base.{
  ℕ, ◌+◌, ◌-◌, ◌*◌, ◌/◌, ◌<◌, max, String, ◌≡◌, Bool, true, false, Option, none, some, List, [],
  ◌∷◌, any, ◌==◌, if◌then◌else◌,
}
use manbaa_backend.Exec.{Result, ok, err, unauthorized, Exec, ◌>>=◌, ◌>>◌, pure, guard, lift}

pub record InternalServiceClaims : Type 0 where
  pub iss : String
  pub sub : String
  pub aud : String
  pub iat : ℕ
  pub exp : ℕ
  pub jti : String
  pub service : String
  pub organization_id : String
  pub workspace_id : Option String
  pub task_id : Option String
  pub correlation_id : String
  pub allowed_actions : List String

pub record CreateInternalTokenInput : Type 0 where
  pub service : String
  pub organization_id : String
  pub workspace_id : Option String
  pub task_id : Option String
  pub correlation_id : String
  pub allowed_actions : List String

-- What `signAsync` is asked for: the claims without times, and `expiresIn` in seconds.
pub record SignRequest : Type 0 where
  pub jti : String
  pub input : CreateInternalTokenInput
  pub secret : String
  pub issuer : String
  pub subject : String
  pub audience : String
  pub expires_in : ℕ

-- `JwtService`, another package's. A token that is expired is not verified, and the claims are those that
-- stand in the token, whatever the secret and the time.
pub record Jwt : Type 0 where
  pub sign : SignRequest → String
  -- secret, issuer, audience, the time, the token
  pub verify : String → String → String → ℕ → String → Option InternalServiceClaims
  pub verify_unexpired :
      (secret issuer audience token : String) (now : ℕ) (c : InternalServiceClaims)
      → verify secret issuer audience now token ≡ some c
      → now < c.exp * 1000
  pub verify_payload :
      (secret secret' issuer audience audience' token : String) (now later : ℕ)
      (c c' : InternalServiceClaims)
      → verify secret issuer audience now token ≡ some c
      → verify secret' issuer audience' later token ≡ some c'
      → c ≡ c'

-- Redis, another program: `SET key 1 NX EX ttl` answers whether it set the key, which then is there until
-- its time is over.
pub record Marks : Type 1 where
  pub Store : Type 0
  pub is_set : String → ℕ → Store → Bool
  -- key, seconds, the time
  pub set_nx : String → ℕ → ℕ → Store → Bool × Store
  pub set_nx-set :
      (key : String) (ttl now : ℕ) (s : Store)
      → is_set key now s ≡ true
      → (set_nx key ttl now s).0 ≡ false
  pub set_nx-lasts :
      (key : String) (ttl now later : ℕ) (s : Store)
      → (set_nx key ttl now s).0 ≡ true
      → later < now + ttl * 1000
      → is_set key later (set_nx key ttl now s).1 ≡ true
  pub set_nx-keeps :
      (key other : String) (ttl now later : ℕ) (s : Store)
      → is_set key later s ≡ true
      → is_set key later (set_nx other ttl now s).1 ≡ true

pub record Config : Type 0 where
  pub issuer : String
  pub audience : String
  pub current : String
  pub previous : Option String
  pub services : List String
  pub token_ttl_seconds : ℕ

-- The package, the database and `RedisService.key`, which puts a prefix before its parts.
pub record Env : Type 1 where
  pub jwt : Jwt
  pub marks : Marks
  pub key : String → String → String

abbrev pub has_service : Config → String → Bool
has_service config service = any (λ s. s == service) config.services

-- `[current, previous].filter(Boolean)`
abbrev pub nonempty : List String → List String
nonempty [] = []
nonempty (s ∷ ss) = let rest = nonempty ss in if s == "" then rest else s ∷ rest

abbrev pub previous_of : Option String → List String
previous_of none = []
previous_of (some p) = p ∷ []

abbrev pub secrets : Config → List String
secrets config = nonempty (config.current ∷ previous_of config.previous)

module _ (env : Env) (config : Config) where
  unfoldable pub create : String → CreateInternalTokenInput → Result String
  create jti input =
      if has_service config input.service
      then ok (
          env.jwt.sign record {
            jti = jti;
            input = input;
            secret = config.current;
            issuer = config.issuer;
            subject = "nestjs-platform";
            audience = config.audience;
            expires_in = config.token_ttl_seconds;
          })
      else err (unauthorized "Internal service not allowed")

  -- The first secret that verifies the token.
  abbrev pub try_secrets : List String → String → String → ℕ → Option InternalServiceClaims
  try_secrets [] token audience now = none
  try_secrets (secret ∷ rest) token audience now =
      let others = try_secrets rest token audience now in
      elim (env.jwt.verify secret config.issuer audience now token) [
        | none ↦ others
        | some claims ↦ some claims
      ]

  abbrev pub allowed : Option InternalServiceClaims → Result InternalServiceClaims
  allowed none = err (unauthorized "Invalid internal service token")
  allowed (some claims) =
      if has_service config claims.service
      then ok claims
      else err (unauthorized "Invalid internal service token")

  unfoldable pub verify : String → String → ℕ → Result InternalServiceClaims
  verify token audience now = allowed (try_secrets (secrets config) token audience now)

  unfoldable pub mark_once : String → String → ℕ → ℕ → Exec env.marks.Store Bool
  mark_once name id ttl_seconds now s =
      let (answer, s') = env.marks.set_nx (env.key name id) ttl_seconds now s in (ok answer, s')

  unfoldable pub validate : String → String → ℕ → Exec env.marks.Store InternalServiceClaims
  validate token audience now = do
    claims ← lift (verify token audience now)
    let ttl = max 1 (claims.exp - now / 1000)
    fresh ← mark_once "internal-auth" claims.jti ttl now
    guard fresh (unauthorized "Internal token replay detected")
    pure claims
