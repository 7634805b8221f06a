-- ===== src/InternalAuth/Samples.antt =====
-- A concrete `Jwt`, that knows one token, which lasts until 300 s, and concrete `Marks`, a list of the keys
-- with the ends of their times: the laws can hold.
use manbaa_backend.Base.{
  ℕ, ◌<◌, subst, ◌+◌, ◌*◌, String, ◌≡◌, Bool, true, false, ◌&&◌, ◌||◌, Option, none, some, List, [],
  ◌∷◌, ◌==◌, ltb, if◌then◌else◌, arith, eq_iff, inl, inr, Bool-cases,
}
use manbaa_backend.InternalAuth.Token.{InternalServiceClaims, Jwt, Marks, Env, Config}

abbrev pub claims : InternalServiceClaims
claims = record {
  iss = "platform";
  sub = "nestjs-platform";
  aud = "workers";
  iat = 0;
  exp = 300;
  jti = "j1";
  service = "ai-worker";
  organization_id = "o1";
  workspace_id = some "w1";
  task_id = some "t1";
  correlation_id = "x1";
  allowed_actions = "ai.task.completed" ∷ "ai.task.started" ∷ [];
}

abbrev pub verify_one : String → String → String → ℕ → String → Option InternalServiceClaims
verify_one secret issuer audience now token =
    if ltb now 300000 then (if token == "t" then some claims else none) else none

pub verify_one_unexpired :
    (secret issuer audience token : String) (now : ℕ) (c : InternalServiceClaims)
    → verify_one secret issuer audience now token ≡ some c
    → now < c.exp * 1000
verify_one_unexpired secret issuer audience token now c h = elim (Bool-cases (ltb now 300000)) [
  | inr late ↦ absurd (ground (arith, h))
  | inl fine ↦ elim (Bool-cases (token == "t")) [
    | inr other ↦ absurd (ground (arith, h))
    | inl same_token ↦
        let same : claims ≡ c = ground (arith, h) in
        subst (λ (x : InternalServiceClaims). now < x.exp * 1000) same (ground (arith, fine))
  ]
]

abbrev pub jwt : Jwt
jwt = record {
  sign = λ request. "t";
  verify = verify_one;
  verify_unexpired = verify_one_unexpired;
  verify_payload = λ a b i u v token now later c c' h h'. ground (arith, h, h');
}

abbrev pub is_set : String → ℕ → List (String × ℕ) → Bool
is_set key t [] = false
is_set key t ((k, end) ∷ s) = (k == key && ltb t end) || is_set key t s

abbrev pub set_nx : String → ℕ → ℕ → List (String × ℕ) → Bool × List (String × ℕ)
set_nx key ttl now s = if is_set key now s then (false, s) else (true, (key, now + ttl * 1000) ∷ s)

abbrev pub marks : Marks
marks = record {
  Store = List (String × ℕ);
  is_set = is_set;
  set_nx = set_nx;
  set_nx-set = λ key ttl now s h. ground (arith, h);
  set_nx-lasts = λ key ttl now later s h before. ground (arith, h, before, eq_iff key key);
  set_nx-keeps = λ key other ttl now later s h. ground (arith, h);
}

abbrev pub env : Env
env = record { jwt = jwt; marks = marks; key = λ name id. id }

abbrev pub config : Config
config = record {
  issuer = "platform";
  audience = "workers";
  current = "k1";
  previous = none;
  services = "ai-worker" ∷ [];
  token_ttl_seconds = 300;
}
