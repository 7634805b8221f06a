-- ===== src/Source/Lifecycle/Secrets.antt =====
-- What of an event's payload reaches the clients.
use manbaa_backend.Base.{
  String, ◌≡◌, Bool, true, false, inl, inr, Bool-cases, none, some, List, arith, eq_iff, ◌==◌,
  if◌then◌else◌,
}
use manbaa_backend.Exec.{ok}
use manbaa_backend.Json.{Json, Fields, end, field, get}
use manbaa_backend.Source.Payload.{allowed_fields, has, has_other_keys, assert_payload}
use manbaa_backend.Source.Lifecycle.{safe_payload}

-- The payload that is sent on has every property but the internal token, with its value.
pub get-safe_payload :
    (key : String) (fs : Fields)
    → get key (safe_payload fs) ≡ (if key == "internalToken" then none else get key fs)
unfolding safe_payload
get-safe_payload key end = ground arith
get-safe_payload key (field k v fs) = ground (
  arith,
  get-safe_payload key fs,
  eq_iff k "internalToken",
  eq_iff key "internalToken",
  eq_iff k key,
)

no_other_keys :
    (set : List String) (fs : Fields) (key : String) (v : Json)
    → has_other_keys set fs ≡ false
    → get key fs ≡ some v
    → has set key ≡ true
no_other_keys set end key v h there = cc
no_other_keys set (field k w fs) key v h there =
    ground (arith, no_other_keys set fs key v, eq_iff k key)

known_fields :
    (is_uuid : String → Bool) (payload : Fields)
    → assert_payload is_uuid payload ≡ ok tt
    → has_other_keys allowed_fields payload ≡ false
unfolding assert_payload
known_fields is_uuid payload h = elim (Bool-cases (has_other_keys allowed_fields payload)) [
  | inl other ↦ ground arith
  | inr known ↦ known
]

-- Of a payload that passes the checks, every property that is sent on is one of the known fields, and
-- is not the token.
pub sent_fields :
    (is_uuid : String → Bool) (payload : Fields) (key : String) (v : Json)
    → assert_payload is_uuid payload ≡ ok tt
    → get key (safe_payload payload) ≡ some v
    → (has allowed_fields key ≡ true) × ((key == "internalToken") ≡ false)
sent_fields is_uuid payload key v h there =
    let known = known_fields is_uuid payload h in
    let sent = get-safe_payload key payload in
    elim (Bool-cases (key == "internalToken")) [
      | inl secret ↦ ground arith
      | inr other ↦ (no_other_keys allowed_fields payload key v known (ground arith), other)
    ]
