-- ===== src/Source/Payload.antt =====
-- `assertPayload` of src/modules/sources/source-lifecycle.service.ts.
use manbaa_backend.Base.{
  String, Bool, false, not, ◌&&◌, ◌||◌, Option, none, some, List, [], ◌∷◌, ◌==◌, any,
}
use manbaa_backend.Exec.{Result, ok, err, error}
use manbaa_backend.Exec.Check.{◌>>◌, ensure}
use manbaa_backend.Json.{Json, null, str, obj, Fields, get, keys, is_count, is_str}

abbrev pub allowed_fields : List String
allowed_fields =
    "sourceId" ∷ "sourceVersionId" ∷ "internalToken" ∷ "projectId" ∷ "actor" ∷ "chunkCount"
    ∷ "indexedCount" ∷ "deliveryCount" ∷ "errorCode" ∷ "errorMessage" ∷ []

-- `set.has(key)`
abbrev pub has : List String → String → Bool
has set key = any (λ x. x == key) set

-- `Object.keys(value).some((field) => !set.has(field))`
abbrev pub has_other_keys : List String → Fields → Bool
has_other_keys set fs = any (λ k. not (has set k)) (keys fs)

-- The `uuid` package's `validate`, which is false of anything but a text.
module _ (is_uuid : String → Bool) where
  unfoldable pub assert_uuid : Option Json → String → Result String
  assert_uuid (some (str s)) message = do ensure (is_uuid s) (error message); ok s
  assert_uuid _ message = err (error message)

  -- `projectId` may be absent or null.
  assert_project : Option Json → Result (Unit {0})
  unfolding assert_uuid
  assert_project none = ok tt
  assert_project (some null) = ok tt
  assert_project value = do assert_uuid value "Source lifecycle projectId must be a UUID"; ok tt

abbrev is_actor_type : Option Json → Bool
is_actor_type (some (str s)) = s == "user" || s == "service"
is_actor_type _ = false

abbrev is_filled : Option Json → Bool
is_filled (some (str s)) = not (s == "")
is_filled _ = false

assert_actor : Option Json → Result (Unit {0})
assert_actor none = ok tt
assert_actor (some (obj fs)) =
    ensure
      (is_actor_type (get "type" fs)
        && (is_filled (get "id" fs) && not (has_other_keys ("type" ∷ "id" ∷ []) fs)))
      (error "Source lifecycle actor is invalid")
assert_actor _ = err (error "Source lifecycle actor is invalid")

assert_optional : (Json → Bool) → Option Json → String → Result (Unit {0})
assert_optional test none message = ok tt
assert_optional test (some value) message = ensure (test value) (error message)

unfoldable pub assert_payload : (String → Bool) → Fields → Result (Unit {0})
unfolding assert_project assert_actor assert_optional
assert_payload is_uuid payload = do
  ensure (not (has_other_keys allowed_fields payload))
      (error "Source lifecycle payload contains an unknown field")
  ensure (is_filled (get "internalToken" payload))
      (error "Source lifecycle event requires internalToken")
  assert_project is_uuid (get "projectId" payload)
  assert_actor (get "actor" payload)
  assert_optional is_count (get "chunkCount" payload)
      "Source lifecycle chunkCount must be a non-negative integer"
  assert_optional is_count (get "indexedCount" payload)
      "Source lifecycle indexedCount must be a non-negative integer"
  assert_optional is_count (get "deliveryCount" payload)
      "Source lifecycle deliveryCount must be a non-negative integer"
  assert_optional is_str (get "errorCode" payload) "Source lifecycle errorCode must be a string"
  assert_optional is_str (get "errorMessage" payload)
      "Source lifecycle errorMessage must be a string"
