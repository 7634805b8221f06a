-- ===== src/Json.antt =====
-- Values of JavaScript as they come out of `JSON.parse`, and the tests that the sources make of them.
pub mod Equality
use manbaa_backend.Base.{
  ℕ, String, Bool, true, false, not, Option, none, some, List, [], ◌∷◌, ◌-◌, ◌^◌, ◌==◌, leb, eqb,
  if◌then◌else◌,
}

-- `minus n` is -(n + 1).
pub data Number : Type 0 where
  whole minus : ℕ → Number
  fraction nan : Number

mutual
  pub data Json : Type 0 where
    null : Json
    bool : Bool → Json
    num : Number → Json
    str : String → Json
    arr : Items → Json
    obj : Fields → Json

  pub data Items : Type 0 where
    nil : Items
    item : Json → Items → Items

  -- The own properties of an object, in their order.
  pub data Fields : Type 0 where
    end : Fields
    field : String → Json → Fields → Fields

-- `object[key]`; `none` is `undefined`.
abbrev pub get : String → Fields → Option Json
get key end = none
get key (field k v fs) = let rest = get key fs in if k == key then some v else rest

-- `Object.keys(object)`
abbrev pub keys : Fields → List String
keys end = []
keys (field k v fs) = k ∷ keys fs

-- `!!value`
abbrev pub truthy : Json → Bool
truthy null = false
truthy (bool b) = b
truthy (num (whole n)) = not (eqb n 0)
truthy (num nan) = false
truthy (num _) = true
truthy (str s) = not (s == "")
truthy (arr xs) = true
truthy (obj fs) = true

-- A text that is not empty.
abbrev pub text : Option Json → Option String
text (some (str s)) = if s == "" then none else some s
text _ = none

-- `Number.isSafeInteger(value) && value >= 0`
abbrev pub is_count : Json → Bool
is_count (num (whole n)) = leb n (2 ^ 53 - 1)
is_count _ = false

abbrev pub is_str : Json → Bool
is_str (str s) = true
is_str _ = false
