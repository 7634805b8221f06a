-- ===== src/Json/Equality.antt =====
-- Values compared part by part and field by field in their order, as `JSON.stringify` writes them.
use manbaa_backend.Base.{◌≡◌, refl, Bool, true, false, ◌&&◌, ◌==◌, eqb, eq_refl, arith}
use manbaa_backend.Json.{
  Number, whole, minus, fraction, nan, Json, null, bool, num, str, arr, obj, Items, nil, item,
  Fields, end, field,
}

abbrev same_number : Number → Number → Bool
same_number (whole m) (whole n) = eqb m n
same_number (minus m) (minus n) = eqb m n
same_number fraction fraction = true
same_number nan nan = true
same_number _ _ = false

abbrev same_bool : Bool → Bool → Bool
same_bool true b = b
same_bool false true = false
same_bool false false = true

mutual
  pub same : Json → Json → Bool
  same null null = true
  same (bool a) (bool b) = same_bool a b
  same (num a) (num b) = same_number a b
  same (str a) (str b) = a == b
  same (arr a) (arr b) = same_items a b
  same (obj a) (obj b) = same_fields a b
  same _ _ = false

  same_items : Items → Items → Bool
  same_items nil nil = true
  same_items (item a xs) (item b ys) = same a b && same_items xs ys
  same_items _ _ = false

  same_fields : Fields → Fields → Bool
  same_fields end end = true
  same_fields (field k a xs) (field l b ys) = k == l && (same a b && same_fields xs ys)
  same_fields _ _ = false

same_number_self : (n : Number) → same_number n n ≡ true
same_number_self (whole m) = ground arith
same_number_self (minus m) = ground arith
same_number_self fraction = refl
same_number_self nan = refl

same_bool_self : (b : Bool) → same_bool b b ≡ true
same_bool_self true = refl
same_bool_self false = refl

mutual
  unfolding same same_items same_fields

  pub same_self : (j : Json) → same j j ≡ true
  same_self null = refl
  same_self (bool b) = same_bool_self b
  same_self (num n) = same_number_self n
  same_self (str s) = eq_refl s
  same_self (arr xs) = same_items_self xs
  same_self (obj fs) = same_fields_self fs

  same_items_self : (xs : Items) → same_items xs xs ≡ true
  same_items_self nil = refl
  same_items_self (item x xs) = ground (arith, same_self x, same_items_self xs)

  same_fields_self : (fs : Fields) → same_fields fs fs ≡ true
  same_fields_self end = refl
  same_fields_self (field k x xs) = ground (arith, eq_refl k, same_self x, same_fields_self xs)
