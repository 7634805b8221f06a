-- ===== src/Schema/Scan.antt =====
-- `scanForDangerousValues` of src/modules/applications/schema-validator.ts. A value that was parsed
-- has no cycles, so `visited` never stops the scan.
use manbaa_backend.Base.{ℕ, suc, String, List, [], ◌∷◌, ◌++◌}
use manbaa_backend.Json.{Json, str, arr, obj, Items, nil, item, Fields, end, field}
use manbaa_backend.Schema.Types.{
  Trail, key, entry, at, prohibited_key, executable_content, sql_content, secret_content,
  ValidationError, Patterns, prohibited, error_if,
}

module _ (patterns : Patterns) where
  -- A text in an array.
  abbrev pub scan_element_text : String → Trail → List ValidationError
  scan_element_text t path =
      error_if (patterns.executable t) executable_content path
      ++ error_if (patterns.sql t) sql_content path

  -- A text that is the value of a property.
  abbrev pub scan_text : String → Trail → List ValidationError
  scan_text t path = scan_element_text t path ++ error_if (patterns.secret t) secret_content path

  unfoldable mutual
    -- The value of a property.
    pub scan_value : Json → Trail → List ValidationError
    scan_value (str t) path = scan_text t path
    scan_value (arr xs) path = scan_elements xs 0 path
    scan_value (obj fs) path = scan_fields fs path
    scan_value _ path = []

    -- An element of an array.
    pub scan_element : Json → Trail → List ValidationError
    scan_element (str t) path = scan_element_text t path
    scan_element (arr xs) path = scan_entries xs 0 path
    scan_element (obj fs) path = scan_fields fs path
    scan_element _ path = []

    pub scan_elements : Items → ℕ → Trail → List ValidationError
    scan_elements nil i path = []
    scan_elements (item v xs) i path = scan_element v (at i ∷ path) ++ scan_elements xs (suc i) path

    -- `Object.entries` of an array.
    pub scan_entries : Items → ℕ → Trail → List ValidationError
    scan_entries nil i path = []
    scan_entries (item v xs) i path = scan_value v (entry i ∷ path) ++ scan_entries xs (suc i) path

    pub scan_fields : Fields → Trail → List ValidationError
    scan_fields end path = []
    scan_fields (field k v fs) path =
        error_if (prohibited k) prohibited_key (key k ∷ path)
        ++ (scan_value v (key k ∷ path) ++ scan_fields fs path)

  -- `scanForDangerousValues(obj, path, errors)` of an object or an array.
  pub scan_for_dangerous_values : Json → Trail → List ValidationError
  scan_for_dangerous_values (obj fs) path = scan_fields fs path
  scan_for_dangerous_values (arr xs) path = scan_entries xs 0 path
  scan_for_dangerous_values _ path = []
