-- ===== src/Schema/Types.antt =====
-- The errors and the texts of src/modules/applications/schema-validator.ts.
use manbaa_backend.Base.{ℕ, String, Bool, true, false, Option, none, some, List, [], ◌∷◌, any, ◌==◌}
use manbaa_backend.Json.{Json, arr, obj, Fields, end}

-- A step of a path: `.key`, `.0` of an array that is read as an object, and `[0]`.
pub data Segment : Type 0 where
  key : String → Segment
  entry at : ℕ → Segment

-- From the root, the last step first.
abbrev pub Trail : Type 0
Trail = List Segment

pub data Code : Type 0 where
  schema_type prohibited_key schema_version_required schema_version_unsupported metadata_missing :
      Code
  pages_type pages_max_exceeded page_type page_id_required page_id_duplicate page_name_required :
      Code
  page_route_required page_route_format page_route_duplicate root_required nodes_max_exceeded : Code
  nesting_depth node_type node_id_required node_id_duplicate node_type_required props_type : Code
  styles_type children_type executable_content sql_content secret_content : Code

-- `ValidationError`; every severity is `error`, and the message follows from the code.
pub record ValidationError : Type 0 where
  pub code : Code
  pub path : Trail

-- The three lists of regular expressions, each as the test whether one of them matches.
pub record Patterns : Type 0 where
  pub executable : String → Bool
  pub sql : String → Bool
  pub secret : String → Bool

abbrev pub prohibited : String → Bool
prohibited k = any (λ x. x == k) ("prototype" ∷ "constructor" ∷ [])

-- `if (b) errors.push(err(path, …, code))`
abbrev pub error_if : Bool → Code → Trail → List ValidationError
error_if true code path = record { code = code; path = path } ∷ []
error_if false code path = []

-- What passes `value && typeof value === 'object'`, with its named properties: an array has none that
-- is read here, and its own keys are indices.
abbrev pub object_of : Option Json → Option Fields
object_of (some (obj fs)) = some fs
object_of (some (arr xs)) = some end
object_of _ = none
