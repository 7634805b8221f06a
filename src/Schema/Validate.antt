-- ===== src/Schema/Validate.antt =====
-- `validateApplicationSchema` of src/modules/applications/schema-validator.ts.
pub mod Limits
use package.text.Mathlib.Text.{starts_with}
use manbaa_backend.Base.{
  ℕ, suc, String, not, Option, none, some, List, [], ◌∷◌, ◌++◌, ltb, is_some, ◌==◌, if◌then◌else◌,
}
use manbaa_backend.Json.{Json, str, arr, Items, nil, item, Fields, get, keys, text, truthy}
use manbaa_backend.Schema.Types.{
  Trail, key, at, schema_type, schema_version_required, schema_version_unsupported,
  metadata_missing, pages_type, pages_max_exceeded, page_type, page_id_required, page_id_duplicate,
  page_name_required, page_route_required, page_route_format, page_route_duplicate, root_required,
  nodes_max_exceeded, ValidationError, Patterns, error_if, object_of,
}
use manbaa_backend.Schema.Nodes.{Walk, report, seen_in, prohibited_keys, validate_component_node}

-- The walk over the pages, with the ids and the routes of the pages so far.
pub record PageWalk : Type 0 where
  pub walk : Walk
  pub page_ids : List String
  pub routes : List String

abbrev pub note : List ValidationError → PageWalk → PageWalk
note more w = record w { walk = report more w.walk }

pub check_page_id : Option String → Trail → PageWalk → PageWalk
check_page_id none path w = note (record { code = page_id_required; path = key "id" ∷ path } ∷ []) w
check_page_id (some id) path w =
    if seen_in w.page_ids id
    then note (record { code = page_id_duplicate; path = key "id" ∷ path } ∷ []) w
    else record w { page_ids = w.page_ids ++ id ∷ [] }

abbrev pub as_str : Option Json → Option String
as_str (some (str s)) = some s
as_str _ = none

pub check_route : Option String → Trail → PageWalk → PageWalk
check_route none path w =
    note (record { code = page_route_required; path = key "route" ∷ path } ∷ []) w
check_route (some route) path w =
    let rooted =
      note (error_if (not (starts_with "/" route)) page_route_format (key "route" ∷ path)) w in
    if seen_in rooted.routes route
    then note (record { code = page_route_duplicate; path = key "route" ∷ path } ∷ []) rooted
    else record rooted { routes = rooted.routes ++ route ∷ [] }

schema_version_errors : Option String → List ValidationError
schema_version_errors none =
    record { code = schema_version_required; path = key "schemaVersion" ∷ [] } ∷ []
schema_version_errors (some v) =
    error_if (not (v == "1.0.0")) schema_version_unsupported (key "schemaVersion" ∷ [])

metadata_errors : Option Fields → List ValidationError
metadata_errors none = record { code = metadata_missing; path = key "metadata" ∷ [] } ∷ []
metadata_errors (some fs) =
    error_if (not (is_some (as_str (get "applicationId" fs)))) metadata_missing
      (key "applicationId" ∷ key "metadata" ∷ [])
    ++ error_if (not (is_some (as_str (get "name" fs)))) metadata_missing
        (key "name" ∷ key "metadata" ∷ [])

abbrev pub count_items : Items → ℕ
count_items nil = 0
count_items (item v xs) = suc (count_items xs)

module _ (patterns : Patterns) where
  check_root : Option Json → Trail → PageWalk → PageWalk
  check_root none path w = note (record { code = root_required; path = key "root" ∷ path } ∷ []) w
  check_root (some root) path w =
      if truthy root
      then record w { walk = validate_component_node patterns root (key "root" ∷ path) 0 w.walk }
      else note (record { code = root_required; path = key "root" ∷ path } ∷ []) w

  pub check_page : Option Fields → Trail → PageWalk → PageWalk
  unfolding check_page_id check_route check_root
  check_page none path w = note (record { code = page_type; path = path } ∷ []) w
  check_page (some fs) path w =
      let clean = note (prohibited_keys (keys fs) (λ k. key k ∷ path)) w in
      let named =
        note
          (error_if (not (is_some (as_str (get "name" fs)))) page_name_required (key "name" ∷ path))
          (check_page_id (text (get "id" fs)) path clean) in
      check_root (get "root" fs) path (check_route (as_str (get "route" fs)) path named)

  pub check_page_list : Items → ℕ → PageWalk → PageWalk
  unfolding check_page
  check_page_list nil i w = w
  check_page_list (item page pages) i w =
      check_page_list pages (suc i) (check_page (object_of (some page)) (at i ∷ key "pages" ∷ []) w)

  check_pages : Option Json → List ValidationError → List ValidationError
  unfolding check_page_list
  check_pages none errors = errors
  check_pages (some (arr pages)) errors =
      let first =
        errors ++ error_if (ltb 200 (count_items pages)) pages_max_exceeded (key "pages" ∷ []) in
      let last = check_page_list pages 0 (record {
        walk = record { errors = first; seen = []; nodes = 0 };
        page_ids = [];
        routes = [];
      }) in
      last.walk.errors ++ error_if (ltb 5000 last.walk.nodes) nodes_max_exceeded (key "pages" ∷ [])
  check_pages (some _) errors = errors ++ record { code = pages_type; path = key "pages" ∷ [] } ∷ []

  -- The errors of `validateApplicationSchema`. The schema is valid if there are none.
  unfoldable pub validate_application_schema : Json → List ValidationError
  unfolding schema_version_errors metadata_errors check_pages
  validate_application_schema schema = elim (object_of (some schema)) [
    | none ↦ record { code = schema_type; path = [] } ∷ []
    | some fs ↦ check_pages (get "pages" fs) (
        prohibited_keys (keys fs) (λ k. [])
        ++ (schema_version_errors (text (get "schemaVersion" fs))
            ++ metadata_errors (object_of (get "metadata" fs))))
  ]
