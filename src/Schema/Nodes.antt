-- ===== src/Schema/Nodes.antt =====
-- `validateComponentNode` of src/modules/applications/schema-validator.ts.
pub mod Ids
use manbaa_backend.Base.{
  ℕ, suc, String, Bool, not, Option, none, some, List, [], ◌∷◌, ◌++◌, any, ltb, is_some, ◌==◌,
  if◌then◌else◌,
}
use manbaa_backend.Json.{Json, arr, obj, Items, nil, item, Fields, end, field, get, keys, text}
use manbaa_backend.Schema.Types.{
  Trail, key, at, prohibited_key, nesting_depth, node_type, node_id_required, node_id_duplicate,
  node_type_required, props_type, styles_type, children_type, ValidationError, Patterns, prohibited,
  error_if, object_of,
}
use manbaa_backend.Schema.Scan.{scan_for_dangerous_values}

-- What the walk over the pages has gathered: the errors in their order, the ids of the nodes, and how
-- many nodes there were.
pub record Walk : Type 0 where
  pub errors : List ValidationError
  pub seen : List String
  pub nodes : ℕ

abbrev pub report : List ValidationError → Walk → Walk
report more w = record w { errors = w.errors ++ more }

abbrev pub seen_in : List String → String → Bool
seen_in ids id = any (λ x. x == id) ids

-- `for (const key of Object.keys(object)) if (PROHIBITED_KEYS.includes(key)) …`
abbrev pub prohibited_keys : List String → (String → Trail) → List ValidationError
prohibited_keys [] path = []
prohibited_keys (k ∷ ks) path =
    error_if (prohibited k) prohibited_key (path k) ++ prohibited_keys ks path

-- The check of `id`, which is entered in `seenIds` when it is new.
pub check_id : Option String → Trail → Walk → Walk
check_id none path w = report (record { code = node_id_required; path = key "id" ∷ path } ∷ []) w
check_id (some id) path w =
    if seen_in w.seen id
    then report (record { code = node_id_duplicate; path = key "id" ∷ path } ∷ []) w
    else record w { seen = w.seen ++ id ∷ [] }

check_styles : Option Json → Trail → List ValidationError
check_styles none path = []
check_styles (some v) path =
    error_if (not (is_some (object_of (some v)))) styles_type (key "styles" ∷ path)

module _ (patterns : Patterns) where
  check_props : Option Json → Trail → List ValidationError
  check_props none path = []
  check_props (some v) path =
      if is_some (object_of (some v))
      then scan_for_dangerous_values patterns v (key "props" ∷ path)
      else record { code = props_type; path = key "props" ∷ path } ∷ []

  -- A node without its children.
  unfoldable pub check_node : Fields → Trail → Walk → Walk
  unfolding check_id check_props check_styles
  check_node fs path w =
      let named =
        check_id (text (get "id" fs)) path
          (report (prohibited_keys (keys fs) (λ k. key k ∷ path)) w) in
      let typed =
        report
          (error_if (not (is_some (text (get "type" fs)))) node_type_required (key "type" ∷ path))
          named in
      let counted = record typed { nodes = suc typed.nodes } in
      report (check_props (get "props" fs) path ++ check_styles (get "styles" fs) path) counted

  unfoldable mutual
    pub validate_component_node : Json → Trail → ℕ → Walk → Walk
    validate_component_node (obj fs) path depth w =
        let deeper = validate_children fs path depth (check_node fs path w) in
        if ltb 20 depth
        then report (record { code = nesting_depth; path = path } ∷ []) w
        else deeper
    validate_component_node (arr xs) path depth w =
        if ltb 20 depth
        then report (record { code = nesting_depth; path = path } ∷ []) w
        else check_node end path w
    validate_component_node _ path depth w =
        report
          (record { code = if ltb 20 depth then nesting_depth else node_type; path = path } ∷ []) w

    -- `nodeObj.children`
    pub validate_children : Fields → Trail → ℕ → Walk → Walk
    validate_children end path depth w = w
    validate_children (field k v fs) path depth w =
        let here = validate_child_list v (key "children" ∷ path) depth w in
        let rest = validate_children fs path depth w in if k == "children" then here else rest

    pub validate_child_list : Json → Trail → ℕ → Walk → Walk
    validate_child_list (arr xs) path depth w = validate_items xs 0 path (suc depth) w
    validate_child_list _ path depth w =
        report (record { code = children_type; path = path } ∷ []) w

    pub validate_items : Items → ℕ → Trail → ℕ → Walk → Walk
    validate_items nil i path depth w = w
    validate_items (item v xs) i path depth w =
        validate_items xs (suc i) path depth (validate_component_node v (at i ∷ path) depth w)
