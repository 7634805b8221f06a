-- ===== src/Schema/Tests.antt =====
-- A schema with two nodes, and the theorem at it.
use manbaa_backend.Base.{String, ◌≡◌, refl, ◌≤◌, false, [], length}
use manbaa_backend.Json.{Json, str, arr, obj, Items, nil, item, Fields, end, field}
use manbaa_backend.Schema.Types.{Patterns}
use manbaa_backend.Schema.Nodes.{validate_component_node, check_node}
use manbaa_backend.Schema.Nodes.Ids.{IsDistinct}
use manbaa_backend.Schema.Validate.{count_items, validate_application_schema}
use manbaa_backend.Schema.Validate.Limits.{pages_ids, valid_nodes}

abbrev patterns : Patterns
patterns = record { executable = λ t. false; sql = λ t. false; secret = λ t. false }

abbrev node : String → Items → Json
node id children =
    obj (field "id" (str id) (field "type" (str "box") (field "children" (arr children) end)))

abbrev pages : Items
pages =
    item
      (obj (
        field "id" (str "p1") (
          field "name" (str "home")
            (field "route" (str "/") (field "root" (node "n1" (item (node "n2" nil) nil)) end)))))
      nil

abbrev schema : Fields
schema = field "schemaVersion" (str "1.0.0") (
    field "metadata" (obj (field "applicationId" (str "a1") (field "name" (str "shop") end)))
      (field "pages" (arr pages) end))

valid : validate_application_schema patterns (obj schema) ≡ []
unfolding validate_application_schema validate_component_node check_node
valid = refl

valid_nodes_example :
    (count_items pages ≤ 200) × (length (pages_ids pages) ≤ 5000) × IsDistinct (pages_ids pages)
valid_nodes_example = valid_nodes patterns schema pages refl valid
