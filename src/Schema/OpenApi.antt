-- ===== src/Schema/OpenApi.antt =====
-- `Kubo2openAPI` of internal/kuboschema/kuboschema.go, and what it calls, with
-- `desugarConnectionRef` of connectionref.go. A node is its map; the code clones it before it
-- changes it. The recursion runs on fuel. Whether a text holds an action, strings.Contains of "{{",
-- is a parameter.
use kubocd.Common.{String, Bool, true, false, ◌||◌, Option, none, some}
use kubocd.Common.{List, [], ◌∷◌, ◌++◌, Result, ok, err, ◌>>=◌, ◌>>◌, contains, ◌==◌}
use kubocd.Common.{string_eq, if◌then◌else◌}
use kubocd.Value.{Value, null, bool, number, str, array, object, Fields, end, field}
use kubocd.Value.Maps.{get_field, set_field, delete_field}

-- Each with the path of the node.
pub data SchemaError : Type 0 where
  missing_type : String → SchemaError
  type_not_string : String → SchemaError
  unknown_type : String → SchemaError
  unknown_property : String → SchemaError
  required_not_bool : String → SchemaError
  missing_properties : String → SchemaError
  additional_not_bool : String → SchemaError
  properties_not_map : String → SchemaError
  property_not_map : String → SchemaError
  missing_items : String → SchemaError
  items_not_map : String → SchemaError
  contract_required : String → SchemaError
  contract_not_text : String → SchemaError
  literal_default : String → SchemaError
  bad_kind : String → SchemaError
  out_of_fuel : SchemaError

abbrev pub type_connection_ref : String
type_connection_ref = "connectionRef"

abbrev pub marker_connection_ref : String
marker_connection_ref = "x-kubocd-connection-ref"

abbrev pub connection_ref_allowed_properties : List String
connection_ref_allowed_properties =
    "type" ∷ "title" ∷ "description" ∷ "required" ∷ "default" ∷ "contract" ∷ "kind" ∷ []

abbrev scalar_properties : List String
scalar_properties = "type" ∷ "title" ∷ "description" ∷ "enum" ∷ "required" ∷ "default" ∷ []

abbrev number_properties : List String
number_properties =
    scalar_properties
    ++ ("minimum" ∷ "maximum" ∷ "exclusiveMinimum" ∷ "exclusiveMaximum" ∷ "multipleOf" ∷ [])

unfoldable pub allowed_properties_by_types : String → Option (List String)
allowed_properties_by_types typ =
    if typ == type_connection_ref
    then some connection_ref_allowed_properties
    else if typ == "string"
    then some (scalar_properties ++ ("minLength" ∷ "maxLength" ∷ "pattern" ∷ []))
    else if typ == "integer" || typ == "number"
    then some number_properties
    else if typ == "boolean"
    then some scalar_properties
    else if typ == "object"
    then some (
        "type" ∷ "title" ∷ "description" ∷ "required" ∷ "properties" ∷ "additionalProperties"
        ∷ "patternProperties" ∷ "minProperties" ∷ "maxProperties" ∷ [])
    else if typ == "array"
    then some (
        "type" ∷ "title" ∷ "description" ∷ "required" ∷ "items" ∷ "prefixItems" ∷ "maxItems"
        ∷ "minItems" ∷ "uniqueItems" ∷ [])
    else none

unfoldable pub has_field : String → Fields → Bool
has_field k m = elim (get_field k m) [ none ↦ false | some v ↦ true ]

-- The lookup of the type: `nil` where there is none.
unfoldable pub lookup_type : Fields → Value
unfolding has_field
lookup_type node = elim (get_field "type" node) [
  | some t ↦ t
  | none ↦
      if has_field "properties" node
      then str "object"
      else if has_field "items" node
      then str "array"
      else null
]

unfoldable pub type_name : String → Value → Result SchemaError String
type_name path null = err (missing_type path)
type_name path (str s) = if s == "" then err (missing_type path) else ok s
type_name path t = err (type_not_string path)

-- The loop over the properties of the node.
unfoldable pub check_properties : String → List String → Fields → Result SchemaError (Unit {0})
check_properties path allowed end = ok tt
check_properties path allowed (field k v m) =
    let rest = check_properties path allowed m in
    if contains allowed k then rest else err (unknown_property path)

-- The map without the property, and its value.
unfoldable pub handle_required : String → Fields → Result SchemaError (Fields × Bool)
handle_required path node = elim (get_field "required" node) [
  | none ↦ ok (node, false)
  | some req ↦ elim req [
    | bool b ↦ ok (delete_field "required" node, b)
    | null ↦ err (required_not_bool path)
    | number n ↦ err (required_not_bool path)
    | str s ↦ err (required_not_bool path)
    | array l ↦ err (required_not_bool path)
    | object m ↦ err (required_not_bool path)
  ]
]

abbrev pub text_of : Value → Option String
text_of (str s) = some s
text_of v = none

abbrev pub map_of : Value → Option Fields
map_of (object m) = some m
map_of v = none

abbrev pub bool_of : Value → Option Bool
bool_of (bool b) = some b
bool_of v = none

unfoldable pub contract_of : String → Fields → Result SchemaError String
contract_of path node = elim (get_field "contract" node) [
  | none ↦ err (contract_required path)
  | some raw ↦ elim (text_of raw) [
    | none ↦ err (contract_not_text path)
    | some contract ↦ if contract == "" then err (contract_not_text path) else ok contract
  ]
]

-- The marker, with the kind where there is one.
unfoldable pub connection_kind : String → Fields → Fields → Result SchemaError Fields
connection_kind path node marker = elim (get_field "kind" node) [
  | none ↦ ok marker
  | some kind ↦ elim (text_of kind) [
    | none ↦ err (bad_kind path)
    | some s ↦
        if s == "Connection" || s == "ClusterConnection"
        then ok (set_field "kind" (str s) marker)
        else err (bad_kind path)
  ]
]

module _ (has_action : String → Bool) where
  unfoldable pub check_default : String → Fields → Result SchemaError (Unit {0})
  check_default path node = elim (get_field "default" node) [
    | none ↦ ok tt
    | some def ↦ elim (text_of def) [
      | none ↦ err (literal_default path)
      | some s ↦ if has_action s then ok tt else err (literal_default path)
    ]
  ]

  unfoldable pub desugar_connection_ref : String → Fields → Result SchemaError (Fields × Bool)
  unfolding check_default
  desugar_connection_ref path node = do
    contract ← contract_of path node
    check_default path node
    marker ← connection_kind path node (field "contract" (str contract) end)
    r ← handle_required path node
    ok (
      set_field marker_connection_ref (object marker)
          (delete_field "kind" (delete_field "contract" (set_field "type" (str "string") r.0))),
      r.1,
    )
