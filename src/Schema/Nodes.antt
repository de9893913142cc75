-- ===== src/Schema/Nodes.antt =====
-- `handleNode` and `Kubo2openAPI` of internal/kuboschema/kuboschema.go. The recursion of the code is
-- over the properties and the items of a node, whose maps are less deep: it runs on fuel.
use kubocd.Common.{ℕ, zero, suc, String, ◌<>◌, Bool, ◌||◌, none, some}
use kubocd.Common.{Result, ok, err, ◌>>=◌, ◌==◌, string_eq, if◌then◌else◌}
use kubocd.Value.{Value, bool, str, array, object, Items, nil, item, Fields, end, field}
use kubocd.Value.Maps.{get_field, set_field}
use kubocd.Schema.Depth.{depth}
use kubocd.Schema.OpenApi.{SchemaError, unknown_type, missing_properties, additional_not_bool}
use kubocd.Schema.OpenApi.{properties_not_map, property_not_map, missing_items, items_not_map}
use kubocd.Schema.OpenApi.{out_of_fuel, type_connection_ref, allowed_properties_by_types}
use kubocd.Schema.OpenApi.{has_field, lookup_type, type_name, check_properties, handle_required}
use kubocd.Schema.OpenApi.{map_of, bool_of, desugar_connection_ref}

-- A node in openAPI, and whether it is required.
abbrev pub Handled : Type 0
Handled = Result SchemaError (Fields × Bool)

-- A slice with one more element at its end.
abbrev pub push : Value → Items → Items
push v nil = item v nil
push v (item w l) = item w (push v l)

abbrev pub is_scalar : String → Bool
is_scalar typ = typ == "string" || typ == "integer" || typ == "number" || typ == "boolean"

unfoldable pub additional_of : String → Fields → Bool → Result SchemaError Bool
additional_of path node additional = elim (get_field "additionalProperties" node) [
  | none ↦ ok additional
  | some v ↦ elim (bool_of v) [ none ↦ err (additional_not_bool path) | some b ↦ ok b ]
]

unfoldable pub properties_of : String → Fields → Result SchemaError Value
properties_of path node = elim (get_field "properties" node) [
  | none ↦ err (missing_properties path)
  | some v ↦ ok v
]

unfoldable pub properties_map : String → Value → Result SchemaError Fields
properties_map path v = elim (map_of v) [ none ↦ err (properties_not_map path) | some m ↦ ok m ]

unfoldable pub items_of : String → Fields → Result SchemaError Fields
items_of path node = elim (get_field "items" node) [
  | none ↦ err (missing_items path)
  | some v ↦ elim (map_of v) [ none ↦ err (items_not_map path) | some m ↦ ok m ]
]

module _ (has_action : String → Bool) where
  -- The properties and the items by the call of `handleNode` on them.
  module _ (handle : String → Fields → Bool → Handled) where
    unfoldable pub handle_property : String → Value → Bool → Handled
    handle_property path v additional = elim (map_of v) [
      | none ↦ err (property_not_map path)
      | some m ↦ handle path m additional
    ]

    -- The loop over the properties: the map and the list of the required ones are taken and returned.
    unfoldable pub handle_properties :
        String → Bool → Fields → Fields → Items → Result SchemaError (Fields × Items)
    unfolding handle_property
    handle_properties path additional end properties required = ok (properties, required)
    handle_properties path additional (field k v m) properties required = do
      r ← handle_property (path <> ("." <> k)) v additional
      handle_properties path additional m (set_field k (object r.0) properties)
          (if r.1 then push (str k) required else required)

    unfoldable pub handle_object : String → Fields → Bool → Handled
    unfolding properties_of additional_of properties_map
    handle_object path node additional = do
      r ← handle_required path node
      raw ← properties_of path r.0
      additional' ← additional_of path r.0 additional
      properties ← properties_map path raw
      out ← handle_properties path additional' properties end nil
      ok (
        set_field "properties" (object out.0) (
            set_field "required" (array out.1) (
              set_field "additionalProperties" (bool additional')
                (set_field "type" (str "object") r.0))),
        r.1,
      )

    unfoldable pub handle_array : String → Fields → Bool → Handled
    unfolding items_of
    handle_array path node additional = do
      r ← handle_required path node
      items ← items_of path r.0
      n ← handle (path <> ".[]") items additional
      ok (set_field "items" (object n.0) (set_field "type" (str "array") r.0), r.1)

    unfoldable pub handle_typed : String → String → Fields → Bool → Handled
    handle_typed typ path node additional =
        if typ == type_connection_ref
        then desugar_connection_ref has_action path node
        else if is_scalar typ
        then handle_required path node
        else if typ == "object"
        then handle_object path node additional
        else if typ == "array"
        then handle_array path node additional
        else err (unknown_type path)

    unfoldable pub handle_body : String → Fields → Bool → Handled
    unfolding handle_typed
    handle_body path node additional = do
      typ ← type_name path (lookup_type node)
      elim (allowed_properties_by_types typ) [
        | none ↦ err (unknown_type path)
        | some allowed ↦
            check_properties path allowed node >>= λ u. handle_typed typ path node additional
      ]

  unfoldable pub handle_node : ℕ → String → Fields → Bool → Handled
  unfolding handle_body
  handle_node zero path node additional = err out_of_fuel
  handle_node (suc n) path node additional = handle_body (handle_node n) path node additional

  -- No schema is the empty map here.
  unfoldable pub kubo2openapi : Fields → Bool → Result SchemaError Fields
  unfolding handle_node
  kubo2openapi end additional = ok end
  kubo2openapi (field k v m) additional =
      if has_field "$schema" (field k v m) then ok (field k v m) else do
        r ← handle_node (depth (object (field k v m))) "" (field k v m) additional
        ok (set_field "$schema" (str "http://json-schema.org/schema#") r.0)
