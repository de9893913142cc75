-- ===== src/Schema/Related.antt =====
-- How a schema in openAPI follows from the schema of a package.
use mathlib.Core.Path.{subst}
use kubocd.Common.{String, true, false, none, some, ◌≡◌, ◌≢◌, inl, inr}
use kubocd.Common.{arith, ◌==◌, string_eq, Bool-cases}
use kubocd.Value.{Value, str, object, array, Items, nil, item, bool, Fields, end, field}
use kubocd.Value.Maps.{
  get_field, set_field, delete_field, get_field-set_field, get_field-delete_field,
}
use kubocd.Common.{==→≡, ◌⊎◌}
use kubocd.Schema.OpenApi.{lookup_type, marker_connection_ref, has_field, type_connection_ref}
use kubocd.Schema.Nodes.{is_scalar}

-- The map has this node under this key.
abbrev pub IsEntry : String → Fields → Fields → Type 0
IsEntry k node end = ⊥
IsEntry k node (field j v m) = ((j ≡ k) × (v ≡ object node)) ⊎ IsEntry k node m

-- Each key of the first map is one of the second.
abbrev pub Covers : Fields → Fields → Type 0
Covers m properties = (k : String) → has_field k m ≡ true → has_field k properties ≡ true

abbrev pub InItems : Value → Items → Type 0
InItems v nil = ⊥
InItems v (item w l) = (w ≡ v) ⊎ InItems v l

abbrev pub IsRequired : Fields → Type 0
IsRequired node = get_field "required" node ≡ some (bool true)

-- The list has the keys of the required nodes.
abbrev pub Requires : Fields → Items → Type 0
Requires sources required =
    (k : String)
    → (InItems (str k) required → (node : Fields) × IsEntry k node sources × IsRequired node)
      × ((node : Fields) → IsEntry k node sources → IsRequired node → InItems (str k) required)

mutual
  -- The first node, of a package, and the second in openAPI: `required` is a list in a map and absent
  -- elsewhere, and a connectionRef is a string with the marker, its contract and its kind. A map has
  -- the keys of the first one, each with a node that follows from one under this key, and the list of
  -- the required ones.
  pub data IsOpenApi : Fields → Fields → Type 0 where
    scalar :
        {src m : Fields} (typ : String)
        → get_field "type" src ≡ some (str typ)
        → is_scalar typ ≡ true
        → get_field "type" m ≡ some (str typ)
        → get_field "required" m ≡ none
        → IsOpenApi src m
    reference :
        {src m marker : Fields} (contract : String)
        → get_field "type" src ≡ some (str type_connection_ref)
        → get_field "contract" src ≡ some (str contract)
        → contract ≢ ""
        → get_field "type" m ≡ some (str "string")
        → get_field marker_connection_ref m ≡ some (object marker)
        → get_field "contract" marker ≡ some (str contract)
        → get_field "kind" marker ≡ get_field "kind" src
        → get_field "required" m ≡ none
        → IsOpenApi src m
    map_node :
        {src m sources properties : Fields} (required : Items)
        → lookup_type src ≡ str "object"
        → get_field "properties" src ≡ some (object sources)
        → get_field "type" m ≡ some (str "object")
        → get_field "properties" m ≡ some (object properties)
        → get_field "required" m ≡ some (array required)
        → Requires sources required
        → Covers sources properties
        → AllOpenApi sources properties
        → IsOpenApi src m
    list_node :
        {src m source items : Fields}
        → lookup_type src ≡ str "array"
        → get_field "items" src ≡ some (object source)
        → get_field "type" m ≡ some (str "array")
        → get_field "items" m ≡ some (object items)
        → get_field "required" m ≡ none
        → IsOpenApi source items
        → IsOpenApi src m

  pub data AllOpenApi : Fields → Fields → Type 0 where
    no_properties : {sources : Fields} → AllOpenApi sources end
    property :
        {sources node out m : Fields} (k : String)
        → IsEntry k node sources
        → IsOpenApi node out
        → AllOpenApi sources m
        → AllOpenApi sources (field k (object out) m)

pub set_field-AllOpenApi :
    (k : String) (sources node out m : Fields)
    → IsEntry k node sources
    → IsOpenApi node out
    → AllOpenApi sources m
    → AllOpenApi sources (set_field k (object out) m)
unfolding set_field
set_field-AllOpenApi k sources node out _ is h no_properties = property k is h no_properties
set_field-AllOpenApi k sources node out _ is h (property {m = m} j other hc all) =
    elim (Bool-cases (k == j)) [
      | inl e ↦
          rw (e, set_field) (property j (subst (λ x. IsEntry x node sources) (==→≡ k j e) is) h all)
      | inr e ↦
          rw (e, set_field)
            (property j other hc (set_field-AllOpenApi k sources node out m is h all))
    ]

pub get_set : (k : String) (v : Value) (m : Fields) → get_field k (set_field k v m) ≡ some v
get_set k v m = ground (arith, get_field-set_field k k v m)

pub get_set_ne :
    (j k : String) (v : Value) (m : Fields)
    → (j == k) ≡ false
    → get_field j (set_field k v m) ≡ get_field j m
get_set_ne j k v m e = ground (arith, get_field-set_field j k v m, e)

pub get_delete_ne :
    (j k : String) (m : Fields) → (j == k) ≡ false → get_field j (delete_field k m) ≡ get_field j m
get_delete_ne j k m e = ground (arith, get_field-delete_field j k m, e)
