-- ===== src/Schema/Decls.antt =====
-- `CollectConnectionDecls` of internal/kuboschema/connectionref.go. The slice that the code appends
-- to through a pointer is taken and returned. The recursion of the code is over the properties and
-- the items of a node, whose maps are less deep: it runs on fuel.
use Prim.Native.Char.{code}
use kubocd.Common.{ℕ, zero, suc, String, Bool, true, false, ◌&&◌, ◌||◌, Option, none, some}
use kubocd.Common.{List, [], ◌∷◌, ◌++◌, Result, ok, err, ◌>>=◌, ◌>>◌, fail_if, ◌==◌, string_eq, leb}
use kubocd.Common.{if◌then◌else◌}
use kubocd.Value.{Value, str, array, object, Items, nil, item, Fields, end, field}
use kubocd.Value.Maps.{get_field}
use kubocd.Package.Kinds.{is_set}
use kubocd.Refs.Decl.{ConnectionDecl}
use kubocd.Schema.Depth.{depth}
use kubocd.Schema.OpenApi.{map_of, marker_connection_ref}

-- Each with the path of the node.
pub data CollectError : Type 0 where
  default_in_context : List String → CollectError
  default_in_array : List String → CollectError
  all_digits_name : List String → CollectError
  no_fuel : CollectError

-- The loop over the runes of a segment.
unfoldable pub only_digits : String → Bool
only_digits String.[] = true
only_digits (String.◌∷◌ c s) =
    let rest = only_digits s in if leb 48 (code c) && leb (code c) 57 then rest else false

unfoldable pub all_digits : String → Bool
unfolding only_digits
all_digits seg = is_set seg && only_digits seg

unfoldable pub check_ref_path_segments : List String → List String → Result CollectError (Unit {0})
unfolding all_digits
check_ref_path_segments path [] = ok tt
check_ref_path_segments path (seg ∷ rest) =
    let checked = check_ref_path_segments path rest in
    if seg == "[]" then checked else if all_digits seg then err (all_digits_name path) else checked

abbrev pub text_or_empty : Option Value → String
text_or_empty none = ""
text_or_empty (some (str s)) = s
text_or_empty (some v) = ""

abbrev pub fields_or_empty : Value → Fields
fields_or_empty (object m) = m
fields_or_empty v = end

-- The declaration of a node with the marker.
unfoldable pub decl_of : Fields → Value → List String → Bool → ConnectionDecl
decl_of node marker path required = record {
  path = path;
  contract = text_or_empty (get_field "contract" (fields_or_empty marker));
  required = required;
  default_template = text_or_empty (get_field "default" node);
  kind_filter = text_or_empty (get_field "kind" (fields_or_empty marker));
}

unfoldable pub collect_ref :
    Fields
    → Value
    → List String
    → Bool
    → Bool
    → Bool
    → List ConnectionDecl
    → Result CollectError (List ConnectionDecl)
unfolding decl_of
collect_ref node marker path required in_array is_context decls = do
  let decl = decl_of node marker path required
  fail_if (is_context && is_set decl.default_template) (default_in_context path)
  fail_if (in_array && is_set decl.default_template) (default_in_array path)
  check_ref_path_segments path path
  ok (decls ++ (decl ∷ []))

-- A look-up in the set that the code makes of the list of required properties.
unfoldable pub names : String → Items → Bool
names k nil = false
names k (item (str s) l) = k == s || names k l
names k (item v l) = names k l

unfoldable pub in_required : String → Fields → Bool
unfolding names
in_required k node = elim (get_field "required" node) [
  | none ↦ false
  | some v ↦ elim (items_of_value v) [ none ↦ false | some l ↦ names k l ]
]
  where
    items_of_value : Value → Option Items
    items_of_value (array l) = some l
    items_of_value v = none

-- The map under a key, where there is one.
unfoldable pub map_at : String → Fields → Option Fields
map_at k node = elim (get_field k node) [ none ↦ none | some v ↦ map_of v ]

-- A walk over a node, with its path, whether it is required, and whether it is in an array.
abbrev pub Walk : Type 0
Walk =
    Fields
    → List String
    → Bool
    → Bool
    → List ConnectionDecl
    → Result CollectError (List ConnectionDecl)

module _ (is_context : Bool) where
  module _ (walk : Walk) where
    -- The loop over the properties of the node: one that is no map is passed over.
    unfoldable pub collect_properties :
        Fields
        → List String
        → Bool
        → Fields
        → List ConnectionDecl
        → Result CollectError (List ConnectionDecl)
    collect_properties node path in_array end decls = ok decls
    collect_properties node path in_array (field k v m) decls = elim (map_of v) [
      | none ↦ collect_properties node path in_array m decls
      | some child ↦
          walk child (path ++ (k ∷ [])) (in_required k node) in_array decls
          >>= collect_properties node path in_array m
    ]

    unfoldable pub collect_from_properties :
        Fields
        → List String
        → Bool
        → List ConnectionDecl
        → Option Fields
        → Result CollectError (List ConnectionDecl)
    collect_from_properties node path in_array decls none = ok decls
    collect_from_properties node path in_array decls (some properties) =
        collect_properties node path in_array properties decls

    unfoldable pub collect_from_items :
        List String
        → Option Fields
        → List ConnectionDecl
        → Result CollectError (List ConnectionDecl)
    collect_from_items path none decls = ok decls
    collect_from_items path (some items) decls = walk items (path ++ ("[]" ∷ [])) false true decls

    unfoldable pub collect_children :
        Fields
        → List String
        → Bool
        → List ConnectionDecl
        → Result CollectError (List ConnectionDecl)
    collect_children node path in_array decls =
        collect_from_properties node path in_array decls (map_at "properties" node)
        >>= collect_from_items path (map_at "items" node)

  unfoldable pub collect_node : ℕ → Walk
  unfolding collect_children
  collect_node zero node path required in_array decls = err no_fuel
  collect_node (suc n) node path required in_array decls =
      elim (get_field marker_connection_ref node) [
        | some marker ↦ collect_ref node marker path required in_array is_context decls
        | none ↦ collect_children (collect_node n) node path in_array decls
      ]

  unfoldable pub collect_connection_decls : Fields → Result CollectError (List ConnectionDecl)
  unfolding collect_node
  collect_connection_decls schema = collect_node (depth (object schema)) schema [] false false []
