-- ===== src/Schema/Collected.antt =====
-- What `CollectConnectionDecls` returns: each declaration stands for a marked node of the schema.
use kubocd.Common.{String, Bool, true, false, some, ◌≡◌, ◌⊎◌}
use kubocd.Common.{List, [], ◌∷◌, ◌++◌, ok}
use kubocd.Common.{All, string_eq}
use kubocd.Value.{Value, object, Fields, end, field}
use kubocd.Value.Maps.{get_field}
use kubocd.Refs.Decl.{ConnectionDecl}
use kubocd.Schema.OpenApi.{marker_connection_ref}
use kubocd.Schema.Decls.{all_digits, decl_of}
use kubocd.Schema.Decls.{in_required, map_at, Walk}

-- An entry of a map in its order of iteration.
abbrev pub HasEntry : String → Value → Fields → Type 0
HasEntry k v end = ⊥
HasEntry k v (field j w m) = ((k ≡ j) × (v ≡ w)) ⊎ HasEntry k v m

-- The path from the root to a node of the schema, whether it goes through an array, and whether the
-- node is required.
pub data Leads (root : Fields) : List String → Bool → Bool → Fields → Type 0 where
  here : Leads root [] false false root
  to_property :
      {path : List String} {in_array required : Bool} {node properties child : Fields} (k : String)
      → Leads root path in_array required node
      → map_at "properties" node ≡ some properties
      → HasEntry k (object child) properties
      → Leads root (path ++ (k ∷ [])) in_array (in_required k node) child
  to_items :
      {path : List String} {in_array required : Bool} {node items : Fields}
      → Leads root path in_array required node
      → map_at "items" node ≡ some items
      → Leads root (path ++ ("[]" ∷ [])) true false items

-- A segment that `checkRefPathSegments` accepts.
abbrev pub IsSegment : String → Type 0
IsSegment seg = (seg ≡ "[]") ⊎ (all_digits seg ≡ false)

module _ (is_context : Bool) (root : Fields) where
  pub record IsCollected (decl : ConnectionDecl) : Type 0 where
    pub node : Fields
    pub marker : Value
    pub in_array : Bool
    pub leads : Leads root decl.path in_array decl.required node
    pub marked : get_field marker_connection_ref node ≡ some marker
    pub read : decl ≡ decl_of node marker decl.path decl.required
    pub segments : All IsSegment decl.path
    pub no_default : (decl.default_template ≡ "") ⊎ ((is_context ≡ false) × (in_array ≡ false))

  -- A walk that keeps the declarations collected, from each node that the schema leads to.
  abbrev Collects : Walk → Type 0
  Collects walk =
      (node : Fields) (path : List String) (required in_array : Bool)
      (decls decls' : List ConnectionDecl)
      → Leads root path in_array required node
      → All IsCollected decls
      → walk node path required in_array decls ≡ ok decls'
      → All IsCollected decls'
