-- ===== src/Refs/Decl.antt =====
-- `ConnectionDecl` of internal/kuboschema/connectionref.go, and `RefBinding` of
-- internal/controller/release_paramrefs.go.
use kubocd.Common.{String, Bool, true, false, List}
use kubocd.Value.{Value}

pub record ConnectionDecl : Type 0 where
  pub path : List String
  pub contract : String
  pub required : Bool
  pub default_template : String
  pub kind_filter : String

pub record RefBinding : Type 0 where
  pub alias : String
  pub path : List String
  pub in_context : Bool

-- The two maps that the paths of the bindings are read in.
pub record Trees : Type 0 where
  pub parameters : Value
  pub context : Value

abbrev pub tree_of : Trees → Bool → Value
tree_of t true = t.context
tree_of t false = t.parameters

abbrev pub with_tree : Bool → Value → Trees → Trees
with_tree true v t = record t { context = v }
with_tree false v t = record t { parameters = v }
