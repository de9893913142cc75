-- ===== src/Refs/Apply.antt =====
-- `ApplyRefBindings` of internal/controller/release_paramrefs.go. The three maps that the code
-- modifies are taken and returned: the input model, and the two trees.
pub mod Laws
use kubocd.Common.{String, Bool, true, false, Option, none, some, List, [], ◌∷◌, Result, ok, err}
use kubocd.Common.{if◌then◌else◌}
use kubocd.Value.{Value, Fields}
use kubocd.Value.Maps.{get_field, delete_field}
use kubocd.Refs.Path.{Strconv, PathError, set_at_path}
use kubocd.Refs.Decl.{RefBinding, Trees, tree_of, with_tree}

-- Each with the alias of the parameter.
pub data ApplyError : Type 0 where
  unresolved : String → ApplyError
  not_substituted : String → PathError → ApplyError

abbrev pub Applied : Type 0
Applied = record { model : Fields; trees : Trees }

module _ (S : Strconv) where
  unfoldable pub apply_ref_bindings : List RefBinding → Fields → Trees → Result ApplyError Applied
  apply_ref_bindings [] model trees = ok (record { model = model; trees = trees })
  apply_ref_bindings (b ∷ bs) model trees = elim (get_field b.alias model) [
    | none ↦ err (unresolved b.alias)
    | some values ↦ elim (set_at_path S b.path (tree_of trees b.in_context) values) [
      | err e ↦ err (not_substituted b.alias e)
      | ok tree ↦
          apply_ref_bindings bs (delete_field b.alias model) (with_tree b.in_context tree trees)
    ]
  ]
