-- ===== src/Schema/Fuel.antt =====
-- The fuel of `CollectConnectionDecls` is enough.
use kubocd.Common.{
  ℕ, zero, suc, ◌≤◌, ◌<◌, String, Bool, true, false, Option, none, some, ◌≡◌, ◌≢◌, refl, inl, inr,
}
use kubocd.Common.{
  List, [], ◌∷◌, ◌++◌, Result, ok, err, >>=-ne-err, err-injective, arith, string_eq, Option-cases,
  fail_if,
}
use kubocd.Common.{ap, ◌∙◌}
use kubocd.Common.{◌&&◌}
use kubocd.Package.Kinds.{is_set}
use mathlib.Core.Option.{none-ne-some, some-injective}
use kubocd.Value.{Value, object, Fields, end, field}
use kubocd.Value.Maps.{get_field}
use kubocd.Refs.Decl.{ConnectionDecl}
use kubocd.Schema.Depth.{depth, depth_fields, get_field-depth}
use kubocd.Schema.OpenApi.{marker_connection_ref}
use kubocd.Schema.Decls.{
  CollectError, no_fuel, default_in_context, default_in_array, check_ref_path_segments, collect_ref,
  decl_of,
}
use kubocd.Schema.Decls.{in_required, map_at, Walk, collect_properties, collect_from_properties}
use kubocd.Schema.Decls.{collect_from_items, collect_children, collect_node}
use kubocd.Schema.Decls.{collect_connection_decls}

abbrev pub Enough {ℓ} : {A : Type ℓ} → Result CollectError A → Type ℓ
Enough {A = A} r = r ≢ err no_fuel

ok-Enough : {A : Type 0} (a : A) → Enough {A = A} (ok a)
ok-Enough a h = cc

map_at_object :
    (k : String) (node m : Fields) (o : Option Value)
    → get_field k node ≡ o
    → map_at k node ≡ some m
    → get_field k node ≡ some (object m)
unfolding map_at
map_at_object k node m none e h = absurd (none-ne-some _ (rw (e, map_at) at h))
map_at_object k node m (some (object l)) e h =
    e ∙ ap (λ x. some (object x)) (some-injective l m (rw (e, map_at) at h))
map_at_object k node m (some v) e h = absurd (none-ne-some _ (rw (e, map_at) at h))

map_at-depth :
    (k : String) (node m : Fields) → map_at k node ≡ some m → depth_fields m < depth_fields node
map_at-depth k node m h =
    omega (arith, get_field-depth k node (object m) (map_at_object k node m _ refl h))

context-ne-fuel : (path : List String) → default_in_context path ≢ no_fuel
context-ne-fuel path h = cc

array-ne-fuel : (path : List String) → default_in_array path ≢ no_fuel
array-ne-fuel path h = cc

check_ref_path_segments-Enough :
    (path rest : List String) → Enough (check_ref_path_segments path rest)
unfolding check_ref_path_segments
check_ref_path_segments-Enough path [] h = cc
check_ref_path_segments-Enough path (seg ∷ rest) h =
    ground (arith, h, check_ref_path_segments-Enough path rest)

fail_if-Enough : (b : Bool) (e : CollectError) → e ≢ no_fuel → Enough (fail_if b e)
fail_if-Enough true e other h = other (err-injective h)
fail_if-Enough false e other h = cc

collect_ref-Enough :
    (node : Fields) (marker : Value) (path : List String) (required in_array is_context : Bool)
    (decls : List ConnectionDecl)
    → Enough (collect_ref node marker path required in_array is_context decls)
unfolding collect_ref
collect_ref-Enough node marker path required in_array is_context decls =
    let set = is_set (decl_of node marker path required).default_template in
    >>=-ne-err (fail_if (is_context && set) (default_in_context path)) _
      (fail_if-Enough (is_context && set) _ (context-ne-fuel path))
      (λ u₁ e₁.
        >>=-ne-err (fail_if (in_array && set) (default_in_array path)) _
          (fail_if-Enough (in_array && set) _ (array-ne-fuel path))
          (λ u₂ e₂.
            >>=-ne-err (check_ref_path_segments path path) _
              (check_ref_path_segments-Enough path path)
              (λ u₃ e₃. ok-Enough (decls ++ (decl_of node marker path required ∷ [])))))

module _ (is_context : Bool) where
  module _ (walk : Walk) (bound : ℕ)
      (walks : (node : Fields) (path : List String) (required in_array : Bool)
          (decls : List ConnectionDecl)
        → depth_fields node < bound
        → Enough (walk node path required in_array decls)) where
    collect_properties-Enough :
        (node : Fields) (path : List String) (in_array : Bool) (m : Fields)
        (decls : List ConnectionDecl)
        → depth_fields m ≤ bound
        → Enough (collect_properties is_context walk node path in_array m decls)
    unfolding collect_properties
    collect_properties-Enough node path in_array end decls lt = ok-Enough _
    collect_properties-Enough node path in_array (field k (object child) m) decls lt =
        >>=-ne-err (walk child (path ++ (k ∷ [])) (in_required k node) in_array decls) _
          (walks child _ _ in_array decls (omega (arith, lt)))
          (λ decls' e. collect_properties-Enough node path in_array m decls' (omega (arith, lt)))
    collect_properties-Enough node path in_array (field k v m) decls lt =
        collect_properties-Enough node path in_array m decls (omega (arith, lt))

    collect_from_properties-Enough :
        (node : Fields) (path : List String) (in_array : Bool) (decls : List ConnectionDecl)
        (o : Option Fields)
        → map_at "properties" node ≡ o
        → depth_fields node ≤ bound
        → Enough (collect_from_properties is_context walk node path in_array decls o)
    unfolding collect_from_properties
    collect_from_properties-Enough node path in_array decls none at lt = ok-Enough _
    collect_from_properties-Enough node path in_array decls (some m) at lt =
        collect_properties-Enough node path in_array m decls
          (omega (arith, lt, map_at-depth "properties" node m at))

    collect_from_items-Enough :
        (node : Fields) (path : List String) (o : Option Fields) (decls : List ConnectionDecl)
        → map_at "items" node ≡ o
        → depth_fields node ≤ bound
        → Enough (collect_from_items is_context walk path o decls)
    unfolding collect_from_items
    collect_from_items-Enough node path none decls at lt = ok-Enough _
    collect_from_items-Enough node path (some items) decls at lt =
        walks items _ false true decls (omega (arith, lt, map_at-depth "items" node items at))

    collect_children-Enough :
        (node : Fields) (path : List String) (in_array : Bool) (decls : List ConnectionDecl)
        → depth_fields node ≤ bound
        → Enough (collect_children is_context walk node path in_array decls)
    unfolding collect_children
    collect_children-Enough node path in_array decls lt =
        >>=-ne-err
          (collect_from_properties is_context walk node path in_array decls
            (map_at "properties" node))
          _ (collect_from_properties-Enough node path in_array decls _ refl lt)
          (λ decls' e. collect_from_items-Enough node path _ decls' refl lt)

  collect_node-Enough :
      (n : ℕ) (node : Fields) (path : List String) (required in_array : Bool)
      (decls : List ConnectionDecl)
      → depth_fields node < n
      → Enough (collect_node is_context n node path required in_array decls)
  unfolding collect_node
  collect_node-Enough zero node path required in_array decls lt = absurd (omega (arith, lt))
  collect_node-Enough (suc n) node path required in_array decls lt =
      elim (Option-cases (get_field marker_connection_ref node)) [
        | inr (marker, e) ↦
            rw (e, collect_node)
              (collect_ref-Enough node marker path required in_array is_context decls)
        | inl e ↦
            rw (e, collect_node)
              (collect_children-Enough (collect_node is_context n) n (collect_node-Enough n) node
                path in_array decls (omega (arith, lt)))
      ]

  -- The fuel of `CollectConnectionDecls`, the depth of the schema, never runs out: each schema gives
  -- its declarations or one of the errors of the code.
  pub collect_connection_decls-Enough :
      (schema : Fields) → Enough (collect_connection_decls is_context schema)
  unfolding collect_connection_decls
  collect_connection_decls-Enough schema =
      collect_node-Enough (depth (object schema)) schema [] false false [] (omega arith)
