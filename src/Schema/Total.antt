-- ===== src/Schema/Total.antt =====
-- The fuel of `Kubo2openAPI` is enough.
use kubocd.Common.{ℕ, zero, suc, ◌≤◌, ◌<◌, String, ◌<>◌, Bool, some, refl, ap, ◌∙◌, inl, inr}
use kubocd.Common.{>>=-ne-err, arith, string_eq, Bool-cases, Option-cases}
use kubocd.Value.{Value, str, object, Items, nil, Fields, end, field}
use kubocd.Schema.Depth.{depth, depth_fields}
use kubocd.Schema.OpenApi.{
  has_field, check_default, type_name, lookup_type, check_properties, handle_required, contract_of,
  connection_kind, desugar_connection_ref, allowed_properties_by_types,
}
use kubocd.Schema.Nodes.{
  Handled, handle_properties, handle_property, additional_of, properties_of, properties_map,
  items_of, handle_object, handle_array, handle_typed, handle_body, handle_node, kubo2openapi,
}
use kubocd.Schema.Parts.{
  ok-HasFuel, type_name-HasFuel, check_properties-HasFuel, handle_required-HasFuel,
  contract_of-HasFuel, connection_kind-HasFuel, additional_of-HasFuel, properties_of-HasFuel,
  properties_map-HasFuel, items_of-HasFuel, properties_map-object, properties_of-some, items_some,
  less_deep, map-HasFuel, unknown-HasFuel, HasFuel,
}

module _ (has_action : String → Bool) where
  check_default-HasFuel : (path : String) (m : Fields) → HasFuel (check_default has_action path m)
  unfolding check_default
  check_default-HasFuel path m h = ground (arith, h)

  desugar_connection_ref-HasFuel :
      (path : String) (m : Fields) → HasFuel (desugar_connection_ref has_action path m)
  unfolding desugar_connection_ref
  desugar_connection_ref-HasFuel path m =
      >>=-ne-err (contract_of path m) _ (contract_of-HasFuel path m) (λ contract e₁.
        >>=-ne-err (check_default has_action path m) _ (check_default-HasFuel path m) (λ u e₂.
          >>=-ne-err (connection_kind path m (field "contract" (str contract) end)) _
            (connection_kind-HasFuel path m (field "contract" (str contract) end))
            (λ marker e₃.
              >>=-ne-err (handle_required path m) _ (handle_required-HasFuel path m)
                (λ r e₄. ok-HasFuel _))))

  module _ (handle : String → Fields → Bool → Handled) (bound : ℕ)
      (handles : (path : String) (m : Fields) (additional : Bool)
        → depth_fields m < bound
        → HasFuel (handle path m additional)) where
    handle_property-HasFuel :
        (path : String) (v : Value) (additional : Bool)
        → depth v ≤ bound
        → HasFuel (handle_property has_action handle path v additional)
    unfolding handle_property
    handle_property-HasFuel path (object m) additional lt = handles path m additional (omega arith)
    handle_property-HasFuel path v additional lt = map-HasFuel path

    handle_properties-HasFuel :
        (path : String) (additional : Bool) (m properties : Fields) (required : Items)
        → depth_fields m ≤ bound
        → HasFuel (handle_properties has_action handle path additional m properties required)
    unfolding handle_properties
    handle_properties-HasFuel path additional end properties required lt = ok-HasFuel _
    handle_properties-HasFuel path additional (field k v m) properties required lt =
        >>=-ne-err (handle_property has_action handle (path <> ("." <> k)) v additional) _
          (handle_property-HasFuel _ v additional (omega arith))
          (λ r e. handle_properties-HasFuel path additional m _ _ (omega arith))

    handle_object-HasFuel :
        (path : String) (m : Fields) (additional : Bool)
        → depth_fields m ≤ bound
        → HasFuel (handle_object has_action handle path m additional)
    unfolding handle_object
    handle_object-HasFuel path m additional lt =
        >>=-ne-err (handle_required path m) _ (handle_required-HasFuel path m) (λ r e₁.
          >>=-ne-err (properties_of path r.0) _ (properties_of-HasFuel path r.0) (λ raw e₂.
            >>=-ne-err (additional_of path r.0 additional) _
              (additional_of-HasFuel path r.0 additional)
              (λ additional' e₃.
                >>=-ne-err (properties_map path raw) _ (properties_map-HasFuel path raw)
                  (λ properties e₄.
                    >>=-ne-err
                      (handle_properties has_action handle path additional' properties end nil) _
                      (handle_properties-HasFuel path additional' properties end nil (
                        omega (
                          arith,
                          lt,
                          less_deep path m r "properties" properties e₁ (
                              properties_of-some path r.0 raw e₂
                              ∙ ap (λ x. some x) (properties_map-object path raw properties e₄)),
                        )))
                      (λ out e₅. ok-HasFuel _)))))

    handle_array-HasFuel :
        (path : String) (m : Fields) (additional : Bool)
        → depth_fields m ≤ bound
        → HasFuel (handle_array has_action handle path m additional)
    unfolding handle_array
    handle_array-HasFuel path m additional lt =
        >>=-ne-err (handle_required path m) _ (handle_required-HasFuel path m) (λ r e₁.
          >>=-ne-err (items_of path r.0) _ (items_of-HasFuel path r.0) (λ items e₂.
            >>=-ne-err (handle (path <> ".[]") items additional) _
              (handles (path <> ".[]") items additional (
                omega (
                  arith,
                  lt,
                  less_deep path m r "items" items e₁ (items_some path r.0 items _ refl e₂),
                )))
              (λ n e₃. ok-HasFuel _)))

    handle_typed-HasFuel :
        (typ path : String) (m : Fields) (additional : Bool)
        → depth_fields m ≤ bound
        → HasFuel (handle_typed has_action handle typ path m additional)
    unfolding handle_typed
    handle_typed-HasFuel typ path m additional lt = ground (
      arith,
      desugar_connection_ref-HasFuel path m,
      handle_required-HasFuel path m,
      handle_object-HasFuel path m additional lt,
      handle_array-HasFuel path m additional lt,
    )

    handle_body-HasFuel :
        (path : String) (m : Fields) (additional : Bool)
        → depth_fields m ≤ bound
        → HasFuel (handle_body has_action handle path m additional)
    unfolding handle_body
    handle_body-HasFuel path m additional lt =
        >>=-ne-err (type_name path (lookup_type m)) _ (type_name-HasFuel path (lookup_type m))
          (λ typ e₁. elim (Option-cases (allowed_properties_by_types typ)) [
            | inl none_known ↦ rw none_known (λ h. unknown-HasFuel path h)
            | inr (allowed, known) ↦ rw known (
                >>=-ne-err (check_properties path allowed m) _
                  (check_properties-HasFuel path allowed m)
                  (λ u e₂. handle_typed-HasFuel typ path m additional lt))
          ])

  handle_node-HasFuel :
      (n : ℕ) (path : String) (m : Fields) (additional : Bool)
      → depth_fields m < n
      → HasFuel (handle_node has_action n path m additional)
  unfolding handle_node
  handle_node-HasFuel zero path m additional lt = absurd (omega (arith, lt))
  handle_node-HasFuel (suc n) path m additional lt =
      handle_body-HasFuel (handle_node has_action n) n (handle_node-HasFuel n) path m additional
        (omega (arith, lt))

  -- The fuel of `Kubo2openAPI`, the depth of the schema, never runs out: each schema gives a node in
  -- openAPI or one of the errors of the code.
  pub kubo2openapi-HasFuel :
      (schema : Fields) (additional : Bool) → HasFuel (kubo2openapi has_action schema additional)
  unfolding kubo2openapi
  kubo2openapi-HasFuel end additional = ok-HasFuel _
  kubo2openapi-HasFuel (field k v m) additional =
      elim (Bool-cases (has_field "$schema" (field k v m))) [
        | inl there ↦ rw (there, kubo2openapi) (ok-HasFuel _)
        | inr missing ↦
            rw (missing, kubo2openapi)
              (>>=-ne-err
                (handle_node has_action (depth (object (field k v m))) "" (field k v m) additional)
                _
                (handle_node-HasFuel (depth (object (field k v m))) "" (field k v m) additional
                  (omega arith))
                (λ r e. ok-HasFuel _))
      ]
