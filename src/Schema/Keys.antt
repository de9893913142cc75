-- ===== src/Schema/Keys.antt =====
-- The keys of a map of openAPI nodes, and the mark that `Kubo2openAPI` sets on the whole.
use kubocd.Common.{String, true, ◌≡◌, ◌≢◌, refl, ◌∙◌, inl, inr}
use kubocd.Common.{string_eq}
use kubocd.Value.{Value, Fields, end, field}
use kubocd.Value.Maps.{get_field, set_field}
use kubocd.Schema.OpenApi.{marker_connection_ref, has_field}
use kubocd.Schema.Related.{IsOpenApi, scalar, reference, map_node, list_node, get_set_ne}
use kubocd.Common.{arith, ==→≡, ==_refl, ◌⊎◌}
use kubocd.Value.Maps.{get_field-set_field}

-- The mark of the schema's dialect changes nothing that counts.
pub set_schema-IsOpenApi :
    (src m : Fields) (v : Value) → IsOpenApi src m → IsOpenApi src (set_field "$schema" v m)
unfolding string_eq
set_schema-IsOpenApi src m v (scalar typ said is t r) =
    scalar typ said is (get_set_ne "type" "$schema" v m refl ∙ t)
      (get_set_ne "required" "$schema" v m refl ∙ r)
set_schema-IsOpenApi src m v (reference contract is said set t marker c kind r) =
    reference contract is said set (get_set_ne "type" "$schema" v m refl ∙ t)
      (get_set_ne marker_connection_ref "$schema" v m refl ∙ marker) c kind
      (get_set_ne "required" "$schema" v m refl ∙ r)
set_schema-IsOpenApi src m v (map_node required is from t p r requires covers all) =
    map_node required is from (get_set_ne "type" "$schema" v m refl ∙ t)
      (get_set_ne "properties" "$schema" v m refl ∙ p)
      (get_set_ne "required" "$schema" v m refl ∙ r) requires covers all
set_schema-IsOpenApi src m v (list_node is from t i r h) =
    list_node is from (get_set_ne "type" "$schema" v m refl ∙ t)
      (get_set_ne "items" "$schema" v m refl ∙ i) (get_set_ne "required" "$schema" v m refl ∙ r) h

has_field-set_field :
    (j k : String) (v : Value) (m : Fields)
    → (j ≡ k) ⊎ (has_field j m ≡ true)
    → has_field j (set_field k v m) ≡ true
unfolding has_field
has_field-set_field j k v m h = ground (arith, get_field-set_field j k v m, ==_refl k)

has_field-cons :
    (j k : String) (v : Value) (m : Fields)
    → has_field j (field k v m) ≡ true
    → (j ≡ k) ⊎ (has_field j m ≡ true)
unfolding has_field get_field
has_field-cons j k v m h = ground (arith, ==→≡ j k)

pub nothing_in_end : (j : String) → has_field j end ≢ true
unfolding has_field get_field
nothing_in_end j h = ground (arith, h)

pub covered :
    (j k : String) (v : Value) (m properties : Fields) (w : Value)
    → (has_field j (field k v m) ≡ true) ⊎ (has_field j properties ≡ true)
    → (has_field j m ≡ true) ⊎ (has_field j (set_field k w properties) ≡ true)
covered j k v m properties w (inl there) = elim (has_field-cons j k v m there) [
  | inl same ↦ inr (has_field-set_field j k w properties (inl same))
  | inr later ↦ inl later
]
covered j k v m properties w (inr there) = inr (has_field-set_field j k w properties (inr there))
