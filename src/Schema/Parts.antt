-- ===== src/Schema/Parts.antt =====
-- The parts of a node that `handleNode` of internal/kuboschema/kuboschema.go goes into, and the steps
-- that take no fuel.
use kubocd.Common.{◌<◌, String, Bool, Option, none, some, ◌≡◌, ◌≢◌, refl, sym, ap, ◌∙◌, inl, inr}
use kubocd.Common.{
  List, Result, ok, err, ok-injective, arith, string_eq, Option-cases, err-ne-ok, ◌⊎◌,
}
use mathlib.Core.Path.{subst}
use kubocd.Value.{Value, bool, object, Fields, end, field}
use kubocd.Value.Maps.{get_field, get_field-delete_field, delete_field}
use kubocd.Schema.Depth.{depth_fields, get_field-depth}
use kubocd.Schema.OpenApi.{
  SchemaError, out_of_fuel, property_not_map, type_name, check_properties, handle_required,
  contract_of, connection_kind, unknown_type,
}
use kubocd.Schema.Nodes.{additional_of, properties_of, properties_map, items_of}

-- The result is not that the fuel ran out.
abbrev pub HasFuel {ℓ} : {A : Type ℓ} → Result SchemaError A → Type ℓ
HasFuel {A = A} r = r ≢ err out_of_fuel

pub ok-HasFuel : {A : Type 0} (a : A) → HasFuel {A = A} (ok a)
ok-HasFuel a h = cc

pub type_name-HasFuel : (path : String) (v : Value) → HasFuel (type_name path v)
unfolding type_name
type_name-HasFuel path v h = ground (arith, h)

pub check_properties-HasFuel :
    (path : String) (allowed : List String) (m : Fields) → HasFuel (check_properties path allowed m)
unfolding check_properties
check_properties-HasFuel path allowed end h = cc
check_properties-HasFuel path allowed (field k v m) h =
    ground (arith, h, check_properties-HasFuel path allowed m)

pub handle_required-HasFuel : (path : String) (m : Fields) → HasFuel (handle_required path m)
unfolding handle_required
handle_required-HasFuel path m h = ground (arith, h)

pub contract_of-HasFuel : (path : String) (m : Fields) → HasFuel (contract_of path m)
unfolding contract_of
contract_of-HasFuel path m h = ground (arith, h)

pub connection_kind-HasFuel :
    (path : String) (m marker : Fields) → HasFuel (connection_kind path m marker)
unfolding connection_kind
connection_kind-HasFuel path m marker h = ground (arith, h)

pub additional_of-HasFuel :
    (path : String) (m : Fields) (additional : Bool) → HasFuel (additional_of path m additional)
unfolding additional_of
additional_of-HasFuel path m additional h = ground (arith, h)

pub properties_of-HasFuel : (path : String) (m : Fields) → HasFuel (properties_of path m)
unfolding properties_of
properties_of-HasFuel path m h = ground (arith, h)

pub properties_map-HasFuel : (path : String) (v : Value) → HasFuel (properties_map path v)
unfolding properties_map
properties_map-HasFuel path v h = ground (arith, h)

pub items_of-HasFuel : (path : String) (m : Fields) → HasFuel (items_of path m)
unfolding items_of
items_of-HasFuel path m h = ground (arith, h)

pub required_cases :
    (path : String) (m : Fields) (r : Fields × Bool) (req : Option Value)
    → get_field "required" m ≡ req
    → handle_required path m ≡ ok r
    → (m ≡ r.0) ⊎ (delete_field "required" m ≡ r.0)
unfolding handle_required
required_cases path m r none e h = inl (ap (λ x. x.0) (ok-injective (rw (e, handle_required) at h)))
required_cases path m r (some (bool b)) e h =
    inr (ap (λ x. x.0) (ok-injective (rw (e, handle_required) at h)))
required_cases path m r (some v) e h = absurd (err-ne-ok (rw (e, handle_required) at h))

-- What is left of the node holds nothing new.
handle_required-keeps :
    (path : String) (m : Fields) (r : Fields × Bool) (j : String) (v : Value)
    → handle_required path m ≡ ok r
    → get_field j r.0 ≡ some v
    → get_field j m ≡ some v
handle_required-keeps path m r j v h e = elim (required_cases path m r _ refl h) [
  | inl same ↦ subst (λ x. get_field j x ≡ some v) (sym same) e
  | inr less ↦
      let e' : get_field j (delete_field "required" m) ≡ some v =
        subst (λ x. get_field j x ≡ some v) (sym less) e in
      ground (arith, get_field-delete_field j "required" m, e')
]

pub properties_map-object :
    (path : String) (v : Value) (m : Fields) → properties_map path v ≡ ok m → v ≡ object m
unfolding properties_map
properties_map-object path (object m') m h = ap (λ x. object x) (ok-injective h)
properties_map-object path v m h = absurd (err-ne-ok h)

pub properties_of-some :
    (path : String) (m : Fields) (v : Value)
    → properties_of path m ≡ ok v
    → get_field "properties" m ≡ some v
unfolding properties_of
properties_of-some path m v h = elim (Option-cases (get_field "properties" m)) [
  | inl e ↦ absurd (err-ne-ok (rw (e, properties_of) at h))
  | inr (w, e) ↦ e ∙ ap (λ x. some x) (ok-injective (rw (e, properties_of) at h))
]

pub items_some :
    (path : String) (m items : Fields) (v : Option Value)
    → get_field "items" m ≡ v
    → items_of path m ≡ ok items
    → get_field "items" m ≡ some (object items)
unfolding items_of
items_some path m items none e h = absurd (err-ne-ok (rw (e, items_of) at h))
items_some path m items (some (object l)) e h =
    e ∙ ap (λ x. some (object x)) (ok-injective (rw (e, items_of) at h))
items_some path m items (some v) e h = absurd (err-ne-ok (rw (e, items_of) at h))

-- A map under a key of what is left of the node is less deep than the node.
pub less_deep :
    (path : String) (m : Fields) (r : Fields × Bool) (j : String) (l : Fields)
    → handle_required path m ≡ ok r
    → get_field j r.0 ≡ some (object l)
    → depth_fields l < depth_fields m
less_deep path m r j l h e =
    omega (arith, get_field-depth j m (object l) (handle_required-keeps path m r j (object l) h e))

pub map-HasFuel : (path : String) → HasFuel {A = Fields × Bool} (err (property_not_map path))
map-HasFuel path h = cc

pub unknown-HasFuel : (path : String) → HasFuel {A = Fields × Bool} (err (unknown_type path))
unknown-HasFuel path h = cc
