-- ===== src/Schema/Flags.antt =====
-- Which nodes `handleNode` says are required, and the list of them that a map gets.
use mathlib.Core.Path.{subst}
use kubocd.Common.{
  ℕ, zero, suc, String, ◌<>◌, Bool, true, false, Option, none, some, ◌≡◌, ◌∙◌, refl, sym, ap, ◌⊎◌,
  inl, inr, ◌↔◌,
}
use kubocd.Common.{arith, ok, >>=-eq-ok, ok-injective, err-ne-ok, ◌==◌, string_eq, Bool-cases}
use kubocd.Common.{Option-cases, if◌then◌else◌}
use kubocd.Value.{Value, bool, str, object, Items, nil, item, Fields, end, field}
use kubocd.Value.Maps.{get_field}
use kubocd.Schema.OpenApi.{
  type_name, lookup_type, check_properties, handle_required, type_connection_ref,
  allowed_properties_by_types, contract_of, check_default, connection_kind, desugar_connection_ref,
}
use kubocd.Schema.Nodes.{
  Handled, push, handle_properties, handle_property, additional_of, properties_of, properties_map,
  items_of, handle_object, handle_array, handle_typed, handle_body, handle_node, is_scalar,
}
use kubocd.Schema.Related.{IsEntry, InItems, IsRequired}

-- The flag of a result says whether the node is required.
abbrev pub IsFlagged : Fields → Fields × Bool → Type 0
IsFlagged m r = (r.1 ≡ true) ↔ IsRequired m

handle_required-IsFlagged :
    (path : String) (m : Fields) (r : Fields × Bool) (req : Option Value)
    → get_field "required" m ≡ req
    → handle_required path m ≡ ok r
    → IsFlagged m r
unfolding handle_required
handle_required-IsFlagged path m r none e h =
    let flag = ap (λ x. x.1) (ok-injective (rw (e, handle_required) at h)) in
    ground (arith, flag, e)
handle_required-IsFlagged path m r (some (bool b)) e h =
    let flag = ap (λ x. x.1) (ok-injective (rw (e, handle_required) at h)) in
    ground (arith, flag, e)
handle_required-IsFlagged path m r (some v) e h = absurd (err-ne-ok (rw (e, handle_required) at h))

same_flag :
    (path : String) (m : Fields) (r₁ r : Fields × Bool)
    → handle_required path m ≡ ok r₁
    → r₁.1 ≡ r.1
    → IsFlagged m r
same_flag path m r₁ r h e =
    let flagged = handle_required-IsFlagged path m r₁ _ refl h in ground (arith, flagged, e)

InItems-push : (v w : Value) (l : Items) → InItems v (push w l) ↔ ((w ≡ v) ⊎ InItems v l)
InItems-push v w nil = ground arith
InItems-push v w (item u l) = ground (arith, InItems-push v w l)

-- `append`, if the flag is set.
InItems-push_if :
    (k j : String) (b : Bool) (l : Items)
    → InItems (str k) (if b then push (str j) l else l)
      ↔ (((j ≡ k) × (b ≡ true)) ⊎ InItems (str k) l)
InItems-push_if k j true l = ground (arith, InItems-push (str k) (str j) l)
InItems-push_if k j false l = ground arith

object-injective : (m n : Fields) → object m ≡ object n → m ≡ n
object-injective m n h = cc

module _ (has_action : String → Bool) where
  module _ (handle : String → Fields → Bool → Handled) where
    handle_object-IsFlagged :
        (path : String) (m : Fields) (additional : Bool) (r : Fields × Bool)
        → handle_object has_action handle path m additional ≡ ok r
        → IsFlagged m r
    unfolding handle_object
    handle_object-IsFlagged path m additional r h =
        let (r₁, h₁, rest₁) = >>=-eq-ok (handle_required path m) _ h in
        let (raw, h₂, rest₂) = >>=-eq-ok (properties_of path r₁.0) _ rest₁ in
        let (additional', h₃, rest₃) = >>=-eq-ok (additional_of path r₁.0 additional) _ rest₂ in
        let (properties, h₄, rest₄) = >>=-eq-ok (properties_map path raw) _ rest₃ in
        let (out, h₅, done) =
          >>=-eq-ok (handle_properties has_action handle path additional' properties end nil) _
            rest₄ in
        same_flag path m r₁ r h₁ (ap (λ x. x.1) (ok-injective done))

    handle_array-IsFlagged :
        (path : String) (m : Fields) (additional : Bool) (r : Fields × Bool)
        → handle_array has_action handle path m additional ≡ ok r
        → IsFlagged m r
    unfolding handle_array
    handle_array-IsFlagged path m additional r h =
        let (r₁, h₁, rest₁) = >>=-eq-ok (handle_required path m) _ h in
        let (items, h₂, rest₂) = >>=-eq-ok (items_of path r₁.0) _ rest₁ in
        let (n, h₃, done) = >>=-eq-ok (handle (path <> ".[]") items additional) _ rest₂ in
        same_flag path m r₁ r h₁ (ap (λ x. x.1) (ok-injective done))

    desugar_connection_ref-IsFlagged :
        (path : String) (m : Fields) (r : Fields × Bool)
        → desugar_connection_ref has_action path m ≡ ok r
        → IsFlagged m r
    unfolding desugar_connection_ref
    desugar_connection_ref-IsFlagged path m r h =
        let (contract, h₁, rest₁) = >>=-eq-ok (contract_of path m) _ h in
        let (u, h₂, rest₂) = >>=-eq-ok (check_default has_action path m) _ rest₁ in
        let (marker, h₃, rest₃) =
          >>=-eq-ok (connection_kind path m (field "contract" (str contract) end)) _ rest₂ in
        let (r₁, h₄, done) = >>=-eq-ok (handle_required path m) _ rest₃ in
        same_flag path m r₁ r h₄ (ap (λ x. x.1) (ok-injective done))

    handle_typed-IsFlagged :
        (typ path : String) (m : Fields) (additional : Bool) (r : Fields × Bool)
        → handle_typed has_action handle typ path m additional ≡ ok r
        → IsFlagged m r
    unfolding handle_typed
    handle_typed-IsFlagged typ path m additional r h =
        elim (Bool-cases (typ == type_connection_ref)) [
          | inl e ↦ desugar_connection_ref-IsFlagged path m r (rw (e, handle_typed) at h)
          | inr e ↦ elim (Bool-cases (is_scalar typ)) [
            | inl is ↦ handle_required-IsFlagged path m r _ refl (rw (e, is, handle_typed) at h)
            | inr isnt ↦ elim (Bool-cases (typ == "object")) [
              | inl o ↦
                  handle_object-IsFlagged path m additional r (rw (e, isnt, o, handle_typed) at h)
              | inr no_object ↦ elim (Bool-cases (typ == "array")) [
                | inl a ↦
                    handle_array-IsFlagged path m additional r
                      (rw (e, isnt, no_object, a, handle_typed) at h)
                | inr other ↦ absurd (err-ne-ok (rw (e, isnt, no_object, other, handle_typed) at h))
              ]
            ]
          ]
        ]

    pub handle_body-IsFlagged :
        (path : String) (m : Fields) (additional : Bool) (r : Fields × Bool)
        → handle_body has_action handle path m additional ≡ ok r
        → IsFlagged m r
    unfolding handle_body
    handle_body-IsFlagged path m additional r h =
        let (typ, h₁, rest) = >>=-eq-ok (type_name path (lookup_type m)) _ h in
        elim (Option-cases (allowed_properties_by_types typ)) [
          | inl unknown ↦ absurd (err-ne-ok (rw unknown at rest))
          | inr (allowed, known) ↦
              let (u, h₂, typed) =
                >>=-eq-ok (check_properties path allowed m)
                  (λ u. handle_typed has_action handle typ path m additional) (rw known at rest) in
              handle_typed-IsFlagged typ path m additional r typed
        ]

  module _ (handle : String → Fields → Bool → Handled)
      (flags : (path : String) (m : Fields) (additional : Bool) (r : Fields × Bool)
        → handle path m additional ≡ ok r
        → IsFlagged m r) where
    handle_property-IsFlagged :
        (path : String) (v : Value) (additional : Bool) (r : Fields × Bool)
        → handle_property has_action handle path v additional ≡ ok r
        → (node : Fields) × (v ≡ object node) × IsFlagged node r
    unfolding handle_property
    handle_property-IsFlagged path (object m) additional r h =
        (m, refl, flags path m additional r h)
    handle_property-IsFlagged path v additional r h = absurd (err-ne-ok h)

    -- What the list has was there, or is the key of a required node.
    pub handle_properties-listed :
        (path : String) (additional : Bool) (m properties : Fields) (required : Items)
        (out : Fields × Items) (k : String)
        → handle_properties has_action handle path additional m properties required ≡ ok out
        → InItems (str k) out.1
        → InItems (str k) required ⊎ ((node : Fields) × IsEntry k node m × IsRequired node)
    unfolding handle_properties
    handle_properties-listed path additional end properties required out k h there =
        inl (subst (λ x. InItems (str k) x) (sym (ap (λ x. x.1) (ok-injective h))) there)
    handle_properties-listed path additional (field j v m) properties required out k h there =
        let (r, h₁, rest) =
          >>=-eq-ok (handle_property has_action handle (path <> ("." <> j)) v additional) _ h in
        let (node, is, flagged) =
          handle_property-IsFlagged (path <> ("." <> j)) v additional r h₁ in
        elim (handle_properties-listed path additional m _ _ out k rest there) [
          | inr (later, entry, set) ↦ inr (later, inr entry, set)
          | inl before ↦ elim ((InItems-push_if k j r.1 required).0 before) [
            | inl (same, set) ↦ inr (node, inl (same, is), flagged.0 set)
            | inr kept ↦ inl kept
          ]
        ]

    pub handle_properties-lists :
        (path : String) (additional : Bool) (m properties : Fields) (required : Items)
        (out : Fields × Items) (k : String)
        → handle_properties has_action handle path additional m properties required ≡ ok out
        → InItems (str k) required ⊎ ((node : Fields) × IsEntry k node m × IsRequired node)
        → InItems (str k) out.1
    unfolding handle_properties
    handle_properties-lists path additional end properties required out k h (inl there) =
        subst (λ x. InItems (str k) x) (ap (λ x. x.1) (ok-injective h)) there
    handle_properties-lists path additional end properties required out k h
          (inr (node, entry, set)) =
        absurd entry
    handle_properties-lists path additional (field j v m) properties required out k h there =
        let (r, h₁, rest) =
          >>=-eq-ok (handle_property has_action handle (path <> ("." <> j)) v additional) _ h in
        let (node, is, flagged) =
          handle_property-IsFlagged (path <> ("." <> j)) v additional r h₁ in
        handle_properties-lists path additional m _ _ out k rest (elim there [
          | inl before ↦ inl ((InItems-push_if k j r.1 required).1 (inr before))
          | inr (source, inl (same, here), set) ↦
              let set' : IsRequired node =
                subst IsRequired (object-injective source node (sym here ∙ is)) set in
              inl ((InItems-push_if k j r.1 required).1 (inl (same, flagged.1 set')))
          | inr (source, inr later, set) ↦ inr (source, later, set)
        ])

  pub handle_node-IsFlagged :
      (n : ℕ) (path : String) (m : Fields) (additional : Bool) (r : Fields × Bool)
      → handle_node has_action n path m additional ≡ ok r
      → IsFlagged m r
  unfolding handle_node
  handle_node-IsFlagged zero path m additional r h = absurd (err-ne-ok h)
  handle_node-IsFlagged (suc n) path m additional r h =
      handle_body-IsFlagged (handle_node has_action n) path m additional r h
