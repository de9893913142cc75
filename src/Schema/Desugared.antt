-- ===== src/Schema/Desugared.antt =====
-- What a connectionRef becomes, and what the other nodes keep.
use mathlib.Core.Path.{subst}
use kubocd.Common.{String, Bool, false, Option, none, some, ◌≡◌, ◌≢◌, refl, sym, ap, ◌∙◌, inl, inr}
use kubocd.Common.{ok, >>=-eq-ok, ok-injective, err-ne-ok, arith, ◌==◌, string_eq, Bool-cases}
use kubocd.Value.{Value, null, bool, str, Fields, end, field}
use kubocd.Value.Maps.{get_field, set_field, get_field-delete_field}
use kubocd.Common.{◌||◌, ==_refl}
use kubocd.Schema.OpenApi.{
  type_name, lookup_type, handle_required, contract_of, connection_kind, check_default,
  desugar_connection_ref, marker_connection_ref, has_field, type_connection_ref,
}
use kubocd.Schema.Parts.{required_cases}
use kubocd.Schema.Related.{IsOpenApi, reference, get_set, get_set_ne, get_delete_ne}

-- `required` is gone, and nothing else.
pub required_gone :
    (path : String) (m : Fields) (r : Fields × Bool) (req : Option Value)
    → get_field "required" m ≡ req
    → handle_required path m ≡ ok r
    → get_field "required" r.0 ≡ none
unfolding handle_required
required_gone path m r none e h =
    subst (λ x. get_field "required" x ≡ none)
      (ap (λ x. x.0) (ok-injective (rw (e, handle_required) at h))) e
required_gone path m r (some (bool b)) e h =
    subst (λ x. get_field "required" x ≡ none)
      (ap (λ x. x.0) (ok-injective (rw (e, handle_required) at h)))
      (ground (arith, get_field-delete_field "required" "required" m))
required_gone path m r (some v) e h = absurd (err-ne-ok (rw (e, handle_required) at h))

pub others_stay :
    (path : String) (m : Fields) (r : Fields × Bool) (j : String)
    → (j == "required") ≡ false
    → handle_required path m ≡ ok r
    → get_field j r.0 ≡ get_field j m
others_stay path m r j other h = elim (required_cases path m r _ refl h) [
  | inl same ↦ ap (get_field j) (sym same)
  | inr less ↦ ap (get_field j) (sym less) ∙ get_delete_ne j "required" m other
]

contract_of-set :
    (path : String) (m : Fields) (contract : String) (c : Option Value)
    → get_field "contract" m ≡ c
    → contract_of path m ≡ ok contract
    → (get_field "contract" m ≡ some (str contract)) × (contract ≢ "")
unfolding contract_of
contract_of-set path m contract none e h = absurd (err-ne-ok (rw (e, contract_of) at h))
contract_of-set path m contract (some (str s)) e h = elim (Bool-cases (s == "")) [
  | inl empty ↦ absurd (err-ne-ok (rw (e, empty, contract_of) at h))
  | inr set ↦
      let same : s ≡ contract = ok-injective (rw (e, set, contract_of) at h) in
      (e ∙ ap (λ x. some (str x)) same, ground (arith, ==_refl s))
]
contract_of-set path m contract (some v) e h = absurd (err-ne-ok (rw (e, contract_of) at h))

connection_kind-kind :
    (path : String) (m marker marker' : Fields) (kind : Option Value)
    → get_field "kind" m ≡ kind
    → get_field "kind" marker ≡ none
    → connection_kind path m marker ≡ ok marker'
    → get_field "kind" marker' ≡ get_field "kind" m
unfolding connection_kind
connection_kind-kind path m marker marker' none k e h =
    subst (λ x. get_field "kind" x ≡ get_field "kind" m)
      (ok-injective (rw (k, connection_kind) at h)) (e ∙ sym k)
connection_kind-kind path m marker marker' (some (str s)) k e h =
    elim (Bool-cases (s == "Connection" || s == "ClusterConnection")) [
      | inl known ↦
          subst (λ x. get_field "kind" x ≡ get_field "kind" m)
            (ok-injective (rw (k, known, connection_kind) at h))
            (get_set "kind" (str s) marker ∙ sym k)
      | inr unknown ↦ absurd (err-ne-ok (rw (k, unknown, connection_kind) at h))
    ]
connection_kind-kind path m marker marker' (some w) k e h =
    absurd (err-ne-ok (rw (k, connection_kind) at h))

kind_contract :
    (s : String) (marker : Fields) (v : Value)
    → get_field "contract" marker ≡ some v
    → get_field "contract" (set_field "kind" (str s) marker) ≡ some v
unfolding string_eq
kind_contract s marker v e = get_set_ne "contract" "kind" (str s) marker refl ∙ e

connection_kind-contract :
    (path : String) (m marker marker' : Fields) (v : Value) (kind : Option Value)
    → get_field "kind" m ≡ kind
    → get_field "contract" marker ≡ some v
    → connection_kind path m marker ≡ ok marker'
    → get_field "contract" marker' ≡ some v
unfolding connection_kind
connection_kind-contract path m marker marker' v none k e h =
    subst (λ x. get_field "contract" x ≡ some v) (ok-injective (rw (k, connection_kind) at h)) e
connection_kind-contract path m marker marker' v (some (str s)) k e h =
    elim (Bool-cases (s == "Connection" || s == "ClusterConnection")) [
      | inl known ↦
          subst (λ x. get_field "contract" x ≡ some v)
            (ok-injective (rw (k, known, connection_kind) at h)) (kind_contract s marker v e)
      | inr unknown ↦ absurd (err-ne-ok (rw (k, unknown, connection_kind) at h))
    ]
connection_kind-contract path m marker marker' v (some w) k e h =
    absurd (err-ne-ok (rw (k, connection_kind) at h))

pub type_name-str :
    (path : String) (t : Value) (typ : String) → type_name path t ≡ ok typ → t ≡ str typ
unfolding type_name
type_name-str path (str s) typ h = elim (Bool-cases (s == "")) [
  | inl e ↦ absurd (err-ne-ok (rw (e, type_name) at h))
  | inr e ↦ ap (λ x. str x) (ok-injective (rw (e, type_name) at h))
]
type_name-str path t typ h = absurd (err-ne-ok h)

str-injective : (s t : String) → str s ≡ str t → s ≡ t
str-injective s t h = cc

null-ne-str : (s : String) → null ≢ str s
null-ne-str s h = cc

-- A node whose type is neither a map nor a list says so itself.
pub said_type :
    (m : Fields) (typ : String) (t : Option Value)
    → get_field "type" m ≡ t
    → lookup_type m ≡ str typ
    → typ ≢ "object"
    → typ ≢ "array"
    → get_field "type" m ≡ some (str typ)
unfolding lookup_type
said_type m typ (some t) e h no_object no_array = e ∙ ap (λ x. some x) (rw (e, lookup_type) at h)
said_type m typ none e h no_object no_array = elim (Bool-cases (has_field "properties" m)) [
  | inl there ↦
      absurd (no_object (sym (str-injective "object" typ (rw (e, there, lookup_type) at h))))
  | inr missing ↦ elim (Bool-cases (has_field "items" m)) [
    | inl there ↦
        absurd
          (no_array (sym (str-injective "array" typ (rw (e, missing, there, lookup_type) at h))))
    | inr nothing ↦ absurd (null-ne-str typ (rw (e, missing, nothing, lookup_type) at h))
  ]
]

pub type_stays :
    (path : String) (m : Fields) (r : Fields × Bool)
    → handle_required path m ≡ ok r
    → get_field "type" r.0 ≡ get_field "type" m
unfolding string_eq
type_stays path m r h = others_stay path m r "type" refl h

module _ (has_action : String → Bool) where
  pub desugar_connection_ref-IsOpenApi :
      (path : String) (m : Fields) (r : Fields × Bool)
      → get_field "type" m ≡ some (str type_connection_ref)
      → desugar_connection_ref has_action path m ≡ ok r
      → IsOpenApi m r.0
  unfolding desugar_connection_ref string_eq get_field
  desugar_connection_ref-IsOpenApi path m r is h =
      let (contract, h₁, rest₁) = >>=-eq-ok (contract_of path m) _ h in
      let (said, set) = contract_of-set path m contract _ refl h₁ in
      let (u, h₂, rest₂) = >>=-eq-ok (check_default has_action path m) _ rest₁ in
      let (marker, h₃, rest₃) =
        >>=-eq-ok (connection_kind path m (field "contract" (str contract) end)) _ rest₂ in
      let (r₁, h₄, done) = >>=-eq-ok (handle_required path m) _ rest₃ in
      subst (IsOpenApi m) (ap (λ x. x.0) (ok-injective done)) (
        reference contract is said set
          (get_set_ne "type" marker_connection_ref _ _ refl
            ∙ get_delete_ne "type" "kind" _ refl
            ∙ get_delete_ne "type" "contract" _ refl
            ∙ get_set "type" _ _)
          (get_set marker_connection_ref _ _)
          (connection_kind-contract path m _ marker (str contract) _ refl refl h₃)
          (connection_kind-kind path m _ marker _ refl refl h₃)
          (get_set_ne "required" marker_connection_ref _ _ refl
            ∙ get_delete_ne "required" "kind" _ refl
            ∙ get_delete_ne "required" "contract" _ refl
            ∙ get_set_ne "required" "type" _ _ refl
            ∙ required_gone path m r₁ _ refl h₄))
