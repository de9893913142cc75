-- ===== src/Refs/Defaults/Lookup.antt =====
-- The value at a path of keys, in a map and in a merge of two maps.
use mathlib.Core.Path.{subst}
use mathlib.Core.Option.{none-ne-some, some-injective}
use kubocd.Common.{String, ◌≡◌, refl, false, Option, none, some, List, [], ◌∷◌}
use kubocd.Common.{All, ◌==◌, string_eq, Bool-cases, inl, inr, ap, ◌∙◌}
use kubocd.Value.{Value, object, Fields, end, field}
use kubocd.Value.Maps.{get_field, NodupFields}
use kubocd.Value.Merge.{merge_maps, override, get_field-merge_maps}
use kubocd.Refs.Defaults.{is_set_at, set_below}

-- The keys of a map are distinct, in every map on the way as well.
abbrev mutual
  pub NodupValue : Value → Type 0
  NodupValue (object m) = NodupTree m
  NodupValue v = Unit {0}

  pub NodupTree : Fields → Type 0
  NodupTree end = Unit {0}
  NodupTree (field k v m) = (get_field k m ≡ none) × NodupValue v × NodupTree m

-- The value at a path of keys.
abbrev pub lookup : List String → Value → Option Value
lookup [] v = some v
lookup (k ∷ path) (object m) = elim (get_field k m) [ none ↦ none | some v ↦ lookup path v ]
lookup (k ∷ path) v = none

pub NodupTree-NodupFields : (m : Fields) → NodupTree m → NodupFields m
NodupTree-NodupFields end h = tt
NodupTree-NodupFields (field k v m) (fresh, below, rest) = (fresh, NodupTree-NodupFields m rest)

pub get_field-NodupValue :
    (k : String) (m : Fields) {v : Value} → NodupTree m → get_field k m ≡ some v → NodupValue v
unfolding get_field
get_field-NodupValue k end h e = absurd (none-ne-some _ e)
get_field-NodupValue k (field j w m) (fresh, below, rest) e = elim (Bool-cases (k == j)) [
  | inl same ↦ subst NodupValue (some-injective _ _ (rw same at e)) below
  | inr other ↦ get_field-NodupValue k m rest (rw other at e)
]

-- No segment stands for the items of a list.
abbrev pub IsKeys : List String → Type 0
IsKeys = All (λ (seg : String). (seg == "[]") ≡ false)

pub is_set_at_last :
    (k : String) (m : Fields)
    → (k == "[]") ≡ false
    → is_set_at (k ∷ []) m ≡ set_below none (get_field k m)
unfolding is_set_at
is_set_at_last k m key = rw key refl

pub is_set_at_next :
    (k next : String) (path : List String) (m : Fields)
    → (k == "[]") ≡ false
    → is_set_at (k ∷ next ∷ path) m ≡ set_below (some (is_set_at (next ∷ path))) (get_field k m)
unfolding is_set_at
is_set_at_next k next path m key = rw key refl

pub lookup-eq :
    (k : String) (path : List String) (m : Fields) {o : Option Value}
    → get_field k m ≡ o
    → lookup (k ∷ path) (object m) ≡ elim o [ none ↦ none | some v ↦ lookup path v ]
lookup-eq k path m e = rw (e, lookup) refl

pub merged_at :
    (k : String) (path : List String) (a b : Fields) {o : Option Value}
    → NodupTree b
    → get_field k b ≡ o
    → lookup (k ∷ path) (object (merge_maps a b))
      ≡ elim (override (get_field k a) o) [ none ↦ none | some v ↦ lookup path v ]
merged_at k path a b nodup e =
    lookup-eq k path (merge_maps a b)
      (get_field-merge_maps k a b (NodupTree-NodupFields b nodup) ∙ ap (override (get_field k a)) e)
