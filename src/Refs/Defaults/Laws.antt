-- ===== src/Refs/Defaults/Laws.antt =====
-- What the test says of the parameters, which are the defaults with the Release's merged over them.
use mathlib.Core.Bool.{true≢false}
use mathlib.Core.Option.{some-injective}
use kubocd.Common.{String, ◌≡◌, refl, true, false, Option, none, some, List, [], ◌∷◌}
use kubocd.Common.{string_eq, Option-cases, inl, inr, ap, sym, ◌∙◌}
use kubocd.Value.{Value, null, bool, number, str, array, object, Fields}
use kubocd.Value.Maps.{get_field}
use kubocd.Value.Merge.{merge_maps, merge_value}
use kubocd.Refs.Defaults.{is_set_at, set_below}
use kubocd.Refs.Defaults.Lookup.{
  NodupValue, NodupTree, lookup, get_field-NodupValue, IsKeys, merged_at,
}
use kubocd.Refs.Defaults.Lookup.{is_set_at_last, is_set_at_next, lookup-eq}

missing_below :
    (next : String) (path : List String) (v : Value)
    → ((n : Fields) → is_set_at (next ∷ path) n ≡ false → lookup (next ∷ path) (object n) ≡ none)
    → set_below (some (is_set_at (next ∷ path))) (some v) ≡ false
    → lookup (next ∷ path) v ≡ none
unfolding set_below
missing_below next path (object n) rest e = rest n e
missing_below next path _ rest e = refl

-- What is not set is not there.
is_set_at-missing :
    (path : List String) (k : String) (m : Fields)
    → IsKeys (k ∷ path)
    → is_set_at (k ∷ path) m ≡ false
    → lookup (k ∷ path) (object m) ≡ none
unfolding set_below
is_set_at-missing [] k m h e = elim (Option-cases (get_field k m)) [
  | inl absent ↦ lookup-eq k [] m absent
  | inr (v, there) ↦
      absurd (true≢false (ap (set_below none) (sym there) ∙ sym (is_set_at_last k m h.0) ∙ e))
]
is_set_at-missing (next ∷ path) k m h e = elim (Option-cases (get_field k m)) [
  | inl absent ↦ lookup-eq k (next ∷ path) m absent
  | inr (v, there) ↦
      lookup-eq k (next ∷ path) m there
      ∙ missing_below next path v (λ n. is_set_at-missing path next n h.1)
          (ap (set_below (some (is_set_at (next ∷ path)))) (sym there)
            ∙ sym (is_set_at_next k next path m h.0)
            ∙ e)
]

unset_below :
    (next : String) (path : List String) (o : Option Value) (v : Value)
    → IsKeys (next ∷ path)
    → NodupValue v
    → ((m n : Fields)
        → NodupTree n
        → is_set_at (next ∷ path) n ≡ false
        → lookup (next ∷ path) (object (merge_maps m n)) ≡ lookup (next ∷ path) (object m))
    → set_below (some (is_set_at (next ∷ path))) (some v) ≡ false
    → lookup (next ∷ path) (merge_value o v)
      ≡ elim o [ none ↦ none | some w ↦ lookup (next ∷ path) w ]
unfolding set_below merge_maps
unset_below next path (some (object m)) (object n) h nodup rest e = rest m n nodup e
unset_below next path none (object n) h nodup rest e = is_set_at-missing path next n h e
unset_below next path (some null) (object n) h nodup rest e = is_set_at-missing path next n h e
unset_below next path (some (bool b)) (object n) h nodup rest e = is_set_at-missing path next n h e
unset_below next path (some (number b)) (object n) h nodup rest e =
    is_set_at-missing path next n h e
unset_below next path (some (str b)) (object n) h nodup rest e = is_set_at-missing path next n h e
unset_below next path (some (array b)) (object n) h nodup rest e = is_set_at-missing path next n h e
unset_below next path o null h nodup rest e = absurd (true≢false e)
unset_below next path o (bool b) h nodup rest e = absurd (true≢false e)
unset_below next path o (number b) h nodup rest e = absurd (true≢false e)
unset_below next path o (str b) h nodup rest e = absurd (true≢false e)
unset_below next path o (array b) h nodup rest e = absurd (true≢false e)

-- A path of keys that the Release does not set keeps what the defaults have there. The keys of
-- each of the Release's maps are distinct.
pub lookup-merge_maps-unset :
    (path : List String) (k : String) (a b : Fields)
    → IsKeys (k ∷ path)
    → NodupTree b
    → is_set_at (k ∷ path) b ≡ false
    → lookup (k ∷ path) (object (merge_maps a b)) ≡ lookup (k ∷ path) (object a)
unfolding set_below
lookup-merge_maps-unset [] k a b h nodup e = elim (Option-cases (get_field k b)) [
  | inl absent ↦ merged_at k [] a b nodup absent
  | inr (v, there) ↦
      absurd (true≢false (ap (set_below none) (sym there) ∙ sym (is_set_at_last k b h.0) ∙ e))
]
lookup-merge_maps-unset (next ∷ path) k a b h nodup e = elim (Option-cases (get_field k b)) [
  | inl absent ↦ merged_at k (next ∷ path) a b nodup absent
  | inr (v, there) ↦
      merged_at k (next ∷ path) a b nodup there
      ∙ unset_below next path (get_field k a) v h.1 (get_field-NodupValue k b nodup there)
          (λ m n. lookup-merge_maps-unset path next m n h.1)
          (ap (set_below (some (is_set_at (next ∷ path)))) (sym there)
            ∙ sym (is_set_at_next k next path b h.0)
            ∙ e)
]

merge_value-str : (o : Option Value) (v : Value) (s : String) → merge_value o v ≡ str s → v ≡ str s
unfolding merge_maps
merge_value-str (some (object m)) (object n) s e = cc
merge_value-str (some (object m)) null s e = e
merge_value-str (some (object m)) (bool b) s e = e
merge_value-str (some (object m)) (number b) s e = e
merge_value-str (some (object m)) (str b) s e = e
merge_value-str (some (object m)) (array b) s e = e
merge_value-str _ v s e = e

set_above :
    (next : String) (path : List String) (o : Option Value) (v : Value) (s : String)
    → NodupValue v
    → ((m n : Fields)
        → NodupTree n
        → is_set_at (next ∷ path) n ≡ true
        → lookup (next ∷ path) (object (merge_maps m n)) ≡ some (str s)
        → lookup (next ∷ path) (object n) ≡ some (str s))
    → set_below (some (is_set_at (next ∷ path))) (some v) ≡ true
    → lookup (next ∷ path) (merge_value o v) ≡ some (str s)
    → lookup (next ∷ path) v ≡ some (str s)
unfolding set_below merge_maps
set_above next path (some (object m)) (object n) s nodup rest e there = rest m n nodup e there
set_above next path (some (object m)) null s nodup rest e there = there
set_above next path (some (object m)) (bool b) s nodup rest e there = there
set_above next path (some (object m)) (number b) s nodup rest e there = there
set_above next path (some (object m)) (str b) s nodup rest e there = there
set_above next path (some (object m)) (array b) s nodup rest e there = there
set_above next path _ v s nodup rest e there = there

-- A string that a path of keys leads to, where the Release sets the path, is the Release's own.
-- The keys of each of the Release's maps are distinct.
pub lookup-merge_maps-set :
    (path : List String) (k : String) (a b : Fields) (s : String)
    → IsKeys (k ∷ path)
    → NodupTree b
    → is_set_at (k ∷ path) b ≡ true
    → lookup (k ∷ path) (object (merge_maps a b)) ≡ some (str s)
    → lookup (k ∷ path) (object b) ≡ some (str s)
unfolding set_below
lookup-merge_maps-set [] k a b s h nodup e there = elim (Option-cases (get_field k b)) [
  | inl absent ↦ absurd (true≢false (sym e ∙ is_set_at_last k b h.0 ∙ ap (set_below none) absent))
  | inr (v, found) ↦
      lookup-eq k [] b found
      ∙ ap some (
          merge_value-str (get_field k a) v s
            (some-injective _ _ (sym (merged_at k [] a b nodup found) ∙ there)))
]
lookup-merge_maps-set (next ∷ path) k a b s h nodup e there = elim (Option-cases (get_field k b)) [
  | inl absent ↦ absurd (
      true≢false (
        sym e
        ∙ is_set_at_next k next path b h.0
        ∙ ap (set_below (some (is_set_at (next ∷ path)))) absent))
  | inr (v, found) ↦
      lookup-eq k (next ∷ path) b found
      ∙ set_above next path (get_field k a) v s (get_field-NodupValue k b nodup found)
          (λ m n. lookup-merge_maps-set path next m n s h.1)
          (ap (set_below (some (is_set_at (next ∷ path)))) (sym found)
            ∙ sym (is_set_at_next k next path b h.0)
            ∙ e)
          (sym (merged_at k (next ∷ path) a b nodup found) ∙ there)
]
