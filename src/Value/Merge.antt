-- ===== src/Value/Merge.antt =====
-- internal/misc/merge.go: `MergeMaps`.
use kubocd.Common.{String, ◌≡◌, refl, Option, none, some, arith, string_eq}
use kubocd.Value.{Value, object, Fields, end, field}
use kubocd.Value.Maps.{get_field, set_field, get_field-set_field, NodupFields}
use kubocd.Value.Maps.{set_field-NodupFields}

-- The second loop of `MergeMaps`, over the entries of `b`; `out` starts as a copy of `a`. The
-- value that a key gets is `merge_value` of what `out` holds under it.
unfoldable mutual
  pub merge_maps : Fields → Fields → Fields
  merge_maps out end = out
  merge_maps out (field k v b) = merge_maps (set_field k (merge_value (get_field k out) v) out) b

  pub merge_value : Option Value → Value → Value
  merge_value (some (object bv)) (object v) = object (merge_maps bv v)
  merge_value old v = v

-- What a key of `b` gives over the entry of `a`.
abbrev pub override : Option Value → Option Value → Option Value
override old none = old
override old (some v) = some (merge_value old v)

merge_maps_absent :
    (k : String) (a b : Fields)
    → get_field k b ≡ none
    → get_field k (merge_maps a b) ≡ get_field k a
unfolding merge_maps get_field
merge_maps_absent k a end h = refl
merge_maps_absent k a (field j v b) h = ground (
  arith,
  merge_maps_absent k (set_field j (merge_value (get_field j a) v) a) b,
  get_field-set_field k j (merge_value (get_field j a) v) a,
)

pub get_field-merge_maps :
    (k : String) (a b : Fields)
    → NodupFields b
    → get_field k (merge_maps a b) ≡ override (get_field k a) (get_field k b)
unfolding merge_maps get_field
get_field-merge_maps k a end h = refl
get_field-merge_maps k a (field j v b) (fresh, rest) = ground (
  arith,
  get_field-merge_maps k (set_field j (merge_value (get_field j a) v) a) b rest,
  get_field-set_field k j (merge_value (get_field j a) v) a,
)

-- The keys of a merge are distinct where those of the first map are.
pub merge_maps-NodupFields : (a b : Fields) → NodupFields a → NodupFields (merge_maps a b)
unfolding merge_maps
merge_maps-NodupFields a end h = h
merge_maps-NodupFields a (field j v b) h =
    merge_maps-NodupFields (set_field j (merge_value (get_field j a) v) a) b
      (set_field-NodupFields j (merge_value (get_field j a) v) a h)

abbrev pub SameEntries : Fields → Fields → Type 0
SameEntries a b = (k : String) → get_field k a ≡ get_field k b

-- The order in which the entries of the two maps are met does not show in the merge: two lists
-- of the same entries for each map, the second's with distinct keys, give the same entries.
pub merge_maps_order :
    (a a' b b' : Fields)
    → SameEntries a a'
    → SameEntries b b'
    → NodupFields b
    → NodupFields b'
    → SameEntries (merge_maps a b) (merge_maps a' b')
merge_maps_order a a' b b' ha hb n n' k =
    rw (get_field-merge_maps k a b n, get_field-merge_maps k a' b' n', ha k, hb k)
