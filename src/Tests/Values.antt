-- ===== src/Tests/Values.antt =====
-- internal/misc/merge.go and internal/misc/prune.go at concrete maps.
use kubocd.Common.{String, ◌≡◌, ◌≢◌, refl, string_eq, arith}
use text.Mathlib.TextEquality.{eq_iff}
use kubocd.Value.{null, number, str, array, object, nil, item, Fields, end, field}
use kubocd.Value.Maps.{get_field, set_field, NodupFields}
use kubocd.Value.Merge.{merge_maps, SameEntries}
use kubocd.Value.Merge.{merge_maps_order}
use kubocd.Value.Prune.{prune, FieldsPruned, prune-FieldsPruned}

abbrev defaults : Fields
defaults =
    field "db" (object (field "host" (str "local") (field "port" (number "1") end)))
      (field "size" (number "2") end)

abbrev overrides : Fields
overrides = field "size" (number "3") (field "db" (object (field "host" (str "far") end)) end)

abbrev overrides_in_order : Fields
overrides_in_order =
    field "db" (object (field "host" (str "far") end)) (field "size" (number "3") end)

abbrev sparse : Fields
sparse = field "gone" null (
    field "list" (array (item null (item (object (field "x" null end)) (item (str "s") nil))))
      (field "empty" (object (field "y" null end)) end))

overrides-Nodup : NodupFields overrides
unfolding get_field string_eq
overrides-Nodup = (refl, (refl, tt))

overrides_in_order-Nodup : NodupFields overrides_in_order
unfolding get_field string_eq
overrides_in_order-Nodup = (refl, (refl, tt))

defaults-Nodup : NodupFields defaults
unfolding get_field string_eq
defaults-Nodup = (refl, (refl, tt))

abbrev size : String
size = "size"

abbrev db : String
db = "db"

size-ne-db : size ≢ db
size-ne-db = ground (arith, eq_iff size db)

same_overrides : SameEntries overrides overrides_in_order
unfolding get_field
same_overrides k = ground (arith, size-ne-db)

merged :
    merge_maps defaults overrides
    ≡ field "db"
        (object (field "host" (str "far") (field "port" (number "1") end)))
        (field "size" (number "3") end)
unfolding merge_maps get_field set_field string_eq
merged = refl

pruned : prune sparse ≡ field "list" (array (item (str "s") nil)) end
unfolding prune
pruned = refl

merge_maps_order_example :
    SameEntries (merge_maps defaults overrides) (merge_maps defaults overrides_in_order)
merge_maps_order_example =
    merge_maps_order defaults defaults overrides overrides_in_order (λ k. refl) same_overrides
      overrides-Nodup overrides_in_order-Nodup

prune-FieldsPruned_example : FieldsPruned (prune sparse)
prune-FieldsPruned_example = prune-FieldsPruned sparse
