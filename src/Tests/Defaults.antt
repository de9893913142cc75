-- ===== src/Tests/Defaults.antt =====
-- `isSetAt` of internal/controller/release_paramrefs.go at a Release that sets one of two names.
use kubocd.Common.{◌≡◌, refl, true, false, some, [], ◌∷◌, string_eq}
use kubocd.Value.{str, object, Fields, end, field}
use kubocd.Value.Maps.{get_field, set_field}
use kubocd.Value.Merge.{merge_maps}
use kubocd.Refs.Defaults.{is_set_at}
use kubocd.Refs.Defaults.Lookup.{NodupTree, IsKeys, lookup}
use kubocd.Refs.Defaults.Laws.{lookup-merge_maps-set, lookup-merge_maps-unset}

abbrev schema_defaults : Fields
schema_defaults = field "db" (object (field "read" (str "a") (field "write" (str "b") end))) end

abbrev release : Fields
release = field "db" (object (field "read" (str "main") end)) end

release-NodupTree : NodupTree release
unfolding get_field
release-NodupTree = (refl, (refl, tt, tt), tt)

db_read-IsKeys : IsKeys ("db" ∷ "read" ∷ [])
unfolding string_eq
db_read-IsKeys = (refl, (refl, tt))

db_write-IsKeys : IsKeys ("db" ∷ "write" ∷ [])
unfolding string_eq
db_write-IsKeys = (refl, (refl, tt))

reads :
    lookup ("db" ∷ "read" ∷ []) (object (merge_maps schema_defaults release)) ≡ some (str "main")
unfolding merge_maps get_field set_field string_eq
reads = refl

read_is_set : is_set_at ("db" ∷ "read" ∷ []) release ≡ true
unfolding is_set_at get_field string_eq
read_is_set = refl

write_is_unset : is_set_at ("db" ∷ "write" ∷ []) release ≡ false
unfolding is_set_at get_field string_eq
write_is_unset = refl

lookup-merge_maps-set_example : lookup ("db" ∷ "read" ∷ []) (object release) ≡ some (str "main")
lookup-merge_maps-set_example =
    lookup-merge_maps-set ("read" ∷ []) "db" schema_defaults release "main" db_read-IsKeys
      release-NodupTree read_is_set reads

lookup-merge_maps-unset_example :
    lookup ("db" ∷ "write" ∷ []) (object (merge_maps schema_defaults release))
    ≡ lookup ("db" ∷ "write" ∷ []) (object schema_defaults)
lookup-merge_maps-unset_example =
    lookup-merge_maps-unset ("write" ∷ []) "db" schema_defaults release db_write-IsKeys
      release-NodupTree write_is_unset
