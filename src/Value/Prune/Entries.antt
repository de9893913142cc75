-- ===== src/Value/Prune/Entries.antt =====
-- What `Prune` keeps, entry by entry.
use kubocd.Common.{String, Option, none, some, string_eq}
use kubocd.Value.{Value, null, array, object, Fields, end, field}
use kubocd.Value.Prune.{prune, prune_slice}

abbrev kept_map : Fields → Option Value
kept_map end = none
kept_map (field k v m) = some (object (field k v m))

-- What is left of a value, if anything: nothing of a null and of a map that prunes to an empty one.
abbrev pub kept : Value → Option Value
kept null = none
kept (object m) = kept_map (prune m)
kept (array s) = some (array (prune_slice s))
kept v = some v

abbrev put : String → Option Value → Fields → Fields
put k none m = m
put k (some v) m = field k v m

abbrev pub kept_at : Option Value → Option Value
kept_at none = none
kept_at (some v) = kept v
