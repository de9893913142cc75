-- ===== src/Refs/Defaults.antt =====
-- `isSetAt` of internal/controller/release_paramrefs.go, which tells the connection parameters that
-- a Release sets from those that keep the default of the schema.
pub mod Lookup
pub mod Laws
use kubocd.Common.{String, Bool, true, false, Option, none, some, List, [], ◌∷◌, ◌==◌, string_eq}
use kubocd.Common.{if◌then◌else◌}
use kubocd.Value.{Value, object, Fields}
use kubocd.Value.Maps.{get_field}

-- One turn of the loop, on the value that the segment leads to; `rest` tells what the turns after
-- it give, and is `none` at the last segment.
pub set_below : Option (Fields → Bool) → Option Value → Bool
set_below rest none = false
set_below none (some v) = true
set_below (some rest) (some (object m)) = rest m
set_below (some rest) (some v) = true

unfoldable pub is_set_at : List String → Fields → Bool
unfolding set_below
is_set_at [] tree = false
is_set_at (seg ∷ []) tree = if seg == "[]" then true else set_below none (get_field seg tree)
is_set_at (seg ∷ next ∷ path) tree =
    if seg == "[]" then true else set_below (some (is_set_at (next ∷ path))) (get_field seg tree)
