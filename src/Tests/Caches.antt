-- ===== src/Tests/Caches.antt =====
-- internal/cache/cache.go at a cache of two entries.
use kubocd.Common.{String, ◌≡◌, refl, arith, List, [], ◌∷◌, map, string_eq, nat_eq}
use kubocd.Common.Int64.{pos, add64, sub64, wrap}
use kubocd.Cache.{Cache, Stored, new_cache, set, get, find, delete_key, remove, remove_listed}
use kubocd.Cache.{remove_older_than, oldest_from, oldest, too_big, evict, put, make_room, clean}
use kubocd.Cache.History.{Call, set_entry, get_entry, run, run-IsWithin}
use kubocd.Cache.Laws.{IsWithin}

abbrev empty : Cache String
empty = new_cache 60 2 (pos 10) 0

-- The third entry is too much, and so is the last one's weight.
abbrev calls : List (Call String)
calls =
    set_entry "a" "one" 3 1 1
    ∷ set_entry "b" "two" 3 2 2
    ∷ get_entry "a" 3
    ∷ set_entry "c" "three" 3 4 4
    ∷ set_entry "d" "four" 11 5 5
    ∷ []

keys_left : map (λ (s : Stored String). s.key) (run empty calls).mapping ≡ "c" ∷ "b" ∷ []
unfolding run set get find delete_key remove remove_listed remove_older_than oldest_from oldest
    too_big evict put make_room clean add64 sub64 wrap string_eq nat_eq
keys_left = refl

run-IsWithin_example : IsWithin 2 10 (run empty calls)
run-IsWithin_example = run-IsWithin 60 2 10 0 calls (omega arith)
