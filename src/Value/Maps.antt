-- ===== src/Value/Maps.antt =====
-- Go's built-in operations on `map[string]interface{}` and `[]interface{}`: `m[k]`, `m[k] = v`,
-- `delete(m, k)`, `l[i]`, `l[i] = v` and `len`.
use kubocd.Common.{ℕ, zero, suc, String, ◌≡◌, refl, ◌≢◌, Option, none, some}
use kubocd.Common.{arith, ◌==◌, string_eq, if◌then◌else◌}
use kubocd.Value.{Value, Items, nil, item, Fields, end, field}

unfoldable pub get_field : String → Fields → Option Value
get_field k end = none
get_field k (field j v m) = if k == j then some v else get_field k m

unfoldable pub set_field : String → Value → Fields → Fields
set_field k v end = field k v end
set_field k v (field j w m) = if k == j then field j v m else field j w (set_field k v m)

unfoldable pub delete_field : String → Fields → Fields
delete_field k end = end
delete_field k (field j w m) =
    let rest = delete_field k m in if k == j then rest else field j w rest

abbrev pub length : Items → ℕ
length nil = 0
length (item v l) = suc (length l)

abbrev pub get_elem? : Items → ℕ → Option Value
get_elem? nil i = none
get_elem? (item v l) zero = some v
get_elem? (item v l) (suc i) = get_elem? l i

-- A write out of range changes nothing here; the callers test the range first.
abbrev pub set : Items → ℕ → Value → Items
set nil i v = nil
set (item w l) zero v = item v l
set (item w l) (suc i) v = item w (set l i v)

-- The keys of a map are distinct.
abbrev pub NodupFields : Fields → Type 0
NodupFields end = Unit {0}
NodupFields (field k v m) = (get_field k m ≡ none) × NodupFields m

pub get_field-set_field :
    (j k : String) (v : Value) (m : Fields)
    → get_field j (set_field k v m) ≡ (if j == k then some v else get_field j m)
unfolding get_field set_field
get_field-set_field j k v end = refl
get_field-set_field j k v (field i w m) = ground (arith, get_field-set_field j k v m)

pub get_field-delete_field :
    (j k : String) (m : Fields)
    → get_field j (delete_field k m) ≡ (if j == k then none else get_field j m)
unfolding get_field delete_field
get_field-delete_field j k end = ground arith
get_field-delete_field j k (field i w m) = ground (arith, get_field-delete_field j k m)

pub set_field-NodupFields :
    (k : String) (v : Value) (m : Fields) → NodupFields m → NodupFields (set_field k v m)
unfolding get_field set_field
set_field-NodupFields k v end h = (refl, tt)
set_field-NodupFields k v (field j w m) (fresh, rest) =
    ground (arith, set_field-NodupFields k v m rest, get_field-set_field j k v m)

abbrev pub overwrite : Value → Option Value → Option Value
overwrite v none = none
overwrite v (some w) = some v

pub get_elem?-set_self :
    (l : Items) (i : ℕ) (v : Value) → get_elem? (set l i v) i ≡ overwrite v (get_elem? l i)
get_elem?-set_self nil i v = refl
get_elem?-set_self (item w l) zero v = refl
get_elem?-set_self (item w l) (suc i) v = get_elem?-set_self l i v

pub get_elem?-set_ne :
    (l : Items) (i j : ℕ) (v : Value) → i ≢ j → get_elem? (set l i v) j ≡ get_elem? l j
get_elem?-set_ne nil i j v h = refl
get_elem?-set_ne (item w l) zero zero v h = ground arith
get_elem?-set_ne (item w l) zero (suc j) v h = refl
get_elem?-set_ne (item w l) (suc i) zero v h = refl
get_elem?-set_ne (item w l) (suc i) (suc j) v h = get_elem?-set_ne l i j v (ground arith)

pub length-set : (l : Items) (i : ℕ) (v : Value) → length (set l i v) ≡ length l
length-set nil i v = refl
length-set (item w l) zero v = refl
length-set (item w l) (suc i) v = ground (arith, length-set l i v)
