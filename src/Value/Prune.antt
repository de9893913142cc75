-- ===== src/Value/Prune.antt =====
-- internal/misc/prune.go
pub mod Entries
use kubocd.Common.{String, ◌≡◌, refl, arith}
use kubocd.Value.{
  Value, null, bool, number, str, array, object, Items, nil, item, Fields, end, field,
}

-- `if len(pruned) > 0 { result[k] = pruned }`
abbrev keep_field : String → Fields → Fields → Fields
keep_field k end rest = rest
keep_field k (field j v m) rest = field k (object (field j v m)) rest

abbrev keep_item : Fields → Items → Items
keep_item end rest = rest
keep_item (field j v m) rest = item (object (field j v m)) rest

unfoldable mutual
  pub prune : Fields → Fields
  prune end = end
  prune (field k null m) = prune m
  prune (field k (object nested) m) = keep_field k (prune nested) (prune m)
  prune (field k (array s) m) = field k (array (prune_slice s)) (prune m)
  prune (field k v m) = field k v (prune m)

  pub prune_slice : Items → Items
  prune_slice nil = nil
  prune_slice (item null s) = prune_slice s
  prune_slice (item (object nested) s) = keep_item (prune nested) (prune_slice s)
  prune_slice (item (array t) s) = item (array (prune_slice t)) (prune_slice s)
  prune_slice (item v s) = item v (prune_slice s)

-- A value with no null in it, and no empty map but, in `FieldsPruned`, the whole map.
abbrev mutual
  pub IsPruned : Value → Type 0
  IsPruned null = ⊥
  IsPruned (array s) = ItemsPruned s
  IsPruned (object end) = ⊥
  IsPruned (object (field k v m)) = IsPruned v × FieldsPruned m
  IsPruned v = Unit {0}

  pub ItemsPruned : Items → Type 0
  ItemsPruned nil = Unit {0}
  ItemsPruned (item v s) = IsPruned v × ItemsPruned s

  pub FieldsPruned : Fields → Type 0
  FieldsPruned end = Unit {0}
  FieldsPruned (field k v m) = IsPruned v × FieldsPruned m

keep_field-FieldsPruned :
    (k : String) (m rest : Fields)
    → FieldsPruned m
    → FieldsPruned rest
    → FieldsPruned (keep_field k m rest)
keep_field-FieldsPruned k end rest hm hr = hr
keep_field-FieldsPruned k (field j v m) rest hm hr = (hm, hr)

keep_item-ItemsPruned :
    (m : Fields) (rest : Items) → FieldsPruned m → ItemsPruned rest → ItemsPruned (keep_item m rest)
keep_item-ItemsPruned end rest hm hr = hr
keep_item-ItemsPruned (field j v m) rest hm hr = (hm, hr)

mutual
  unfolding prune

  prune_fields-Pruned : (m : Fields) → FieldsPruned (prune m)
  prune_fields-Pruned end = tt
  prune_fields-Pruned (field k null m) = prune_fields-Pruned m
  prune_fields-Pruned (field k (object nested) m) =
      keep_field-FieldsPruned k (prune nested) (prune m) (prune_fields-Pruned nested)
        (prune_fields-Pruned m)
  prune_fields-Pruned (field k (array s) m) = (prune_slice-Pruned s, prune_fields-Pruned m)
  prune_fields-Pruned (field k (bool b) m) = (tt, prune_fields-Pruned m)
  prune_fields-Pruned (field k (number n) m) = (tt, prune_fields-Pruned m)
  prune_fields-Pruned (field k (str s) m) = (tt, prune_fields-Pruned m)

  prune_slice-Pruned : (s : Items) → ItemsPruned (prune_slice s)
  prune_slice-Pruned nil = tt
  prune_slice-Pruned (item null s) = prune_slice-Pruned s
  prune_slice-Pruned (item (object nested) s) =
      keep_item-ItemsPruned (prune nested) (prune_slice s) (prune_fields-Pruned nested)
        (prune_slice-Pruned s)
  prune_slice-Pruned (item (array t) s) = (prune_slice-Pruned t, prune_slice-Pruned s)
  prune_slice-Pruned (item (bool b) s) = (tt, prune_slice-Pruned s)
  prune_slice-Pruned (item (number n) s) = (tt, prune_slice-Pruned s)
  prune_slice-Pruned (item (str t) s) = (tt, prune_slice-Pruned s)

mutual
  unfolding prune

  prune_of_FieldsPruned : (m : Fields) → FieldsPruned m → prune m ≡ m
  prune_of_FieldsPruned end h = refl
  prune_of_FieldsPruned (field k null m) h = absurd h.0
  prune_of_FieldsPruned (field k (object end) m) h = absurd h.0
  prune_of_FieldsPruned (field k (object (field j v n)) m) h =
      rw (prune_of_FieldsPruned (field j v n) h.0, prune_of_FieldsPruned m h.1)
  prune_of_FieldsPruned (field k (array s) m) h =
      cc (prune_slice_of_ItemsPruned s h.0, prune_of_FieldsPruned m h.1)
  prune_of_FieldsPruned (field k (bool b) m) h = cc (prune_of_FieldsPruned m h.1)
  prune_of_FieldsPruned (field k (number n) m) h = cc (prune_of_FieldsPruned m h.1)
  prune_of_FieldsPruned (field k (str s) m) h = cc (prune_of_FieldsPruned m h.1)

  prune_slice_of_ItemsPruned : (s : Items) → ItemsPruned s → prune_slice s ≡ s
  prune_slice_of_ItemsPruned nil h = refl
  prune_slice_of_ItemsPruned (item null s) h = absurd h.0
  prune_slice_of_ItemsPruned (item (object end) s) h = absurd h.0
  prune_slice_of_ItemsPruned (item (object (field j v n)) s) h =
      rw (prune_of_FieldsPruned (field j v n) h.0, prune_slice_of_ItemsPruned s h.1)
  prune_slice_of_ItemsPruned (item (array t) s) h =
      cc (prune_slice_of_ItemsPruned t h.0, prune_slice_of_ItemsPruned s h.1)
  prune_slice_of_ItemsPruned (item (bool b) s) h = cc (prune_slice_of_ItemsPruned s h.1)
  prune_slice_of_ItemsPruned (item (number n) s) h = cc (prune_slice_of_ItemsPruned s h.1)
  prune_slice_of_ItemsPruned (item (str t) s) h = cc (prune_slice_of_ItemsPruned s h.1)

-- The pruned map holds no null and no empty map, at any depth.
pub prune-FieldsPruned : (m : Fields) → FieldsPruned (prune m)
prune-FieldsPruned m = prune_fields-Pruned m

-- Pruning a pruned map changes nothing.
pub prune-prune : (m : Fields) → prune (prune m) ≡ prune m
prune-prune m = prune_of_FieldsPruned (prune m) (prune-FieldsPruned m)
