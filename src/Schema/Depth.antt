-- ===== src/Schema/Depth.antt =====
-- How deep the maps of a value are nested, which bounds the recursion over a schema.
use kubocd.Common.{
  ℕ, suc, ◌+◌, ◌-◌, ◌≤◌, String, ◌≡◌, some, arith, ◌==◌, string_eq, Bool-cases, inl, inr,
}
use mathlib.Core.Path.{subst}
use mathlib.Core.Option.{none-ne-some, some-injective}
use kubocd.Value.{Value, null, bool, number, str, array, object, Fields, end, field}
use kubocd.Value.Maps.{get_field}

abbrev pub max : ℕ → ℕ → ℕ
max m n = m + (n - m)

abbrev mutual
  pub depth : Value → ℕ
  depth (object m) = suc (depth_fields m)
  depth null = 0
  depth (bool b) = 0
  depth (number n) = 0
  depth (str s) = 0
  depth (array l) = 0

  pub depth_fields : Fields → ℕ
  depth_fields end = 0
  depth_fields (field k v m) = max (depth v) (depth_fields m)

pub get_field-depth :
    (k : String) (m : Fields) (v : Value) → get_field k m ≡ some v → depth v ≤ depth_fields m
unfolding get_field
get_field-depth k end v e = absurd (none-ne-some v e)
get_field-depth k (field j w m) v e = elim (Bool-cases (k == j)) [
  | inl same ↦
      subst (λ x. depth x ≤ max (depth w) (depth_fields m)) (some-injective w v (rw same at e))
        (omega arith)
  | inr other ↦ omega (arith, get_field-depth k m v (rw other at e))
]
