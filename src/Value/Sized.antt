-- ===== src/Value/Sized.antt =====
-- Every list of a value is shorter than 2^63, as any Go slice is.
use kubocd.Common.{ℕ, zero, suc, ◌<◌, String, ◌≡◌, some, arith, ◌==◌, string_eq}
use mathlib.Core.Path.{subst}
use mathlib.Core.Option.{none-ne-some, some-injective}
use kubocd.Common.{Bool-cases, inl, inr}
use kubocd.Common.Int64.{half_modulus}
use kubocd.Value.{Value, array, object, Items, nil, item, Fields, end, field}
use kubocd.Value.Maps.{get_field, get_elem?, length}

abbrev mutual
  pub IsSized : Value → Type 0
  IsSized (array l) = (length l < half_modulus) × ItemsSized l
  IsSized (object m) = FieldsSized m
  IsSized v = Unit {0}

  pub ItemsSized : Items → Type 0
  ItemsSized nil = Unit {0}
  ItemsSized (item v l) = IsSized v × ItemsSized l

  pub FieldsSized : Fields → Type 0
  FieldsSized end = Unit {0}
  FieldsSized (field k v m) = IsSized v × FieldsSized m

pub get_elem?-IsSized :
    (l : Items) (i : ℕ) (v : Value) → ItemsSized l → get_elem? l i ≡ some v → IsSized v
get_elem?-IsSized nil i v h e = absurd (none-ne-some v e)
get_elem?-IsSized (item w l) zero v h e = subst IsSized (some-injective w v e) h.0
get_elem?-IsSized (item w l) (suc i) v h e = get_elem?-IsSized l i v h.1 e

pub get_field-IsSized :
    (k : String) (m : Fields) (v : Value) → FieldsSized m → get_field k m ≡ some v → IsSized v
unfolding get_field
get_field-IsSized k end v h e = absurd (none-ne-some v e)
get_field-IsSized k (field j w m) v h e = elim (Bool-cases (k == j)) [
  | inl same ↦ subst IsSized (some-injective w v (rw same at e)) h.0
  | inr other ↦ get_field-IsSized k m v h.1 (rw other at e)
]

pub get_elem?-lt : (l : Items) (i : ℕ) (v : Value) → get_elem? l i ≡ some v → i < length l
get_elem?-lt nil i v e = absurd (none-ne-some v e)
get_elem?-lt (item w l) zero v e = omega arith
get_elem?-lt (item w l) (suc i) v e = omega (arith, get_elem?-lt l i v e)
