-- ===== src/Common/Errors.antt =====
-- A Go result with an error: a value, or an error of the component's own type.
use mathlib.Core.Path.{◌≡◌, refl, ap}
use mathlib.Core.Bool.{Bool, true, false}
use mathlib.Core.Logic.{◌⊎◌, ◌≢◌, inl, inr}

pub data Result {ℓ κ} (E : Type ℓ) (A : Type κ) : Type (ℓ ⊔ κ) where
  ok : A → Result E A
  err : E → Result E A

infixl 5 ◌>>=◌
abbrev pub ◌>>=◌ {ℓ κ ι} :
    {E : Type ℓ} {A : Type κ} {B : Type ι} → Result E A → (A → Result E B) → Result E B
err failure >>= rest = err failure
ok value >>= rest = rest value

infixl 5 ◌>>◌
abbrev pub ◌>>◌ {ℓ κ} : {E : Type ℓ} {B : Type κ} → Result E (Unit {0}) → Result E B → Result E B
check >> rest = check >>= λ _. rest

-- `if failed { return e }`
abbrev pub fail_if {ℓ} : {E : Type ℓ} → Bool → E → Result E (Unit {0})
fail_if true e = err e
fail_if false e = ok tt

-- A chain that succeeds: its first part gave a value, from which the rest succeeded.
pub >>=-eq-ok {ℓ κ ι} :
    {E : Type ℓ} {A : Type κ} {B : Type ι} (r : Result E A) (rest : A → Result E B) {result : B}
    → (r >>= rest) ≡ ok result
    → (value : A) × (r ≡ ok value) × (rest value ≡ ok result)
>>=-eq-ok (err failure) rest h = cc
>>=-eq-ok (ok value) rest h = (value, refl, h)

pub Result-cases {ℓ κ} :
    {E : Type ℓ} {A : Type κ} (r : Result E A) → ((a : A) × (r ≡ ok a)) ⊎ ((e : E) × (r ≡ err e))
Result-cases (ok a) = inl (a, refl)
Result-cases (err e) = inr (e, refl)

abbrev unwrap {ℓ κ} : {E : Type ℓ} {A : Type κ} → A → Result E A → A
unwrap d (ok a) = a
unwrap d (err e) = d

pub ok-injective {ℓ κ} :
    {E : Type ℓ} {A : Type κ} {a b : A} → ◌≡◌ {A = Result E A} (ok a) (ok b) → a ≡ b
ok-injective {a = a} h = ap (unwrap a) h

pub err-ne-ok {ℓ κ} :
    {E : Type ℓ} {A : Type κ} {e : E} {a : A} → ¬ (◌≡◌ {A = Result E A} (err e) (ok a))
err-ne-ok h = cc

pub ok-ne-err {ℓ κ} :
    {E : Type ℓ} {A : Type κ} {e : E} {a : A} → ¬ (◌≡◌ {A = Result E A} (ok a) (err e))
ok-ne-err h = cc

abbrev unwrap_err {ℓ κ} : {E : Type ℓ} {A : Type κ} → E → Result E A → E
unwrap_err d (ok a) = d
unwrap_err d (err e) = e

pub err-injective {ℓ κ} :
    {E : Type ℓ} {A : Type κ} {a b : E} → ◌≡◌ {A = Result E A} (err a) (err b) → a ≡ b
err-injective {a = a} h = ap (unwrap_err a) h

-- A chain that fails: its first part did, or the rest after the value that it gave.
pub >>=-eq-err {ℓ κ ι} :
    {E : Type ℓ} {A : Type κ} {B : Type ι} (r : Result E A) (rest : A → Result E B) {failure : E}
    → (r >>= rest) ≡ err failure
    → (r ≡ err failure) ⊎ ((value : A) × (r ≡ ok value) × (rest value ≡ err failure))
>>=-eq-err (err e) rest h = inl (ap (λ f. err f) (err-injective h))
>>=-eq-err (ok value) rest h = inr (value, refl, h)

-- A chain does not fail with `failure` where neither of its parts does.
pub >>=-ne-err {ℓ κ ι} :
    {E : Type ℓ} {A : Type κ} {B : Type ι} (r : Result E A) (rest : A → Result E B) {failure : E}
    → r ≢ err failure
    → ((value : A) → r ≡ ok value → rest value ≢ err failure)
    → (r >>= rest) ≢ err failure
>>=-ne-err r rest first later h = elim (>>=-eq-err r rest h) [
  | inl e ↦ first e
  | inr (value, e, e') ↦ later value e e'
]
