-- ===== src/Archive/Limits.antt =====
-- `Limits`, `Defaults`, `Validate` and `resolve` of internal/archiveio/limits.go.
use kubocd.Common.{ℕ, ◌^◌, ◌*◌, ◌≤◌, String, ◌≡◌, Bool, false, ◌||◌, Option, some}
use kubocd.Common.{>>=-eq-ok, ok-injective, ◌↔◌, refl}
use mathlib.Core.Path.{subst}
use kubocd.Common.{List, [], ◌∷◌, Result, ok, ◌>>◌, fail_if, arith}
use kubocd.Common.Int64.{ℤ, pos, negsuc, ◌<ℤ◌}

pub record Limits : Type 0 where
  pub stream_size : ℤ
  pub content_size : ℤ
  pub entries : ℤ
  pub metadata_size : ℤ
  pub listing_size : ℤ
  pub disabled : Bool

pub data LimitsError : Type 0 where
  bad_bound : String → LimitsError
  bad_entries : LimitsError

-- `math.MaxInt64 / 2`
abbrev pub max_bound : ℕ
max_bound = 4611686018427387903

abbrev pub max_entries : ℕ
max_entries = 1048576

unfoldable pub defaults : Limits
defaults = record {
  stream_size = pos 47087616;
  content_size = pos (40 * 2 ^ 20);
  entries = pos 1000;
  metadata_size = pos (2 ^ 20);
  listing_size = pos (2 ^ 20);
  disabled = false;
}

-- The test of one round of the loop over the byte bounds.
check_bound : String → ℤ → Result LimitsError (Unit {0})
check_bound name value = fail_if (value <ℤ pos 1 || pos max_bound <ℤ value) (bad_bound name)

check_entries : ℤ → Result LimitsError (Unit {0})
check_entries value = fail_if (value <ℤ pos 1 || pos max_entries <ℤ value) bad_entries

pub validate : Limits → Result LimitsError (Unit {0})
validate l = do
  check_bound "maxArchiveStreamSize" l.stream_size
  check_bound "maxArchiveContentSize" l.content_size
  check_bound "maxArchiveMetadataSize" l.metadata_size
  check_bound "maxArchiveListingSize" l.listing_size
  check_entries l.entries

-- The first of the options, if it is given and not nil, else the defaults.
chosen : List (Option Limits) → Limits
unfolding defaults
chosen (some l ∷ options) = l
chosen options = defaults

pub resolve : List (Option Limits) → Result LimitsError Limits
unfolding chosen validate
resolve options = do validate (chosen options); ok (chosen options)

abbrev pub IsBound : ℕ → ℤ → Type 0
IsBound max (pos n) = (1 ≤ n) × (n ≤ max)
IsBound max (negsuc n) = ⊥

pub record IsValid (l : Limits) : Type 0 where
  pub stream_size : IsBound max_bound l.stream_size
  pub content_size : IsBound max_bound l.content_size
  pub entries : IsBound max_entries l.entries
  pub metadata_size : IsBound max_bound l.metadata_size
  pub listing_size : IsBound max_bound l.listing_size

IsBound-of_test :
    (max : ℕ) (z : ℤ) (e : LimitsError)
    → fail_if (z <ℤ pos 1 || pos max <ℤ z) e ≡ ok tt
    → IsBound max z
IsBound-of_test max (pos n) e h = ground arith
IsBound-of_test max (negsuc n) e h = ground arith

test_of_IsBound :
    (max : ℕ) (z : ℤ) (e : LimitsError)
    → IsBound max z
    → fail_if (z <ℤ pos 1 || pos max <ℤ z) e ≡ ok tt
test_of_IsBound max (pos n) e h = ground arith
test_of_IsBound max (negsuc n) e h = absurd h

-- `Validate` accepts the limits in the documented ranges, and no others.
pub validate_iff : (l : Limits) → (validate l ≡ ok tt) ↔ IsValid l
unfolding validate check_bound check_entries
validate_iff l = (
  λ h.
      let (u₁, h₁, k₁) = >>=-eq-ok (check_bound "maxArchiveStreamSize" l.stream_size) _ h in
      let (u₂, h₂, k₂) = >>=-eq-ok (check_bound "maxArchiveContentSize" l.content_size) _ k₁ in
      let (u₃, h₃, k₃) = >>=-eq-ok (check_bound "maxArchiveMetadataSize" l.metadata_size) _ k₂ in
      let (u₄, h₄, k₄) = >>=-eq-ok (check_bound "maxArchiveListingSize" l.listing_size) _ k₃ in
      record {
        stream_size = IsBound-of_test max_bound l.stream_size _ h₁;
        content_size = IsBound-of_test max_bound l.content_size _ h₂;
        entries = IsBound-of_test max_entries l.entries _ k₄;
        metadata_size = IsBound-of_test max_bound l.metadata_size _ h₃;
        listing_size = IsBound-of_test max_bound l.listing_size _ h₄;
      },
  λ v.
      rw
        (
          test_of_IsBound max_bound l.stream_size _ v.stream_size,
          test_of_IsBound max_bound l.content_size _ v.content_size,
          test_of_IsBound max_bound l.metadata_size _ v.metadata_size,
          test_of_IsBound max_bound l.listing_size _ v.listing_size,
        )
        (test_of_IsBound max_entries l.entries bad_entries v.entries),
)

-- Limits that `resolve` returns are valid.
pub resolve-IsValid :
    (options : List (Option Limits)) {l : Limits} → resolve options ≡ ok l → IsValid l
unfolding resolve
resolve-IsValid options h =
    let (u, hv, e) = >>=-eq-ok (validate (chosen options)) _ h in
    subst IsValid (ok-injective e) ((validate_iff (chosen options)).0 hv)

-- Where no option is given, they are the defaults.
pub resolve-nil : resolve [] ≡ ok defaults
unfolding resolve check_bound check_entries
resolve-nil = refl
