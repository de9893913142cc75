-- ===== src/Archive/Budget.antt =====
-- `budget` of internal/archiveio/limits.go. `used` is a counter of the budget, which the code
-- modifies through a pointer; `none` is the `limitError` of the counter.
use kubocd.Common.{ℕ, ◌+◌, ◌≤◌, ◌<◌, ◌≡◌, Bool, true, false, ◌||◌, Option, none, some, arith}
use kubocd.Common.{Result, ok, err, if◌then◌else◌, refl, leb}
use kubocd.Common.Int64.{
  ℤ, pos, negsuc, ◌<ℤ◌, add64, sub64, add64-pos, sub64-pos, half_modulus, IsInt64,
}
use mathlib.Core.Option.{none-ne-some}
use kubocd.Archive.Limits.{Limits, max_bound}

unfoldable pub reserve : Bool → ℤ → ℤ → ℤ → Option ℤ
reserve disabled used n max =
    if disabled
    then some used
    else if n <ℤ pos 0 || sub64 max used <ℤ n
    then none
    else some (add64 used n)

-- Each with the bound that was passed.
pub data LimitError : Type 0 where
  stream_limit : ℤ → LimitError
  content_limit : ℤ → LimitError
  entries_limit : ℤ → LimitError
  metadata_limit : ℤ → LimitError
  listing_limit : ℤ → LimitError

pub record Budget : Type 0 where
  pub limits : Limits
  pub stream : ℤ
  pub content : ℤ
  pub entries : ℤ
  pub metadata : ℤ
  pub listing : ℤ

-- `budget{limits: limits}`
abbrev pub new_budget : Limits → Budget
new_budget l = record {
  limits = l;
  stream = pos 0;
  content = pos 0;
  entries = pos 0;
  metadata = pos 0;
  listing = pos 0;
}

unfoldable pub reserve_stream : Budget → ℤ → Result LimitError Budget
reserve_stream b n = elim (reserve b.limits.disabled b.stream n b.limits.stream_size) [
  | none ↦ err (stream_limit b.limits.stream_size)
  | some used ↦ ok (record b { stream = used })
]

unfoldable pub reserve_content : Budget → ℤ → Result LimitError Budget
reserve_content b n = elim (reserve b.limits.disabled b.content n b.limits.content_size) [
  | none ↦ err (content_limit b.limits.content_size)
  | some used ↦ ok (record b { content = used })
]

unfoldable pub reserve_entries : Budget → ℤ → Result LimitError Budget
reserve_entries b n = elim (reserve b.limits.disabled b.entries n b.limits.entries) [
  | none ↦ err (entries_limit b.limits.entries)
  | some used ↦ ok (record b { entries = used })
]

unfoldable pub reserve_metadata : Budget → ℤ → Result LimitError Budget
reserve_metadata b n = elim (reserve b.limits.disabled b.metadata n b.limits.metadata_size) [
  | none ↦ err (metadata_limit b.limits.metadata_size)
  | some used ↦ ok (record b { metadata = used })
]

unfoldable pub reserve_listing : Budget → ℤ → Result LimitError Budget
reserve_listing b n = elim (reserve b.limits.disabled b.listing n b.limits.listing_size) [
  | none ↦ err (listing_limit b.limits.listing_size)
  | some used ↦ ok (record b { listing = used })
]

-- Within a positive bound below half of the range, a reservation adds up exactly, and it is
-- refused exactly where the sum would pass the bound: no operation wraps around.
pub reserve_exact :
    (used n max : ℕ)
    → used ≤ max
    → max ≤ max_bound
    → n < half_modulus
    → reserve false (pos used) (pos n) (pos max)
      ≡ (if leb (used + n) max then some (pos (used + n)) else none)
unfolding reserve
reserve_exact used n max h b r = ground (arith, sub64-pos max used, add64-pos used n)

-- A negative size is always refused.
pub reserve_negative : (used : ℤ) (n : ℕ) (max : ℤ) → reserve false used (negsuc n) max ≡ none
unfolding reserve
reserve_negative used n max = ground arith

-- With the limits disabled nothing is counted and nothing refused.
pub reserve_disabled : (used n max : ℤ) → reserve true used n max ≡ some used
unfolding reserve
reserve_disabled used n max = refl

-- What a counter is after a reservation that its bound allows.
pub reserve-eq-some :
    (used : ℕ) (n : ℤ) (max : ℕ) {used' : ℤ}
    → used ≤ max
    → max ≤ max_bound
    → IsInt64 n
    → reserve false (pos used) n (pos max) ≡ some used'
    → (m : ℕ) × (n ≡ pos m) × (used' ≡ pos (used + m)) × (used + m ≤ max)
reserve-eq-some used (negsuc n) max h b r e = absurd (none-ne-some _ (rw reserve_negative at e))
reserve-eq-some used (pos n) max h b r e = (
  n,
  refl,
  ground (arith, reserve_exact used n max h b r),
  ground (arith, reserve_exact used n max h b r),
)
