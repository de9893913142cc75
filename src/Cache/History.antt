-- ===== src/Cache/History.antt =====
-- Any use of the cache of internal/cache/cache.go.
use kubocd.Common.{ℕ, ◌+◌, ◌<◌, String, refl, List, [], ◌∷◌, arith}
use kubocd.Common.Int64.{pos, half_modulus}
use kubocd.Cache.{Cache, new_cache, set, get}
use kubocd.Cache.Laws.{IsWithin, set-IsWithin, clean-IsWithin}

-- A call with the times that it reads.
pub data Call {ℓ} (V : Type ℓ) : Type ℓ where
  set_entry : String → V → ℕ → ℕ → ℕ → Call V
  get_entry : String → ℕ → Call V

module _ {ℓ} {V : Type ℓ} where
  unfoldable pub run : Cache V → List (Call V) → Cache V
  run c [] = c
  run c (set_entry key value weight inserted now ∷ calls) =
      run (set key value (pos weight) inserted now c) calls
  run c (get_entry key now ∷ calls) = run (get key now c).0 calls

  run-IsWithin_from :
      (N W : ℕ) (calls : List (Call V)) (c : Cache V)
      → W + W < half_modulus
      → IsWithin N W c
      → IsWithin N W (run c calls)
  unfolding run get
  run-IsWithin_from N W [] c small h = h
  run-IsWithin_from N W (set_entry key value weight inserted now ∷ calls) c small h =
      run-IsWithin_from N W calls _ small (set-IsWithin N W key value weight inserted now c small h)
  run-IsWithin_from N W (get_entry key now ∷ calls) c small h =
      run-IsWithin_from N W calls _ small (clean-IsWithin N W now c h)

  -- After any sequence of calls on a new cache, with a weight cap below 2^62, any times and any
  -- weights that are not negative, it holds no more entries and no more weight than its caps, and
  -- its weight is exactly the sum of its entries' weights.
  pub run-IsWithin :
      (duration N W now : ℕ) (calls : List (Call V))
      → W + W < half_modulus
      → IsWithin N W (run (new_cache duration N (pos W) now) calls)
  run-IsWithin duration N W now calls small = run-IsWithin_from N W calls _ small (record {
    caps = record { entries = refl; weight = refl };
    consistent = record { weighed = tt; weight_is = refl; fits = omega arith };
    few_entries = omega arith;
    low_weight = omega arith;
  })
