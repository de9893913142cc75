-- ===== src/Cache/Laws.antt =====
-- The caps of the cache of internal/cache/cache.go, which every `Set` keeps.
use kubocd.Common.{ℕ, zero, suc, ◌+◌, ◌≤◌, ◌<◌, ◌-◌, ◌*◌, String, ◌≡◌, ◌≢◌, refl, true, false}
use kubocd.Common.{List, [], ◌∷◌, length, ltb, arith, Bool-cases, inl, inr}
use kubocd.Common.{ap, ◌∙◌}
use kubocd.Common.Int64.{pos, ◌<ℤ◌, add64, add64-pos, half_modulus}
use kubocd.Cache.{
  Stored, Cache, remove, remove_listed, remove_older_than, oldest, too_big, evict, put, make_room,
  set, clean,
}
use kubocd.Cache.Evict.{IsConsistent, SameCaps, total, delete_key-Weighed, remove_present}
use kubocd.Cache.Evict.{remove-IsConsistent, remove-le, remove-SameCaps, remove_listed-IsConsistent}
use kubocd.Cache.Evict.{oldest-Known}

-- The caps of a cache.
pub record HasCaps {ℓ} {V : Type ℓ} (N W : ℕ) (c : Cache V) : Type 0 where
  pub entries : c.max_entries ≡ N
  pub weight : c.max_weight ≡ pos W

-- The cache holds no more entries and no more weight than its caps, and counts exactly.
pub record IsWithin {ℓ} {V : Type ℓ} (N W : ℕ) (c : Cache V) : Type 0 where
  pub caps : HasCaps N W c
  pub consistent : IsConsistent c
  pub few_entries : length c.mapping ≤ N
  pub low_weight : total c.mapping ≤ W

HasCaps-of_SameCaps {ℓ} :
    {V : Type ℓ} {N W : ℕ} {c c' : Cache V} → HasCaps N W c → SameCaps c c' → HasCaps N W c'
HasCaps-of_SameCaps h same = record {
  entries = same.same_entries ∙ h.entries;
  weight = same.same_weight ∙ h.weight;
}

module _ {ℓ} {V : Type ℓ} (N W : ℕ) where
  too_big-nonempty :
      (c : Cache V) → IsConsistent c → HasCaps N W c → too_big c ≡ true → c.mapping ≢ []
  unfolding too_big
  too_big-nonempty c h caps big e =
      let count : length c.mapping ≡ 0 = ap length e in
      let sum : total c.mapping ≡ 0 = ap total e in
      let weight : c.weight ≡ pos 0 = h.weight_is ∙ ap pos sum in
      let cap = caps.weight in ground (arith, count, weight, cap)

  IsWithin-of_fit :
      (c : Cache V) → IsConsistent c → HasCaps N W c → too_big c ≡ false → IsWithin N W c
  unfolding too_big
  IsWithin-of_fit c h caps fit =
      let weight = h.weight_is in
      let cap = caps.weight in
      let max = caps.entries in
      record {
        caps = caps;
        consistent = h;
        few_entries = ground (arith, fit, max);
        low_weight = ground (arith, fit, weight, cap);
      }

  remove-oldest-shorter :
      (c : Cache V)
      → IsConsistent c
      → c.mapping ≢ []
      → suc (length (remove (oldest c) c).mapping) ≡ length c.mapping
  remove-oldest-shorter c h ne =
      let (s, e) = oldest-Known c ne in
      let (_, _, _, count) = delete_key-Weighed (oldest c) c.mapping h.weighed e in
      ap (λ (x : Cache V). suc (length x.mapping)) (remove_present (oldest c) c e) ∙ count

  -- One turn for each entry is enough.
  evict-IsWithin :
      (fuel : ℕ) (c : Cache V)
      → length c.mapping ≤ fuel
      → IsConsistent c
      → HasCaps N W c
      → IsWithin N W (evict fuel c)
  unfolding evict
  evict-IsWithin zero c enough h caps = elim (Bool-cases (too_big c)) [
    | inl big ↦ absurd (too_big-nonempty c h caps big (empty c.mapping enough))
    | inr fit ↦ IsWithin-of_fit c h caps fit
  ]
    where
      empty : (m : List (Stored V)) → length m ≤ 0 → m ≡ []
      empty [] le = refl
      empty (s ∷ m) le = absurd (omega (arith, le))
  evict-IsWithin (suc fuel) c enough h caps = elim (Bool-cases (too_big c)) [
    | inr fit ↦ rw fit (IsWithin-of_fit c h caps fit)
    | inl big ↦
        let shorter = remove-oldest-shorter c h (too_big-nonempty c h caps big) in
        rw big (
          evict-IsWithin fuel (remove (oldest c) c) (omega (arith, shorter, enough))
            (remove-IsConsistent (oldest c) c h)
            (HasCaps-of_SameCaps caps (remove-SameCaps (oldest c) c)))
  ]

  remove-IsWithin : (k : String) (c : Cache V) → IsWithin N W c → IsWithin N W (remove k c)
  remove-IsWithin k c h =
      let (shorter, lighter) = remove-le k c h.consistent in
      let few = h.few_entries in
      let low = h.low_weight in
      record {
        caps = HasCaps-of_SameCaps h.caps (remove-SameCaps k c);
        consistent = remove-IsConsistent k c h.consistent;
        few_entries = omega (arith, shorter, few);
        low_weight = omega (arith, lighter, low);
      }

  put-IsConsistent :
      (key : String) (value : V) (n inserted : ℕ) (c : Cache V)
      → IsConsistent c
      → n + total c.mapping < half_modulus
      → IsConsistent (put key value (pos n) inserted c)
  unfolding put
  put-IsConsistent key value n inserted c h fits = record {
    weighed = (refl, h.weighed);
    weight_is =
        ap (λ w. add64 w (pos n)) h.weight_is
        ∙ add64-pos (total c.mapping) n (omega (arith, fits))
        ∙ ap pos (omega arith);
    fits = fits;
  }

  make_room-IsWithin :
      (now : ℕ) (c : Cache V) → IsConsistent c → HasCaps N W c → IsWithin N W (make_room now c)
  unfolding make_room remove_older_than
  make_room-IsWithin now c h caps = elim (Bool-cases (too_big c)) [
    | inr fit ↦ rw fit (evict-IsWithin (length c.mapping) c (omega arith) h caps)
    | inl big ↦
        let (h', same) = remove_listed-IsConsistent (now - c.duration) c.mapping c h in
        rw big (evict-IsWithin _ _ (omega arith) h' (HasCaps-of_SameCaps caps same))
  ]

  -- `Set` keeps the caps: after it, the cache holds no more entries and no more weight than they
  -- allow, and its weight is exactly the sum of its entries' weights, without wrapping. The weight
  -- cap is below 2^62, the weight of the new entry is not negative, and the cache kept its caps.
  pub set-IsWithin :
      (key : String) (value : V) (n inserted now : ℕ) (c : Cache V)
      → W + W < half_modulus
      → IsWithin N W c
      → IsWithin N W (set key value (pos n) inserted now c)
  unfolding set put
  set-IsWithin key value n inserted now c small h =
      let h' = remove-IsWithin key c h in
      let cap = h'.caps.weight in
      elim (Bool-cases ((remove key c).max_weight <ℤ pos n)) [
        | inl heavy ↦ rw heavy h'
        | inr light ↦
            let low = h'.low_weight in
            rw light (
              make_room-IsWithin now _
                (put-IsConsistent key value n inserted (remove key c) h'.consistent
                  (ground (arith, cap, light, low, small)))
                (record { entries = h'.caps.entries; weight = cap }))
      ]

  remove_listed-IsWithin :
      (exp : ℕ) (entries : List (Stored V)) (c : Cache V)
      → IsWithin N W c
      → IsWithin N W (remove_listed exp entries c)
  unfolding remove_listed
  remove_listed-IsWithin exp [] c h = h
  remove_listed-IsWithin exp (s ∷ entries) c h = elim (Bool-cases (ltb s.inserted exp)) [
    | inr fresh ↦ rw fresh (remove_listed-IsWithin exp entries c h)
    | inl old ↦
        rw old (remove_listed-IsWithin exp entries (remove s.key c) (remove-IsWithin s.key c h))
  ]

  pub clean-IsWithin : (now : ℕ) (c : Cache V) → IsWithin N W c → IsWithin N W (clean now c)
  unfolding clean remove_older_than
  clean-IsWithin now c h =
      let due = record c { next_cleanup = now + 5 * 1000000000 } in
      let h' : IsWithin N W due = record {
        caps = record { entries = h.caps.entries; weight = h.caps.weight };
        consistent = record {
          weighed = h.consistent.weighed;
          weight_is = h.consistent.weight_is;
          fits = h.consistent.fits;
        };
        few_entries = h.few_entries;
        low_weight = h.low_weight;
      } in
      elim (Bool-cases (ltb c.next_cleanup now)) [
        | inr early ↦ rw early h
        | inl late ↦ rw late (remove_listed-IsWithin (now - c.duration) c.mapping due h')
      ]
