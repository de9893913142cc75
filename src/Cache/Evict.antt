-- ===== src/Cache/Evict.antt =====
-- What the removals of internal/cache/cache.go do to the count of the weights.
use mathlib.Core.Path.{subst, ap₂}
use mathlib.Core.Option.{none-ne-some, some-injective}
use kubocd.Common.{ℕ, suc, ◌+◌, ◌≤◌, ◌<◌, String, ◌≡◌, refl, ◌⊎◌, inl, inr, false}
use kubocd.Common.{none, some, List, [], ◌∷◌, length, ◌==◌, string_eq, ltb, ◌||◌}
use kubocd.Common.{arith, All, All-map, ==_refl, Bool-cases, Option-cases, ◌≢◌, ap, sym, ◌∙◌}
use kubocd.Common.Int64.{ℤ, pos, sub64, sub64-pos, pos_part, half_modulus}
use kubocd.Cache.{Stored, Cache, find, delete_key, remove, remove_listed}
use kubocd.Cache.{oldest_from, oldest, inserted_at}

weight_without :
    (w w' : ℤ) (n t t' : ℕ)
    → w ≡ pos t
    → w' ≡ pos n
    → n + t' ≡ t
    → t < half_modulus
    → sub64 w w' ≡ pos t'
weight_without w w' n t t' e e' sum fits =
    ap₂ sub64 e e' ∙ sub64-pos t n (omega (arith, sum)) fits ∙ ap pos (omega (arith, sum))

module _ {ℓ} {V : Type ℓ} where
  -- The sum of the weights.
  abbrev pub total : List (Stored V) → ℕ
  total [] = 0
  total (s ∷ m) = pos_part s.weight + total m

  abbrev pub Weighed : List (Stored V) → Type 0
  Weighed = All (λ (s : Stored V). s.weight ≡ pos (pos_part s.weight))

  -- The weight of the cache is the sum of its entries' weights, which fits 64 bits; none of them
  -- is negative.
  pub record IsConsistent (c : Cache V) : Type 0 where
    pub weighed : Weighed c.mapping
    pub weight_is : c.weight ≡ pos (total c.mapping)
    pub fits : total c.mapping < half_modulus

  pub delete_key-Weighed :
      (k : String) (m : List (Stored V)) {s : Stored V}
      → Weighed m
      → find k m ≡ some s
      → Weighed (delete_key k m)
        × (s.weight ≡ pos (pos_part s.weight))
        × (pos_part s.weight + total (delete_key k m) ≡ total m)
        × (suc (length (delete_key k m)) ≡ length m)
  unfolding find delete_key
  delete_key-Weighed k [] h e = absurd (none-ne-some _ e)
  delete_key-Weighed k (s ∷ m) h e = elim (Bool-cases (s.key == k)) [
    | inl same ↦
        let found = some-injective _ _ (rw same at e) in
        rw same (
          h.1,
          subst (λ (x : Stored V). x.weight ≡ pos (pos_part x.weight)) found h.0,
          ap (λ (x : Stored V). pos_part x.weight + total m) (sym found),
          refl,
        )
    | inr other ↦
        let (rest, known, sum, count) = delete_key-Weighed k m h.1 (rw other at e) in
        rw other ((h.0, rest), known, omega (arith, sum), omega (arith, count))
  ]

  remove_absent : (k : String) (c : Cache V) → find k c.mapping ≡ none → remove k c ≡ c
  unfolding remove
  remove_absent k c e = rw (e, remove) refl

  pub remove_present :
      (k : String) (c : Cache V) {s : Stored V}
      → find k c.mapping ≡ some s
      → remove k c ≡ record c { mapping = delete_key k c.mapping; weight = sub64 c.weight s.weight }
  unfolding remove
  remove_present k c e = rw (e, remove) refl

  -- Without the entry that a key has, the count stays exact.
  pub remove-IsConsistent : (k : String) (c : Cache V) → IsConsistent c → IsConsistent (remove k c)
  remove-IsConsistent k c h = elim (Option-cases (find k c.mapping)) [
    | inl e ↦ subst IsConsistent (sym (remove_absent k c e)) h
    | inr (s, e) ↦
        let (rest, known, sum, count) = delete_key-Weighed k c.mapping h.weighed e in
        let fits = h.fits in
        subst IsConsistent (sym (remove_present k c e)) (record {
          weighed = rest;
          weight_is = weight_without c.weight s.weight _ _ _ h.weight_is known sum fits;
          fits = omega (arith, sum, fits);
        })
  ]

  -- What a removal leaves as it is.
  pub record SameCaps (c c' : Cache V) : Type 0 where
    pub same_entries : c'.max_entries ≡ c.max_entries
    pub same_weight : c'.max_weight ≡ c.max_weight

  pub SameCaps-trans : {c c' c'' : Cache V} → SameCaps c c' → SameCaps c' c'' → SameCaps c c''
  SameCaps-trans h h' = record {
    same_entries = h'.same_entries ∙ h.same_entries;
    same_weight = h'.same_weight ∙ h.same_weight;
  }

  pub remove-SameCaps : (k : String) (c : Cache V) → SameCaps c (remove k c)
  remove-SameCaps k c = elim (Option-cases (find k c.mapping)) [
    | inl e ↦
        subst (SameCaps c) (sym (remove_absent k c e))
          (record { same_entries = refl; same_weight = refl })
    | inr (s, e) ↦
        subst (SameCaps c) (sym (remove_present k c e))
          (record { same_entries = refl; same_weight = refl })
  ]

  pub remove-le :
      (k : String) (c : Cache V)
      → IsConsistent c
      → (length (remove k c).mapping ≤ length c.mapping)
        × (total (remove k c).mapping ≤ total c.mapping)
  remove-le k c h = elim (Option-cases (find k c.mapping)) [
    | inl e ↦
        subst
          (λ (x : Cache V).
            (length x.mapping ≤ length c.mapping) × (total x.mapping ≤ total c.mapping))
          (sym (remove_absent k c e)) (omega arith, omega arith)
    | inr (s, e) ↦
        let (rest, known, sum, count) = delete_key-Weighed k c.mapping h.weighed e in
        subst
          (λ (x : Cache V).
            (length x.mapping ≤ length c.mapping) × (total x.mapping ≤ total c.mapping))
          (sym (remove_present k c e)) (omega (arith, count), omega (arith, sum))
  ]

  pub remove_listed-IsConsistent :
      (exp : ℕ) (entries : List (Stored V)) (c : Cache V)
      → IsConsistent c
      → IsConsistent (remove_listed exp entries c) × SameCaps c (remove_listed exp entries c)
  unfolding remove_listed
  remove_listed-IsConsistent exp [] c h = (h, record { same_entries = refl; same_weight = refl })
  remove_listed-IsConsistent exp (s ∷ entries) c h = elim (Bool-cases (ltb s.inserted exp)) [
    | inr fresh ↦ rw fresh (remove_listed-IsConsistent exp entries c h)
    | inl old ↦
        let (h', caps) =
          remove_listed-IsConsistent exp entries (remove s.key c) (remove-IsConsistent s.key c h) in
        let first = remove-SameCaps s.key c in rw old (h', SameCaps-trans first caps)
  ]

  -- A key of the list of entries.
  abbrev pub Known : List (Stored V) → String → Type ℓ
  Known m k = (s : Stored V) × (find k m ≡ some s)

  Known-cons : (s : Stored V) (m : List (Stored V)) (k : String) → Known m k → Known (s ∷ m) k
  unfolding find
  Known-cons s m k (found, e) = elim (Bool-cases (s.key == k)) [
    | inl same ↦ (s, rw same refl)
    | inr other ↦ (found, rw other e)
  ]

  All-Known : (m : List (Stored V)) → All (λ (s : Stored V). Known m s.key) m
  unfolding find
  All-Known [] = tt
  All-Known (s ∷ m) =
      ((s, rw (==_refl s.key) refl), All-map _ _ m (λ t h. Known-cons s m t.key h) (All-Known m))

  oldest_from-Known :
      (m entries : List (Stored V)) (candidate : String)
      → All (λ (s : Stored V). Known m s.key) entries
      → Known m candidate ⊎ ((candidate ≡ "") × (entries ≢ []))
      → Known m (oldest_from m candidate entries)
  unfolding oldest_from
  oldest_from-Known m [] candidate h (inl known) = known
  oldest_from-Known m [] candidate h (inr (e, ne)) = absurd (ne refl)
  oldest_from-Known m (s ∷ entries) candidate h start =
      elim (Bool-cases (candidate == "" || ltb s.inserted (inserted_at candidate m))) [
        | inl new ↦ rw new (oldest_from-Known m entries s.key h.1 (inl h.0))
        | inr old ↦ rw old (oldest_from-Known m entries candidate h.1 (kept start old))
      ]
    where
      kept :
          Known m candidate ⊎ ((candidate ≡ "") × ((s ∷ entries) ≢ []))
          → (candidate == "" || ltb s.inserted (inserted_at candidate m)) ≡ false
          → Known m candidate ⊎ ((candidate ≡ "") × (entries ≢ []))
      kept (inl known) old = inl known
      kept (inr (e, ne)) old = absurd (ground (arith, e))

  -- The oldest entry of a map that is not empty is one of its entries.
  pub oldest-Known : (c : Cache V) → c.mapping ≢ [] → Known c.mapping (oldest c)
  unfolding oldest
  oldest-Known c ne =
      oldest_from-Known c.mapping c.mapping "" (All-Known c.mapping) (inr (refl, ne))
