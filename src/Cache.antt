-- ===== src/Cache.antt =====
-- internal/cache/cache.go. A time is its nanoseconds; what `time.Now` gives is an argument. The
-- map is an association list in the order in which it is iterated. The mutex makes each operation
-- one step.
pub mod Evict
pub mod History
pub mod Laws
use kubocd.Common.{ℕ, zero, suc, ◌+◌, ◌-◌, ◌*◌, String, Bool, ◌||◌, Option, none, some}
use kubocd.Common.{List, [], ◌∷◌, length, ◌==◌, string_eq, ltb, if◌then◌else◌}
use kubocd.Common.Int64.{ℤ, pos, ◌<ℤ◌, add64, sub64}

-- `stored`, with its key and the insertion time of its entry.
pub record Stored {ℓ} (V : Type ℓ) : Type ℓ where
  pub key : String
  pub entry : V
  pub inserted : ℕ
  pub weight : ℤ

-- `impl`
pub record Cache {ℓ} (V : Type ℓ) : Type ℓ where
  pub mapping : List (Stored V)
  pub weight : ℤ
  pub next_cleanup : ℕ
  pub duration : ℕ
  pub max_entries : ℕ
  pub max_weight : ℤ

module _ {ℓ} {V : Type ℓ} where
  -- `NewCache`, at the time `now`.
  abbrev pub new_cache : ℕ → ℕ → ℤ → ℕ → Cache V
  new_cache duration max_entries max_weight now = record {
    mapping = [];
    weight = pos 0;
    next_cleanup = now + 5 * 1000000000;
    duration = duration;
    max_entries = max_entries;
    max_weight = max_weight;
  }

  unfoldable pub find : String → List (Stored V) → Option (Stored V)
  find k [] = none
  find k (s ∷ m) = if s.key == k then some s else find k m

  -- `delete`, of the one entry that a key has.
  unfoldable pub delete_key : String → List (Stored V) → List (Stored V)
  delete_key k [] = []
  delete_key k (s ∷ m) = if s.key == k then m else s ∷ delete_key k m

  unfoldable pub remove : String → Cache V → Cache V
  remove key c = elim (find key c.mapping) [
    | none ↦ c
    | some old ↦ record c { mapping = delete_key key c.mapping; weight = sub64 c.weight old.weight }
  ]

  -- The loop of `removeOlderThan`, over the entries that the map had at its start.
  unfoldable pub remove_listed : ℕ → List (Stored V) → Cache V → Cache V
  remove_listed exp [] c = c
  remove_listed exp (s ∷ entries) c =
      remove_listed exp entries (if ltb s.inserted exp then remove s.key c else c)

  unfoldable pub remove_older_than : ℕ → Cache V → Cache V
  remove_older_than exp c = remove_listed exp c.mapping c

  -- `c.mapping[oldest].entry.GetInsertionTime()`; the candidate is a key of the map.
  abbrev pub inserted_at : String → List (Stored V) → ℕ
  inserted_at k m = elim (find k m) [ none ↦ 0 | some s ↦ s.inserted ]

  -- The loop of `oldest`, with its candidate so far.
  unfoldable pub oldest_from : List (Stored V) → String → List (Stored V) → String
  oldest_from m candidate [] = candidate
  oldest_from m candidate (s ∷ entries) =
      oldest_from m
        (if candidate == "" || ltb s.inserted (inserted_at candidate m) then s.key else candidate)
        entries

  unfoldable pub oldest : Cache V → String
  oldest c = oldest_from c.mapping "" c.mapping

  unfoldable pub too_big : Cache V → Bool
  too_big c = ltb c.max_entries (length c.mapping) || c.max_weight <ℤ c.weight

  -- The last loop of `Set`; the fuel is the number of entries.
  unfoldable pub evict : ℕ → Cache V → Cache V
  evict zero c = c
  evict (suc fuel) c = let rest = evict fuel (remove (oldest c) c) in if too_big c then rest else c

  -- `c.mapping[key] = …; c.weight += weight`, where the map lacks the key.
  unfoldable pub put : String → V → ℤ → ℕ → Cache V → Cache V
  put key value weight inserted c = record c {
    mapping = record { key = key; entry = value; inserted = inserted; weight = weight } ∷ c.mapping;
    weight = add64 c.weight weight;
  }

  -- The rest of `Set`, which makes room, by expiry first.
  unfoldable pub make_room : ℕ → Cache V → Cache V
  make_room now c =
      let c' = if too_big c then remove_older_than (now - c.duration) c else c in
      evict (length c'.mapping) c'

  -- `Set`, with the insertion time, and the time that the expiry is reckoned from.
  unfoldable pub set : String → V → ℤ → ℕ → ℕ → Cache V → Cache V
  set key value weight inserted now c =
      let c' = remove key c in
      if c'.max_weight <ℤ weight then c' else make_room now (put key value weight inserted c')

  unfoldable pub clean : ℕ → Cache V → Cache V
  clean now c =
      let c' =
        remove_older_than (now - c.duration) (record c { next_cleanup = now + 5 * 1000000000 }) in
      if ltb c.next_cleanup now then c' else c

  unfoldable pub get : String → ℕ → Cache V → Cache V × Option V
  get key now c =
      let c' = clean now c in
      (c', elim (find key c'.mapping) [ none ↦ none | some s ↦ some s.entry ])
