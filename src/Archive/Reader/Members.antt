-- ===== src/Archive/Reader/Members.antt =====
-- Which directories the loop of `account` stores: those above the entry, each once.
use mathlib.Core.Path.{subst}
use kubocd.Common.{ℕ, zero, suc, ◌<◌, String, true, false, ◌≡◌, refl, sym, ◌⊎◌, inl, inr}
use kubocd.Common.{List, [], ◌∷◌, ok, contains, ◌==◌, ==→≡, string_eq, arith, All, Bool-cases}
use kubocd.Common.{>>=-eq-ok, ok-injective}
use kubocd.Common.Int64.{pos}
use kubocd.Archive.Budget.{Budget, reserve_entries}
use kubocd.Archive.Reader.{PathOps, add_parents, add_directory}
use kubocd.Archive.Reader.Account.{IsTop, Closed, at_end, done_of_test}

-- No text twice.
abbrev pub Distinct : List String → Type 0
Distinct [] = Unit {0}
Distinct (x ∷ xs) = (contains xs x ≡ false) × Distinct xs

All-contains {ℓ} :
    (Q : String → Type ℓ) (ds : List String) (d : String) → All Q ds → contains ds d ≡ true → Q d
All-contains Q (x ∷ ds) d h e = elim (Bool-cases (x == d)) [
  | inl same ↦ subst Q (==→≡ x d same) h.0
  | inr other ↦ All-contains Q ds d h.1 (ground arith)
]
All-contains Q [] d h e = absurd (ground arith)

-- A directory above a name, below the top.
pub data IsAbove (P : PathOps) (name : String) : String → Type 0 where
  parent : {d : String} → P.dir name ≡ d → ¬ IsTop P d → IsAbove P name d
  further : {c d : String} → IsAbove P name c → P.dir c ≡ d → ¬ IsTop P d → IsAbove P name d

module _ (P : PathOps) where
  dir_below : (c d : String) → P.dir c ≡ d → ¬ IsTop P d → P.length d < P.length c
  dir_below c d e below = ground (arith, P.dir_shorter c)

  above-shorter : (name : String) {d : String} → IsAbove P name d → P.length d < P.length name
  above-shorter name (parent e below) = dir_below name _ e below
  above-shorter name (further {c = c} {d = d} up e below) =
      omega (arith, above-shorter name up, dir_below c d e below)

  -- What the loop stores is above the name, if it starts there.
  pub add_parents-only :
      (name : String) (fuel : ℕ) (pending : String) (b : Budget) (ds : List String)
      {r : Budget × List String} (d : String)
      → (¬ IsTop P pending → IsAbove P name pending)
      → add_parents P fuel pending b ds ≡ ok r
      → contains r.1 d ≡ true
      → (contains ds d ≡ true) ⊎ IsAbove P name d
  unfolding add_parents
  add_parents-only name zero pending b ds d up e h =
      inl (subst (λ (r : Budget × List String). contains r.1 d ≡ true) (sym (ok-injective e)) h)
  add_parents-only name (suc fuel) pending b ds d up e h = elim (Bool-cases (at_end P pending ds)) [
    | inl done ↦ inl (
        subst (λ (r : Budget × List String). contains r.1 d ≡ true)
          (sym (ok-injective (rw done at e))) h)
    | inr more ↦
        let below : ¬ IsTop P pending = ground arith in
        let (b', _, e') = >>=-eq-ok (reserve_entries b (pos 1)) _ (rw more at e) in
        elim (add_parents-only name fuel (P.dir pending) b' (pending ∷ ds) d
          (λ next. further (up below) refl next) e' h) [
            | inr above ↦ inr above
            | inl there ↦ elim (Bool-cases (pending == d)) [
              | inl same ↦ inr (subst (IsAbove P name) (==→≡ pending d same) (up below))
              | inr other ↦ inl (ground arith)
            ]
          ]
  ]

  pub above-contains :
      (name : String) (ds : List String) {d : String}
      → Closed P ds
      → IsTop P (P.dir name) ⊎ (contains ds (P.dir name) ≡ true)
      → IsAbove P name d
      → contains ds d ≡ true
  above-contains name ds closed start (parent e below) = ground (arith, start)
  above-contains name ds closed start (further {c = c} up e below) = ground (
    arith,
    All-contains (λ x. IsTop P (P.dir x) ⊎ (contains ds (P.dir x) ≡ true)) ds c closed
        (above-contains name ds closed start up),
  )

  pub add_parents-Distinct :
      (fuel : ℕ) (pending : String) (b : Budget) (ds : List String) {r : Budget × List String}
      → Distinct ds
      → add_parents P fuel pending b ds ≡ ok r
      → Distinct r.1
  unfolding add_parents
  add_parents-Distinct zero pending b ds h e =
      subst (λ (r : Budget × List String). Distinct r.1) (ok-injective e) h
  add_parents-Distinct (suc fuel) pending b ds h e = elim (Bool-cases (at_end P pending ds)) [
    | inl done ↦ subst (λ (r : Budget × List String). Distinct r.1) (ok-injective (rw done at e)) h
    | inr more ↦
        let (b', _, e') = >>=-eq-ok (reserve_entries b (pos 1)) _ (rw more at e) in
        add_parents-Distinct fuel (P.dir pending) b' (pending ∷ ds) ((ground arith), h) e'
  ]

  pub add_directory-Distinct :
      (name : String) (ds : List String) → Distinct ds → Distinct (add_directory name ds)
  unfolding add_directory
  add_directory-Distinct name ds h = elim (Bool-cases (contains ds name)) [
    | inl there ↦ rw there h
    | inr new ↦ rw new (new, h)
  ]

  -- The loop does not store the name itself.
  pub add_parents-keeps_name :
      (name : String) (fuel : ℕ) (b : Budget) (ds : List String) {r : Budget × List String}
      → add_parents P fuel (P.dir name) b ds ≡ ok r
      → contains ds name ≡ false
      → contains r.1 name ≡ false
  add_parents-keeps_name name fuel b ds {r = r} e new = elim (Bool-cases (contains r.1 name)) [
    | inr absent ↦ absent
    | inl there ↦
        elim (add_parents-only name fuel (P.dir name) b ds name (λ below. parent refl below) e
          there) [
            | inl known ↦ absurd (ground arith)
            | inr up ↦ absurd (omega (arith, above-shorter name up))
          ]
  ]

  pub add_parents-contains :
      (fuel : ℕ) (pending : String) (b : Budget) (ds : List String) (d : String)
      {r : Budget × List String}
      → contains ds d ≡ true
      → add_parents P fuel pending b ds ≡ ok r
      → contains r.1 d ≡ true
  unfolding add_parents
  add_parents-contains zero pending b ds d h e =
      subst (λ (r : Budget × List String). contains r.1 d ≡ true) (ok-injective e) h
  add_parents-contains (suc fuel) pending b ds d h e = elim (Bool-cases (at_end P pending ds)) [
    | inl done ↦
        subst (λ (r : Budget × List String). contains r.1 d ≡ true) (ok-injective (rw done at e)) h
    | inr more ↦
        let (b', _, e') = >>=-eq-ok (reserve_entries b (pos 1)) _ (rw more at e) in
        add_parents-contains fuel (P.dir pending) b' (pending ∷ ds) d (ground arith) e'
  ]

  -- The directory that the loop starts from is in the list at its end, unless it is the top.
  pub add_parents-has :
      (fuel : ℕ) (pending : String) (b : Budget) (ds : List String) {r : Budget × List String}
      → (P.length pending < fuel) ⊎ IsTop P pending
      → add_parents P fuel pending b ds ≡ ok r
      → IsTop P pending ⊎ (contains r.1 pending ≡ true)
  unfolding add_parents
  add_parents-has zero pending b ds (inl lt) e = absurd (omega arith)
  add_parents-has zero pending b ds (inr top) e = inl top
  add_parents-has (suc fuel) pending b ds enough e = elim (Bool-cases (at_end P pending ds)) [
    | inl done ↦
        subst (λ (r : Budget × List String). IsTop P pending ⊎ (contains r.1 pending ≡ true))
          (ok-injective (rw done at e)) (done_of_test P pending ds done)
    | inr more ↦
        let (b', _, e') = >>=-eq-ok (reserve_entries b (pos 1)) _ (rw more at e) in
        inr (add_parents-contains fuel (P.dir pending) b' (pending ∷ ds) pending (ground arith) e')
  ]
