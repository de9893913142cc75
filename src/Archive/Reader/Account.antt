-- ===== src/Archive/Reader/Account.antt =====
-- What the accounting of entries bounds: the content, the entries, and the directories that the
-- entries imply.
use kubocd.Common.{
  ℕ, zero, suc, ◌+◌, ◌≤◌, ◌<◌, String, ◌≡◌, ◌⊎◌, inl, inr, refl, Bool, true, false, ◌||◌,
}
use kubocd.Common.{List, ◌∷◌, ok, contains, ◌==◌, string_eq}
use kubocd.Common.{arith, All, All-map, length, Bool-cases, >>=-eq-ok, ok-injective}
use mathlib.Core.Path.{subst}
use kubocd.Common.Int64.{ℤ, pos, negsuc, IsInt64}
use kubocd.Archive.Limits.{max_bound}
use kubocd.Archive.Budget.{
  Budget, reserve_content, reserve_entries, reserve_exact, reserve_negative,
}
use kubocd.Archive.Reader.{PathOps, add_parents}

-- What a counter of an enabled budget is after a reservation that succeeds.
pub reserve_entries_one :
    (b : Budget) (n m : ℕ) {b' : Budget}
    → b.limits.disabled ≡ false
    → b.entries ≡ pos n
    → b.limits.entries ≡ pos m
    → n ≤ m
    → m ≤ max_bound
    → reserve_entries b (pos 1) ≡ ok b'
    → (b' ≡ record b { entries = pos (n + 1) }) × (n + 1 ≤ m)
unfolding reserve_entries
reserve_entries_one b n m d e l h k r = ground (arith, reserve_exact n 1 m)

pub reserve_content_size :
    (b : Budget) (size : ℤ) (n m : ℕ) {b' : Budget}
    → b.limits.disabled ≡ false
    → IsInt64 size
    → b.content ≡ pos n
    → b.limits.content_size ≡ pos m
    → n ≤ m
    → m ≤ max_bound
    → reserve_content b size ≡ ok b'
    → (k : ℕ) × (size ≡ pos k) × (b' ≡ record b { content = pos (n + k) }) × (n + k ≤ m)
unfolding reserve_content
reserve_content_size b (pos k) n m d i e l h hm r =
    (k, refl, ground (arith, reserve_exact n k m), ground (arith, reserve_exact n k m))
reserve_content_size b (negsuc k) n m d i e l h hm r =
    absurd (ground (arith, reserve_negative (pos n) k (pos m)))

module _ (P : PathOps) where
  abbrev pub IsTop : String → Type 0
  IsTop d = (d ≡ ".") ⊎ (d ≡ "/")

  -- The parent of every directory is one of the list, or the top, or the one that is still to do.
  abbrev pub ClosedBut : String → List String → List String → Type 0
  ClosedBut pending ds =
      All (λ d. IsTop (P.dir d) ⊎ (contains ds (P.dir d) ≡ true) ⊎ (P.dir d ≡ pending))

  -- The parent of every directory is one of the list, or the top.
  abbrev pub Closed : List String → Type 0
  Closed ds = All (λ d. IsTop (P.dir d) ⊎ (contains ds (P.dir d) ≡ true)) ds

  Closed-of_done :
      (pending : String) (ds : List String)
      → ClosedBut pending ds ds
      → IsTop pending ⊎ (contains ds pending ≡ true)
      → Closed ds
  Closed-of_done pending ds h done =
      All-map _ (λ d. IsTop (P.dir d) ⊎ (contains ds (P.dir d) ≡ true)) ds (λ d k. ground arith) h

  closed_round :
      (pending : String) (ds : List String)
      → ClosedBut pending ds ds
      → ClosedBut (P.dir pending) (pending ∷ ds) (pending ∷ ds)
  closed_round pending ds h = (inr (inr refl), All-map _ _ ds (λ d k. ground arith) h)

  abbrev pub at_end : String → List String → Bool
  at_end pending ds = pending == "." || pending == "/" || contains ds pending

  pub done_of_test :
      (pending : String) (ds : List String)
      → at_end pending ds ≡ true
      → IsTop pending ⊎ (contains ds pending ≡ true)
  done_of_test pending ds h = ground arith

  -- The fuel outlasts the path: each round goes on with a shorter text.
  pub enough_next :
      (fuel : ℕ) (pending : String) (ds : List String)
      → (P.length pending < suc fuel) ⊎ IsTop pending
      → at_end pending ds ≡ false
      → (P.length (P.dir pending) < fuel) ⊎ IsTop (P.dir pending)
  enough_next fuel pending ds enough h = ground (arith, P.dir_shorter pending)

  -- What the loop of `account` leaves, from a list whose parents are there but for the pending one.
  pub add_parents-Closed :
      (fuel : ℕ) (pending : String) (b : Budget) (ds : List String) {r : Budget × List String}
      → (P.length pending < fuel) ⊎ IsTop pending
      → ClosedBut pending ds ds
      → add_parents P fuel pending b ds ≡ ok r
      → Closed r.1
  unfolding add_parents
  add_parents-Closed zero pending b ds (inl lt) h e = absurd (omega arith)
  add_parents-Closed zero pending b ds (inr top) h e =
      subst (λ (r : Budget × List String). Closed r.1) (ok-injective e)
        (Closed-of_done pending ds h (inl top))
  add_parents-Closed (suc fuel) pending b ds enough h e = elim (Bool-cases (at_end pending ds)) [
    | inl done ↦
        subst (λ (r : Budget × List String). Closed r.1) (ok-injective (rw done at e))
          (Closed-of_done pending ds h (done_of_test pending ds done))
    | inr more ↦
        let (b', _, e') = >>=-eq-ok (reserve_entries b (pos 1)) _ (rw more at e) in
        add_parents-Closed fuel (P.dir pending) b' (pending ∷ ds)
          (enough_next fuel pending ds enough more) (closed_round pending ds h) e'
  ]

  -- The budget counts `k` more entries, and the list has `k` more directories.
  pub record Counted (b : Budget) (ds : List String) (n m : ℕ) (r : Budget × List String)
      : Type 0 where
    pub added : ℕ
    pub budget_after : r.0 ≡ record b { entries = pos (n + added) }
    pub allowed : n + added ≤ m
    pub longer : length r.1 ≡ length ds + added

  Counted-none :
      (b : Budget) (ds : List String) (n m : ℕ)
      → b.entries ≡ pos n
      → n ≤ m
      → Counted b ds n m (b, ds)
  Counted-none b ds n m e h = record {
    added = 0;
    budget_after = ground arith;
    allowed = omega arith;
    longer = omega arith;
  }

  -- Each directory that the loop adds is counted as an entry.
  pub add_parents-Counted :
      (fuel : ℕ) (pending : String) (b : Budget) (ds : List String) (n m : ℕ)
      {r : Budget × List String}
      → b.limits.disabled ≡ false
      → b.entries ≡ pos n
      → b.limits.entries ≡ pos m
      → n ≤ m
      → m ≤ max_bound
      → add_parents P fuel pending b ds ≡ ok r
      → Counted b ds n m r
  unfolding add_parents
  add_parents-Counted zero pending b ds n m d e l h hm x =
      subst (Counted b ds n m) (ok-injective x) (Counted-none b ds n m e h)
  add_parents-Counted (suc fuel) pending b ds n m {r = r} d e l h hm x =
      elim (Bool-cases (at_end pending ds)) [
        | inl done ↦
            subst (Counted b ds n m) (ok-injective (rw done at x)) (Counted-none b ds n m e h)
        | inr more ↦
            let (b', one, x') = >>=-eq-ok (reserve_entries b (pos 1)) _ (rw more at x) in
            let (same, fits) = reserve_entries_one b n m d e l h hm one in
            let rest =
              add_parents-Counted fuel (P.dir pending) b' (pending ∷ ds) (n + 1) m (rw same d)
                (rw same refl) (rw same l) fits hm x' in
            record {
              added = suc rest.added;
              budget_after = ground (arith, rest.budget_after);
              allowed = omega (arith, rest.allowed);
              longer = omega (arith, rest.longer);
            }
      ]
