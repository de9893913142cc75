-- ===== src/Archive/Reader/Whole.antt =====
-- The accounting over a whole archive: one call of `account` for each entry, as the calls of `Next`
-- make them, from the empty budget of `New`.
use kubocd.Common.{
  ℕ, contains, true, ◌⊎◌, ◌↔◌, string_eq, ◌+◌, ◌≤◌, String, ◌≡◌, refl, ap, false, List, [], ◌∷◌,
  Result, ok, ◌>>=◌,
}
use mathlib.Core.Path.{subst}
use native.Mathlib.Nat.{add-zero}
use kubocd.Common.{arith, All, length, >>=-eq-ok, ok-injective}
use kubocd.Common.Int64.{ℤ, pos, negsuc, IsInt64, pos_part}
use kubocd.Archive.Limits.{Limits, IsValid, IsBound}
use kubocd.Archive.Budget.{Budget, new_budget, LimitError}
use kubocd.Archive.Reader.{PathOps, Header, account}
use kubocd.Archive.Reader.Grown.{Grown, IsImplied}
use kubocd.Archive.Reader.Bounds.{IsAccounted, account-IsAccounted}

-- The sum of the sizes of the entries.
abbrev pub total_size : List Header → ℕ
total_size [] = 0
total_size (h ∷ hs) = pos_part h.size + total_size hs

module _ (P : PathOps) where
  unfoldable pub account_all :
      List Header → Budget → List String → Result LimitError (Budget × List String)
  account_all [] b ds = ok (b, ds)
  account_all (h ∷ hs) b ds = do r ← account P h b ds; account_all hs r.0 r.1

  -- A directory that one of the entries implies.
  abbrev pub IsImpliedBy : List Header → String → Type 0
  IsImpliedBy [] d = ⊥
  IsImpliedBy (h ∷ hs) d = IsImplied P h d ⊎ IsImpliedBy hs d

  -- The directories and the number of entries after a list of entries.
  pub record AllGrown (hs : List Header) (ds ds' : List String) (n n' : ℕ) : Type 0 where
    pub members :
        (d : String) → (contains ds' d ≡ true) ↔ ((contains ds d ≡ true) ⊎ IsImpliedBy hs d)
    pub each_counted : n + length hs ≤ n'
    pub none_else_counted : n' + length ds ≤ n + length hs + length ds'

  AllGrown-cons :
      (h : Header) (hs : List Header) (ds ds₁ ds₂ : List String) (n j n₂ : ℕ)
      → Grown P h ds ds₁ j
      → AllGrown hs ds₁ ds₂ (n + 1 + j) n₂
      → AllGrown (h ∷ hs) ds ds₂ n n₂
  AllGrown-cons h hs ds ds₁ ds₂ n j n₂ one rest = record {
    members = λ d. ground (arith, one.members d, rest.members d);
    each_counted = omega (arith, rest.each_counted);
    none_else_counted = omega (arith, rest.none_else_counted, one.new_directories);
  }

  account_all-IsAccounted_from :
      (l : Limits) (hs : List Header) (b : Budget) (ds : List String) (c n : ℕ)
      {r : Budget × List String}
      → l.disabled ≡ false
      → IsValid l
      → All (λ (h : Header). IsInt64 h.size) hs
      → IsAccounted P l b ds c n
      → account_all hs b ds ≡ ok r
      → (n' : ℕ) × AllGrown hs ds r.1 n n' × IsAccounted P l r.0 r.1 (c + total_size hs) n'
  unfolding account_all
  account_all-IsAccounted_from l [] b ds c n d v i a e =
      subst
        (λ (r : Budget × List String).
          (n' : ℕ) × AllGrown [] ds r.1 n n' × IsAccounted P l r.0 r.1 (c + 0) n')
        (ok-injective e)
        (
          n,
          record {
            members = λ d. ground arith;
            each_counted = omega arith;
            none_else_counted = omega arith;
          },
          rw add-zero a,
        )
  account_all-IsAccounted_from l (h ∷ hs) b ds c n {r = r} d v i a e =
      let (r₁, e₁, e₂) = >>=-eq-ok (account P h b ds) _ e in
      let (k, j, size, grew, a₁) = account-IsAccounted P l h b ds c n d v i.0 a e₁ in
      let (n₂, grew₂, a₂) =
        account_all-IsAccounted_from l hs r₁.0 r₁.1 (c + k) (n + 1 + j) d v i.1 a₁ e₂ in
      (
        n₂,
        AllGrown-cons h hs ds r₁.1 r.1 n j n₂ grew grew₂,
        subst (λ t. IsAccounted P l r.0 r.1 t n₂) (omega (arith, ap pos_part size)) a₂,
      )

  pub start-IsAccounted : (l : Limits) → IsValid l → IsAccounted P l (new_budget l) [] 0 0
  start-IsAccounted l v = record {
    limits_kept = refl;
    content_exact = refl;
    content_within = from_bound l.content_size _ v.content_size;
    entries_exact = refl;
    entries_within = from_bound l.entries _ v.entries;
    directories_counted = omega arith;
    parents_there = tt;
    distinct = tt;
  }
    where
      from_bound : (z : ℤ) (max : ℕ) → IsBound max z → (m : ℕ) × (z ≡ pos m) × (0 ≤ m)
      from_bound (pos m) max h = (m, refl, omega arith)
      from_bound (negsuc m) max h = absurd h

  -- With valid limits that are not disabled, an archive whose entries are all accepted, their sizes
  -- being int64, has in all the content that the budget shows, within the limit. The directories are
  -- exactly those that the entries imply, their own and each one above them but the top, none twice.
  -- Each entry is counted, at most the directories are counted besides, and the count is within the
  -- limit of entries and bounds the number of directories.
  pub account_all-IsAccounted :
      (l : Limits) (hs : List Header) {r : Budget × List String}
      → l.disabled ≡ false
      → IsValid l
      → All (λ (h : Header). IsInt64 h.size) hs
      → account_all hs (new_budget l) [] ≡ ok r
      → (n : ℕ) × (length hs ≤ n)
        × (n ≤ length hs + length r.1)
        × ((d : String) → (contains r.1 d ≡ true) ↔ IsImpliedBy hs d)
        × IsAccounted P l r.0 r.1 (total_size hs) n
  account_all-IsAccounted l hs {r = r} d v i e =
      let (n, grown, a) =
        account_all-IsAccounted_from l hs (new_budget l) [] 0 0 d v i (start-IsAccounted l v) e in
      (
        n,
        omega (arith, grown.each_counted),
        omega (arith, grown.none_else_counted),
        λ d. ground (arith, grown.members d),
        subst (λ t. IsAccounted P l r.0 r.1 t n) (omega arith) a,
      )
