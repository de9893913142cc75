-- ===== src/Archive/Reader/Bounds.antt =====
-- The bound that the accounting puts on what an archive can make.
use mathlib.Core.Path.{subst}
use kubocd.Common.{ℕ, suc, ◌+◌, ◌≤◌, ◌<◌, String, ◌≡◌, ◌∙◌, ap, sym, ◌⊎◌, inl, inr, true, false}
use kubocd.Common.{List, Result, ok, ◌>>=◌, contains, string_eq}
use kubocd.Common.{arith, All-map, length, Bool-cases, >>=-eq-ok, ok-injective}
use kubocd.Common.Int64.{ℤ, pos, IsInt64}
use kubocd.Archive.Reader.Members.{Distinct, add_parents-has, add_parents-Distinct}
use kubocd.Archive.Reader.Members.{add_directory-Distinct}
use kubocd.Archive.Reader.Grown.{Grown, directories_after, directories_after-Grown}
use kubocd.Archive.Limits.{Limits, IsValid, IsBound, max_bound, max_entries}
use kubocd.Archive.Budget.{Budget, LimitError, reserve_content, reserve_entries}
use kubocd.Archive.Reader.{PathOps, Header, add_parents, add_directory, account}
use kubocd.Archive.Reader.Account.{reserve_entries_one, reserve_content_size, IsTop, Closed}
use kubocd.Archive.Reader.Account.{add_parents-Closed, add_parents-Counted}

module _ (P : PathOps) where
  add_directory-Closed :
      (name : String) (ds : List String)
      → Closed P ds
      → IsTop P (P.dir name) ⊎ (contains ds (P.dir name) ≡ true)
      → Closed P (add_directory name ds)
  unfolding add_directory
  add_directory-Closed name ds h parent = elim (Bool-cases (contains ds name)) [
    | inl there ↦ rw there h
    | inr new ↦ rw new (ground arith, All-map _ _ ds (λ d k. ground arith) h)
  ]

  -- What holds of the budget and of the directories between two entries of an archive.
  pub record IsAccounted (l : Limits) (b : Budget) (ds : List String) (content entries : ℕ)
      : Type 0 where
    pub limits_kept : b.limits ≡ l
    pub content_exact : b.content ≡ pos content
    pub content_within : (m : ℕ) × (l.content_size ≡ pos m) × (content ≤ m)
    pub entries_exact : b.entries ≡ pos entries
    pub entries_within : (m : ℕ) × (l.entries ≡ pos m) × (entries ≤ m)
    pub directories_counted : length ds ≤ entries
    pub parents_there : Closed P ds
    pub distinct : Distinct ds

  directories_after-Closed :
      (h : Header) (ds : List String)
      → Closed P ds
      → IsTop P (P.dir (P.clean h.name)) ⊎ (contains ds (P.dir (P.clean h.name)) ≡ true)
      → Closed P (directories_after P h ds)
  directories_after-Closed h ds closed parent = elim (Bool-cases h.is_dir) [
    | inl dir ↦ rw dir (add_directory-Closed (P.clean h.name) ds closed parent)
    | inr other ↦ rw other closed
  ]

  directories_after-Distinct :
      (h : Header) (ds : List String) → Distinct ds → Distinct (directories_after P h ds)
  directories_after-Distinct h ds distinct = elim (Bool-cases h.is_dir) [
    | inl dir ↦ rw dir (add_directory-Distinct P (P.clean h.name) ds distinct)
    | inr other ↦ rw other distinct
  ]

  -- The part of `account` after the content, with the limits enabled.
  account_rest : Header → Budget → List String → Result LimitError (Budget × List String)
  account_rest h b ds =
      add_parents P (suc (P.length (P.clean h.name))) (P.dir (P.clean h.name)) b ds >>= λ r.
      ok (r.0, directories_after P h r.1)

  account-account_rest :
      (h : Header) (b : Budget) (ds : List String) {b₁ b₂ : Budget}
      → b₂.limits.disabled ≡ false
      → reserve_content b h.size ≡ ok b₁
      → reserve_entries b₁ (pos 1) ≡ ok b₂
      → account P h b ds ≡ account_rest h b₂ ds
  unfolding account account_rest
  account-account_rest h b ds d e₁ e₂ = rw (e₁, e₂, d)

  account_parts :
      (h : Header) (b : Budget) (ds : List String) {r : Budget × List String}
      → account P h b ds ≡ ok r
      → (b₁ b₂ : Budget) × (reserve_content b h.size ≡ ok b₁) × (reserve_entries b₁ (pos 1) ≡ ok b₂)
  unfolding account
  account_parts h b ds e =
      let (b₁, e₁, f₁) = >>=-eq-ok (reserve_content b h.size) _ e in
      let (b₂, e₂, f₂) = >>=-eq-ok (reserve_entries b₁ (pos 1)) _ f₁ in (b₁, b₂, e₁, e₂)

  first_enough :
      (name : String) → (P.length (P.dir name) < suc (P.length name)) ⊎ IsTop P (P.dir name)
  first_enough name = ground (arith, P.dir_shorter name)

  account_rest-Counted :
      (h : Header) (b : Budget) (ds : List String) (n m : ℕ) {r : Budget × List String}
      → b.limits.disabled ≡ false
      → b.entries ≡ pos n
      → b.limits.entries ≡ pos m
      → n ≤ m
      → m ≤ max_bound
      → Closed P ds
      → Distinct ds
      → account_rest h b ds ≡ ok r
      → (k : ℕ) × (r.0 ≡ record b { entries = pos (n + k) })
        × (n + k ≤ m)
        × Grown P h ds r.1 k
        × Closed P r.1
        × Distinct r.1
  unfolding account_rest
  account_rest-Counted h b ds n m d en l le hm closed distinct e =
      let name = P.clean h.name in
      let (r₀, e₀, e₁) = >>=-eq-ok (add_parents P (suc (P.length name)) (P.dir name) b ds) _ e in
      let counted =
        add_parents-Counted P (suc (P.length name)) (P.dir name) b ds n m d en l le hm e₀ in
      let closed₀ =
        add_parents-Closed P (suc (P.length name)) (P.dir name) b ds (first_enough name)
          (All-map _ _ ds (λ x k. ground arith) closed) e₀ in
      let has = add_parents-has P (suc (P.length name)) (P.dir name) b ds (first_enough name) e₀ in
      subst
        (λ (r : Budget × List String).
          (k : ℕ) × (r.0 ≡ record b { entries = pos (n + k) })
          × (n + k ≤ m)
          × Grown P h ds r.1 k
          × Closed P r.1
          × Distinct r.1)
        (ok-injective e₁)
        (
          counted.added,
          counted.budget_after,
          counted.allowed,
          directories_after-Grown P h b ds (suc (P.length name)) counted.added e₀ counted.longer
              closed₀ has,
          directories_after-Closed h r₀.1 closed₀ has,
          directories_after-Distinct h r₀.1
              (add_parents-Distinct P (suc (P.length name)) (P.dir name) b ds distinct e₀),
        )

  bound_of_IsValid : (z : ℤ) (max m : ℕ) → IsBound max z → z ≡ pos m → m ≤ max
  bound_of_IsValid z max m h e = (subst (IsBound max) e h).1

  -- With valid limits that are not disabled, and counters that are exact so far, an entry that is
  -- accepted, its size being an int64, adds its size to the content, which stays within its limit.
  -- The directories are then exactly those of before, the entry's own, if it is one, and each one
  -- above it but the top, none twice; the entry counts as one, and so does each directory above it
  -- that is new. The entries stay within their limit, there are never more directories than entries,
  -- and each parent of a directory is a directory or the top.
  pub account-IsAccounted :
      (l : Limits) (h : Header) (b : Budget) (ds : List String) (c n : ℕ) {r : Budget × List String}
      → l.disabled ≡ false
      → IsValid l
      → IsInt64 h.size
      → IsAccounted l b ds c n
      → account P h b ds ≡ ok r
      → (k j : ℕ) × (h.size ≡ pos k)
        × Grown P h ds r.1 j
        × IsAccounted l r.0 r.1 (c + k) (n + 1 + j)
  account-IsAccounted l h b ds c n d v i a e =
      let (mc, lc, c_le) = a.content_within in
      let (me, le, n_le) = a.entries_within in
      let mc_le : mc ≤ max_bound = bound_of_IsValid l.content_size max_bound mc v.content_size lc in
      let me_le : me ≤ max_entries = bound_of_IsValid l.entries max_entries me v.entries le in
      let (b₁, b₂, e₁, e₂) = account_parts h b ds e in
      let (k, size, same₁, c_fits) =
        reserve_content_size b h.size c mc (ap (λ x. x.disabled) a.limits_kept ∙ d) i
          a.content_exact (ap (λ x. x.content_size) a.limits_kept ∙ lc) c_le mc_le e₁ in
      let lim₁ : b₁.limits ≡ l = ap (λ x. x.limits) same₁ ∙ a.limits_kept in
      let (same₂, n_fits) =
        reserve_entries_one b₁ n me (ap (λ x. x.disabled) lim₁ ∙ d)
          (ap (λ x. x.entries) same₁ ∙ a.entries_exact) (ap (λ x. x.entries) lim₁ ∙ le) n_le
          (omega arith) e₂ in
      let lim₂ : b₂.limits ≡ l = ap (λ x. x.limits) same₂ ∙ lim₁ in
      let d₂ : b₂.limits.disabled ≡ false = ap (λ x. x.disabled) lim₂ ∙ d in
      let (j, same₃, fits, grown, closed, distinct) =
        account_rest-Counted h b₂ ds (n + 1) me d₂ (ap (λ x. x.entries) same₂)
          (ap (λ x. x.entries) lim₂ ∙ le) n_fits (omega arith) a.parents_there a.distinct
          (sym (account-account_rest h b ds d₂ e₁ e₂) ∙ e) in
      (
        k,
        j,
        size,
        grown,
        record {
          limits_kept = ap (λ x. x.limits) same₃ ∙ lim₂;
          content_exact =
              ap (λ x. x.content) same₃ ∙ ap (λ x. x.content) same₂ ∙ ap (λ x. x.content) same₁;
          content_within = (mc, lc, c_fits);
          entries_exact = ap (λ x. x.entries) same₃;
          entries_within = (me, le, fits);
          directories_counted = ground (arith, a.directories_counted, grown.new_directories);
          parents_there = closed;
          distinct = distinct;
        },
      )
