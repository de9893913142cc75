-- ===== src/Tests/Archives.antt =====
-- internal/archiveio at concrete limits and archives.
use Prim.Native.String.{len}
use mathlib.Core.Path.{subst}
use kubocd.Common.{
  ℕ, String, ◌≡◌, ◌<◌, ◌≤◌, ◌+◌, refl, inl, inr, ◌⊎◌, false, some, none, [], ◌∷◌, ok, ◌↔◌,
}
use kubocd.Common.{
  contains, true, arith, leb, if◌then◌else◌, Bool-cases, ◌==◌, string_eq, ==→≡, sym,
}
use kubocd.Common.Int64.{pos, add64, sub64, wrap}
use kubocd.Archive.Limits.{defaults, validate, IsValid, validate_iff, resolve-IsValid, resolve-nil}
use kubocd.Archive.Budget.{
  Budget, new_budget, reserve, reserve_exact, reserve_content, reserve_entries,
}
use kubocd.Archive.Reader.{PathOps, Header, header, tar_end, Reader, account}
use kubocd.Archive.Reader.Next.{next_all, FirstErrorStays, next_all-FirstErrorStays}
use kubocd.Archive.Reader.Bounds.{IsAccounted, account-IsAccounted}
use kubocd.Archive.Reader.Grown.{Grown}
use kubocd.Archive.Reader.Whole.{IsImpliedBy}
use kubocd.Archive.Reader.Whole.{
  account_all, total_size, account_all-IsAccounted, start-IsAccounted,
}

-- A stand-in for the package `path` that knows one nested file.
abbrev dir : String → String
dir d = if d == "a/b" then "a" else "."

shorter : len (dir "a/b") < len "a/b"
unfolding string_eq
shorter = omega arith

dir_shorter : (d : String) → (dir d ≡ ".") ⊎ (dir d ≡ "/") ⊎ (len (dir d) < len d)
dir_shorter d = elim (Bool-cases (d == "a/b")) [
  | inl e ↦ inr (inr (subst (λ x. len (dir x) < len x) (sym (==→≡ d "a/b" e)) shorter))
  | inr e ↦ inl (ground arith)
]

abbrev one_file : PathOps
one_file = record { clean = λ s. s; dir = dir; length = len; dir_shorter = dir_shorter }

abbrev file : Header
file = record { name = "a/b"; size = pos 5; is_dir = false }

abbrev empty : Reader
empty = record {
  budget = new_budget defaults;
  directories = [];
  current = none;
  done = false;
  failure = none;
}

defaults-IsValid : IsValid defaults
defaults-IsValid = resolve-IsValid [] resolve-nil

abbrev one_file_budget : Budget
one_file_budget = record (new_budget defaults) { content = pos 5; entries = pos 2 }

-- Five bytes, the file and its directory.
one_file_counts : (account one_file file (new_budget defaults) []) ≡ ok (one_file_budget, "a" ∷ [])
unfolding account defaults string_eq reserve_content reserve reserve_entries add64 sub64 wrap
one_file_counts = refl

archive_counts :
    account_all one_file (file ∷ []) (new_budget defaults) [] ≡ ok (one_file_budget, "a" ∷ [])
unfolding account_all
archive_counts = rw one_file_counts refl

validate_iff_example : (validate defaults ≡ ok tt) ↔ IsValid defaults
validate_iff_example = validate_iff defaults

resolve-IsValid_example : IsValid defaults
resolve-IsValid_example = resolve-IsValid [] resolve-nil

reserve_exact_example :
    reserve false (pos 3) (pos 4) (pos 7) ≡ (if leb (3 + 4) 7 then some (pos (3 + 4)) else none)
reserve_exact_example = reserve_exact 3 4 7 (omega arith) (omega arith) (omega arith)

next_all-FirstErrorStays_example :
    FirstErrorStays (next_all one_file (header file ∷ tar_end none ∷ header file ∷ []) empty)
next_all-FirstErrorStays_example =
    next_all-FirstErrorStays one_file (header file ∷ tar_end none ∷ header file ∷ []) empty

account-IsAccounted_example :
    (k j : ℕ) × (pos 5 ≡ pos k)
    × Grown one_file file [] ("a" ∷ []) j
    × IsAccounted one_file defaults one_file_budget ("a" ∷ []) (0 + k) (0 + 1 + j)
unfolding defaults
account-IsAccounted_example =
    account-IsAccounted one_file defaults file (new_budget defaults) [] 0 0 refl defaults-IsValid
      (omega arith) (start-IsAccounted one_file defaults defaults-IsValid) one_file_counts

account_all-IsAccounted_example :
    (n : ℕ) × (1 ≤ n)
    × (n ≤ 1 + 1)
    × ((d : String) → (contains ("a" ∷ []) d ≡ true) ↔ IsImpliedBy one_file (file ∷ []) d)
    × IsAccounted one_file defaults one_file_budget ("a" ∷ []) (total_size (file ∷ [])) n
unfolding defaults
account_all-IsAccounted_example =
    account_all-IsAccounted one_file defaults (file ∷ []) refl defaults-IsValid (omega arith, tt)
      archive_counts
