-- ===== src/Archive/Reader/Grown.antt =====
-- The directories after one entry of an archive.
use kubocd.Common.{ℕ, ◌+◌, String, true, not, ◌&&◌, ◌≡◌, ◌∙◌, refl, sym, ◌⊎◌, inl, inr, ◌↔◌}
use kubocd.Common.{List, ok, contains, ==→≡, ==_refl, string_eq, arith, Bool-cases}
use kubocd.Common.{length, if◌then◌else◌}
use kubocd.Archive.Budget.{Budget}
use kubocd.Archive.Reader.{PathOps, Header, add_parents, add_directory}
use kubocd.Archive.Reader.Account.{IsTop, Closed}
use kubocd.Archive.Reader.Members.{
  IsAbove, parent, add_parents-only, add_parents-contains, above-contains, add_parents-keeps_name,
}

module _ (P : PathOps) where
  -- The directories after an entry: its own, if it is one.
  abbrev pub directories_after : Header → List String → List String
  directories_after h ds = if h.is_dir then add_directory (P.clean h.name) ds else ds

  -- A directory that an entry implies: its own, if it is one, and each one above it.
  abbrev pub IsImplied : Header → String → Type 0
  IsImplied h d = ((h.is_dir ≡ true) × (d ≡ P.clean h.name)) ⊎ IsAbove P (P.clean h.name) d

  -- Whether the entry itself is a new directory.
  abbrev pub own : Header → List String → ℕ
  own h ds = if h.is_dir && not (contains ds (P.clean h.name)) then 1 else 0

  -- From `ds` to `ds'` by one entry, with `j` new directories above it.
  pub record Grown (h : Header) (ds ds' : List String) (j : ℕ) : Type 0 where
    pub members : (d : String) → (contains ds' d ≡ true) ↔ ((contains ds d ≡ true) ⊎ IsImplied h d)
    pub new_directories : length ds' ≡ length ds + j + own h ds

  contains-add_directory :
      (name : String) (ds : List String) (d : String)
      → (contains (add_directory name ds) d ≡ true) ↔ ((d ≡ name) ⊎ (contains ds d ≡ true))
  unfolding add_directory
  contains-add_directory name ds d = ground (arith, ==→≡ d name, ==_refl d)

  contains-directories_after :
      (h : Header) (ds : List String) (d : String)
      → (contains (directories_after h ds) d ≡ true)
        ↔ (((h.is_dir ≡ true) × (d ≡ P.clean h.name)) ⊎ (contains ds d ≡ true))
  contains-directories_after h ds d = ground (arith, contains-add_directory (P.clean h.name) ds d)

  length-directories_after :
      (h : Header) (ds ds' : List String)
      → (contains ds (P.clean h.name) ≡ contains ds' (P.clean h.name))
      → length (directories_after h ds') ≡ length ds' + own h ds
  unfolding add_directory
  length-directories_after h ds ds' same = ground arith

  same_name :
      (name : String) (fuel : ℕ) (b : Budget) (ds : List String) {r : Budget × List String}
      → add_parents P fuel (P.dir name) b ds ≡ ok r
      → contains ds name ≡ contains r.1 name
  same_name name fuel b ds e = elim (Bool-cases (contains ds name)) [
    | inl there ↦ there ∙ sym (add_parents-contains P fuel (P.dir name) b ds name there e)
    | inr new ↦ new ∙ sym (add_parents-keeps_name P name fuel b ds e new)
  ]

  pub directories_after-Grown :
      (h : Header) (b : Budget) (ds : List String) (fuel j : ℕ) {r : Budget × List String}
      → add_parents P fuel (P.dir (P.clean h.name)) b ds ≡ ok r
      → length r.1 ≡ length ds + j
      → Closed P r.1
      → IsTop P (P.dir (P.clean h.name)) ⊎ (contains r.1 (P.dir (P.clean h.name)) ≡ true)
      → Grown h ds (directories_after h r.1) j
  directories_after-Grown h b ds fuel j {r = r} e longer closed start =
      let name = P.clean h.name in
      record {
        members = λ d. ground (
          arith,
          contains-directories_after h r.1 d,
          add_parents-only P name fuel (P.dir name) b ds d (λ below. parent refl below) e,
          λ (k : contains ds d ≡ true). add_parents-contains P fuel (P.dir name) b ds d k e,
          λ (k : IsAbove P name d). above-contains P name r.1 closed start k,
        );
        new_directories =
            omega (arith, length-directories_after h ds r.1 (same_name name fuel b ds e), longer);
      }
