-- ===== src/Archive/Reader.antt =====
-- `Reader` of internal/archiveio/reader.go: `Next`, `account`, `CopyMetadata`, `ReserveListing`.
-- Go's `path.Clean` and `path.Dir` are a parameter, and so is what `tar.Reader.Next` gives.
-- After an error `Next` gives nothing but that error again, so the counters of the failed call are
-- not kept.
pub mod Next
pub mod Account
pub mod Members
pub mod Grown
pub mod Bounds
pub mod Whole
use kubocd.Common.{
  ℕ, zero, suc, ◌<◌, String, ◌≡◌, ◌≢◌, ◌⊎◌, Bool, true, false, ◌||◌, Option, none, some,
}
use kubocd.Common.{List, [], ◌∷◌, Result, ok, err, ◌>>=◌, contains, ◌==◌, string_eq, if◌then◌else◌}
use kubocd.Common.Int64.{ℤ, pos}
use kubocd.Archive.Budget.{Budget, LimitError, reserve_content, reserve_entries, reserve_metadata}
use kubocd.Archive.Budget.{reserve_listing}

-- Of Go's package `path`. `Dir` gives ".", "/" or a shorter text.
pub record PathOps : Type 0 where
  pub clean : String → String
  pub dir : String → String
  pub length : String → ℕ
  pub dir_shorter : (d : String) → (dir d ≡ ".") ⊎ (dir d ≡ "/") ⊎ (length (dir d) < length d)

-- What the reader reads of a `tar.Header`.
pub record Header : Type 0 where
  pub name : String
  pub size : ℤ
  pub is_dir : Bool

pub data ReadError : Type 0 where
  limit : LimitError → ReadError
  read_archive : String → ReadError
  data_after_end : ReadError
  eof : ReadError

-- What `r.tar.Next()` returns; at the end of the archive, what `r.finish()` returns then.
pub data TarStep : Type 0 where
  header : Header → TarStep
  tar_end : Option ReadError → TarStep
  tar_error : String → TarStep

pub record Reader : Type 0 where
  pub budget : Budget
  pub directories : List String
  pub current : Option Header
  pub done : Bool
  pub failure : Option ReadError

-- `r.directories[name] = true`
pub add_directory : String → List String → List String
add_directory name directories =
    if contains directories name then directories else name ∷ directories

module _ (P : PathOps) where
  -- The loop of `account`, from the directory `dir` up; the fuel is the length of the name.
  pub add_parents : ℕ → String → Budget → List String → Result LimitError (Budget × List String)
  add_parents zero dir b directories = ok (b, directories)
  add_parents (suc fuel) dir b directories =
      if dir == "." || dir == "/" || contains directories dir
      then ok (b, directories)
      else reserve_entries b (pos 1) >>= λ b'. add_parents fuel (P.dir dir) b' (dir ∷ directories)

  unfoldable pub account : Header → Budget → List String → Result LimitError (Budget × List String)
  unfolding add_parents add_directory
  account h b directories = do
    b₁ ← reserve_content b h.size
    b₂ ← reserve_entries b₁ (pos 1)
    let name = P.clean h.name
    if b₂.limits.disabled
        then ok (b₂, directories)
        else add_parents (suc (P.length name)) (P.dir name) b₂ directories >>= λ r.
            ok (r.0, if h.is_dir then add_directory name r.1 else r.1)

  unfoldable pub fail : Reader → ReadError → Reader × Result ReadError Header
  fail r e = (record r { failure = some e }, err e)

  next_header : Header → Reader → Reader × Result ReadError Header
  unfolding fail
  next_header h r = elim (account h r.budget r.directories) [
    | err e ↦ fail r (limit e)
    | ok b ↦ (record r { budget = b.0; directories = b.1; current = some h }, ok h)
  ]

  next_step : TarStep → Reader → Reader × Result ReadError Header
  unfolding next_header fail
  next_step (header h) r = next_header h r
  next_step (tar_end none) r = (record r { done = true }, err eof)
  next_step (tar_end (some e)) r = fail r e
  next_step (tar_error message) r = fail r (read_archive message)

  -- `Next`; the step is what the tar reader gives, if it is asked.
  unfoldable pub next : TarStep → Reader → Reader × Result ReadError Header
  unfolding next_step
  next step r = elim r.failure [
    | some e ↦ (r, err e)
    | none ↦ if r.done then (r, err eof) else next_step step r
  ]

-- `CopyMetadata` up to the copy, which reads the current entry.
unfoldable pub copy_metadata : Header → Reader → Result LimitError Reader
copy_metadata current r = do
  b ← reserve_metadata (record (r.budget) { metadata = pos 0 }) current.size
  ok (record r { budget = b })

unfoldable pub reserve_listing_of : ℤ → Reader → Result LimitError Reader
reserve_listing_of n r = do b ← reserve_listing r.budget n; ok (record r { budget = b })
