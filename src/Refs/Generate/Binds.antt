-- ===== src/Refs/Generate/Binds.antt =====
-- How a generated input and its binding go together, and the paths that they hold.
use kubocd.Common.{ℕ, ◌<◌, String, ◌≡◌, ◌≢◌, ◌⊎◌, inl, inr, ap}
use kubocd.Common.{Bool, false, none, some, List, [], ◌∷◌, ◌++◌}
use kubocd.Common.{arith, All, Option-cases, ◌==◌, string_eq}
use mathlib.Core.Option.{none-ne-some, some-injective}
use kubocd.Common.Int64.{pos, half_modulus}
use kubocd.Value.{Value, str}
use kubocd.Package.Inputs.{InputRendered}
use kubocd.Refs.Path.{Strconv}
use kubocd.Refs.Path.Laws.{Key, position, entry, child, get_at, key_of, keys_of}
use kubocd.Refs.Decl.{RefBinding}
use kubocd.Refs.Generate.{Generated, format_alias}

-- A path segment as the code writes it: a map key that is not a number, or a list index.
abbrev pub IsCanonical : Strconv → String → Type 0
IsCanonical S seg = (S.atoi seg ≡ none) ⊎ ((i : ℕ) × (i < half_modulus) × (seg ≡ S.itoa i))

module _ (S : Strconv) (tree : Bool → Value) where
  -- The input and the binding that one name in a tree gives.
  pub record Binds (ir : InputRendered) (b : RefBinding) : Type 0 where
    pub same_alias : ir.alias ≡ b.alias
    pub alias_of_path : b.alias ≡ format_alias S b.path b.in_context
    pub reads_name :
        get_at (keys_of S b.path) (tree b.in_context) ≡ some (str ir.connection_ref.name)
    pub has_name : ir.connection_ref.name ≢ ""
    pub canonical : All (IsCanonical S) b.path
    pub gates : ir.optional ≡ false

  -- The two slices go together.
  abbrev pub AllBind : List InputRendered → List RefBinding → Type 0
  AllBind [] [] = Unit {0}
  AllBind (ir ∷ irs) (b ∷ bs) = Binds ir b × AllBind irs bs
  AllBind irs bs = ⊥

  pub AllBind-append :
      (irs : List InputRendered) (bs : List RefBinding) {ir : InputRendered} {b : RefBinding}
      → AllBind irs bs
      → Binds ir b
      → AllBind (irs ++ (ir ∷ [])) (bs ++ (b ∷ []))
  AllBind-append [] [] h new = (new, tt)
  AllBind-append [] (b ∷ bs) h new = absurd h
  AllBind-append (ir ∷ irs) [] h new = absurd h
  AllBind-append (ir ∷ irs) (b ∷ bs) h new = (h.0, AllBind-append irs bs h.1 new)

  abbrev pub GeneratedBinds : Generated → Type 0
  GeneratedBinds g = AllBind g.inputs g.bindings

-- A segment of a declaration path: a list, or a name that is not the text of a number.
abbrev pub IsPlain : Strconv → String → Type 0
IsPlain S seg = (seg ≡ "[]") ⊎ (S.atoi seg ≡ none)

pub get_at-append :
    (p : List Key) (k : Key) (t : Value) {v c : Value}
    → get_at p t ≡ some v
    → child k v ≡ some c
    → get_at (p ++ (k ∷ [])) t ≡ some c
get_at-append [] k t h e = rw (ap (child k) (some-injective _ _ h), e, get_at)
get_at-append (j ∷ p) k t h e = elim (Option-cases (child j t)) [
  | inl none_there ↦ absurd (none-ne-some _ (rw (none_there, get_at) at h))
  | inr (u, there) ↦ rw (there, get_at) (get_at-append p k u (rw (there, get_at) at h) e)
]

pub key_of-itoa : (S : Strconv) (i : ℕ) → i < half_modulus → key_of S (S.itoa i) ≡ position (pos i)
key_of-itoa S i lt = rw (S.atoi-itoa i lt, key_of)

pub none_of_plain :
    (S : Strconv) (seg : String) → IsPlain S seg → (seg == "[]") ≡ false → S.atoi seg ≡ none
none_of_plain S seg plain key = ground arith

pub key_of_plain :
    (S : Strconv) (seg : String) → IsPlain S seg → (seg == "[]") ≡ false → key_of S seg ≡ entry seg
key_of_plain S seg plain key = rw (none_of_plain S seg plain key, key_of)
