-- ===== src/Refs/Generate/Laws.antt =====
-- What `GenerateRefInputs` returns.
use mathlib.Core.Path.{subst}
use kubocd.Common.{String, ◌≡◌, inl, inr, refl}
use kubocd.Common.{Bool, true, false, List, [], ◌∷◌, map, ok}
use kubocd.Common.{contains, err-ne-ok, All, Bool-cases, >>=-eq-ok, ok-injective, string_eq}
use kubocd.Value.{Value}
use kubocd.Value.Sized.{IsSized}
use kubocd.Package.Inputs.{InputRendered}
use kubocd.Refs.Path.{Strconv}
use kubocd.Refs.Decl.{tree_of, ConnectionDecl}
use kubocd.Refs.Generate.{
  Generated, nothing_yet, expand_decl, generate_from_decls, check_aliases, generate_ref_inputs,
}
use kubocd.Refs.Generate.Binds.{AllBind, GeneratedBinds, IsPlain}
use kubocd.Refs.Generate.Expand.{expand_decl-binds}

-- Every declaration path is plain, as `checkRefPathSegments` of the schema means to ensure.
abbrev pub AllPlain : Strconv → List ConnectionDecl → Type 0
AllPlain S = All (λ (decl : ConnectionDecl). All (IsPlain S) decl.path)

module _ (S : Strconv) (tree : Bool → Value) (ns : String) where
  generate_from_decls-binds :
      (ic : Bool) (decls : List ConnectionDecl) (g : Generated) {g' : Generated}
      → AllPlain S decls
      → IsSized (tree ic)
      → GeneratedBinds S tree g
      → generate_from_decls S ic ns decls (tree ic) g ≡ ok g'
      → GeneratedBinds S tree g'
  unfolding generate_from_decls
  generate_from_decls-binds ic [] g plain sized b h =
      subst (GeneratedBinds S tree) (ok-injective h) b
  generate_from_decls-binds ic (decl ∷ decls) g plain sized b h =
      let (g₁, h₁, h') = >>=-eq-ok (expand_decl S ic ns decl decl.path [] (tree ic) g) _ h in
      generate_from_decls-binds ic decls g₁ plain.1 sized
        (expand_decl-binds S tree ic ns decl decl.path [] (tree ic) g plain.0 (refl, tt) sized b h₁)
        h'

check_aliases-fresh :
    (S : Strconv) (stanza : List String) (irs : List InputRendered)
    → check_aliases S stanza irs ≡ ok tt
    → All (λ (ir : InputRendered). contains stanza ir.alias ≡ false) irs
unfolding check_aliases
check_aliases-fresh S stanza [] h = tt
check_aliases-fresh S stanza (ir ∷ irs) h = elim (Bool-cases (contains stanza ir.alias)) [
  | inl there ↦ absurd (err-ne-ok (rw there at h))
  | inr fresh ↦ (fresh, check_aliases-fresh S stanza irs (rw fresh at h))
]

-- No segment of a declared path is read as a number, but for the mark of a list, and all lists are
-- shorter than 2^63. Where the generation succeeds, each generated input goes with one binding of
-- the same alias, whose path leads, in the parameters or the context, to the non-empty connection
-- name that the input asks for; the input is not optional, and its alias is none of the stanza's.
pub generate_ref_inputs-binds :
    (S : Strconv) (param_decls context_decls : List ConnectionDecl) (parameters context : Value)
    (ns : String) (stanza : List InputRendered) {g : Generated}
    → AllPlain S param_decls
    → AllPlain S context_decls
    → IsSized parameters
    → IsSized context
    → generate_ref_inputs S param_decls context_decls parameters context ns stanza ≡ ok g
    → AllBind S
        (tree_of (record { parameters = parameters; context = context }))
        g.inputs
        g.bindings
      × All
          (λ (ir : InputRendered).
            contains (map (λ (si : InputRendered). si.alias) stanza) ir.alias ≡ false)
          g.inputs
unfolding generate_ref_inputs
generate_ref_inputs-binds S ps cs parameters context ns stanza plain_p plain_c sized_p sized_c h =
    let tree = tree_of (record { parameters = parameters; context = context }) in
    let (g₁, h₁, h₂) = >>=-eq-ok (generate_from_decls S false ns ps parameters nothing_yet) _ h in
    let (g₂, h₃, h₄) = >>=-eq-ok (generate_from_decls S true ns cs context g₁) _ h₂ in
    let (u, h₅, h₆) =
      >>=-eq-ok (check_aliases S (map (λ (si : InputRendered). si.alias) stanza) g₂.inputs) _ h₄ in
    let b₁ = generate_from_decls-binds S tree ns false ps nothing_yet plain_p sized_p tt h₁ in
    let b₂ = generate_from_decls-binds S tree ns true cs g₁ plain_c sized_c b₁ h₃ in
    subst
      (λ (r : Generated).
        AllBind S tree r.inputs r.bindings
        × All
            (λ (ir : InputRendered).
              contains (map (λ (si : InputRendered). si.alias) stanza) ir.alias ≡ false)
            r.inputs)
      (ok-injective h₆) (b₂, check_aliases-fresh S _ g₂.inputs h₅)
