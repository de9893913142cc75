-- ===== src/Tests/References.antt =====
-- internal/controller/release_paramrefs.go at concrete parameters. A stand-in for `strconv` writes
-- a number as a `1` with that many `0` after it.
use Prim.Native.String.{len}
use text.Mathlib.TextEquality.{eq_iff}
use text.Mathlib.TextPositions.{len-append}
use kubocd.Common.{
  ℕ, zero, suc, ◌<◌, ◌-◌, String, ◌<>◌, ◌≡◌, refl, inl, inr, true, false, Option, some, none, List,
  [], ◌∷◌, map, contains, ok,
}
use kubocd.Common.{arith, All, ◌==◌, ==_refl, string_eq, if◌then◌else◌, ◌∙◌}
use kubocd.Common.Int64.{ℤ, pos, half_modulus}
use kubocd.Value.{Value, number, str, array, object, nil, item, Fields, end, field}
use kubocd.Value.Maps.{get_field, set_field}
use kubocd.Value.Sized.{IsSized}
use kubocd.Package.Inputs.{InputRendered}
use kubocd.Refs.Path.{Strconv, set_at_path}
use kubocd.Refs.Path.Laws.{Key, position, entry, get_at, keys_of, Apart}
use kubocd.Refs.Path.Laws.{get_at-set_at_path, get_at-set_at_path-Apart, set_at_path_total}
use kubocd.Refs.Decl.{ConnectionDecl, RefBinding, Trees, tree_of}
use kubocd.Refs.Generate.{Generated, generate_ref_inputs, ref_input, format_alias}
use kubocd.Refs.Generate.Binds.{AllBind}
use kubocd.Refs.Generate.Laws.{AllPlain, generate_ref_inputs-binds}
use kubocd.Refs.Generate.Aliases.{format_alias_dot}
use kubocd.Refs.Apply.{Applied, apply_ref_bindings}
use kubocd.Refs.Apply.Laws.{NodupAliases, IsReady, IsSubstituted}
use kubocd.Refs.Apply.Laws.{apply_ref_bindings-IsSubstituted}
use kubocd.Refs.Resolve.{apply-generate_ref_inputs}

abbrev pub zeros : ℕ → String
zeros zero = ""
zeros (suc n) = zeros n <> "0"

abbrev pub itoa : ℕ → String
itoa n = "1" <> zeros n

abbrev pub atoi : String → Option ℤ
atoi s = if s == itoa (len s - 1) then some (pos (len s - 1)) else none

len-zeros : (n : ℕ) → len (zeros n) ≡ n
len-zeros zero = refl
len-zeros (suc n) = len-append (zeros n) "0" ∙ omega (arith, len-zeros n)

len-itoa : (n : ℕ) → len (itoa n) - 1 ≡ n
len-itoa n = omega (arith, len-append "1" (zeros n), len-zeros n)

pub atoi-itoa : (n : ℕ) → n < half_modulus → atoi (itoa n) ≡ some (pos n)
atoi-itoa n h = rw (len-itoa n, ==_refl (itoa n)) refl

abbrev pub unary : Strconv
unary = record { atoi = atoi; itoa = itoa; atoi-itoa = atoi-itoa }

-- Two names in a list, and a number that is no name.
abbrev pub parameters : Fields
parameters =
    field "size" (number "3") (field "dbs" (array (item (str "main") (item (str "audit") nil))) end)

abbrev pub context : Fields
context = field "platform" (object (field "oidc" (str "login") end)) end

abbrev pub dbs : ConnectionDecl
dbs = record {
  path = "dbs" ∷ "[]" ∷ [];
  contract = "postgres";
  required = true;
  default_template = "";
  kind_filter = "";
}

abbrev pub oidc : ConnectionDecl
oidc = record {
  path = "platform" ∷ "oidc" ∷ [];
  contract = "oidc";
  required = true;
  default_template = "";
  kind_filter = "ClusterConnection";
}

abbrev pub first_alias : String
first_alias = "parameters.dbs[1]"

abbrev pub second_alias : String
second_alias = "parameters.dbs[10]"

abbrev pub oidc_alias : String
oidc_alias = "context.platform.oidc"

abbrev pub generated : Generated
generated = record {
  inputs =
      ref_input unary dbs first_alias "main" "apps"
      ∷ ref_input unary dbs second_alias "audit" "apps"
      ∷ ref_input unary oidc oidc_alias "login" "apps"
      ∷ [];
  bindings =
      record { alias = first_alias; path = "dbs" ∷ "1" ∷ []; in_context = false }
      ∷ record { alias = second_alias; path = "dbs" ∷ "10" ∷ []; in_context = false }
      ∷ record { alias = oidc_alias; path = "platform" ∷ "oidc" ∷ []; in_context = true }
      ∷ [];
}

pub generates :
    generate_ref_inputs unary (dbs ∷ []) (oidc ∷ []) (object parameters) (object context) "apps" []
    ≡ ok generated
unfolding generate_ref_inputs format_alias get_field string_eq
generates = refl

abbrev dbs_set : Value
dbs_set =
    object (
      field "size" (number "3")
        (field "dbs" (array (item (str "main") (item (str "new") nil))) end))

sets : set_at_path unary ("dbs" ∷ "10" ∷ []) (object parameters) (str "new") ≡ ok dbs_set
unfolding set_at_path get_field set_field string_eq
sets = refl

get_at-set_at_path_example : get_at (keys_of unary ("dbs" ∷ "10" ∷ [])) dbs_set ≡ some (str "new")
get_at-set_at_path_example =
    get_at-set_at_path unary ("dbs" ∷ "10" ∷ []) (object parameters) (str "new") sets

abbrev first : List Key
first = entry "dbs" ∷ position (pos 0) ∷ []

apart : Apart (keys_of unary ("dbs" ∷ "10" ∷ [])) first
unfolding string_eq
apart = inr (refl, inl (ground arith))

get_at-set_at_path-Apart_example : get_at first dbs_set ≡ get_at first (object parameters)
get_at-set_at_path-Apart_example =
    get_at-set_at_path-Apart unary ("dbs" ∷ "10" ∷ []) first (object parameters) (str "new") apart
      sets

leads : get_at (keys_of unary ("dbs" ∷ "10" ∷ [])) (object parameters) ≡ some (str "audit")
unfolding get_field string_eq
leads = refl

set_at_path_total_example :
    (tree : Value) × (set_at_path unary ("dbs" ∷ "10" ∷ []) (object parameters) (str "new")
      ≡ ok tree)
set_at_path_total_example =
    set_at_path_total unary "dbs" ("10" ∷ []) (object parameters) (str "new") leads

pub dbs-plain : AllPlain unary (dbs ∷ [])
unfolding string_eq
dbs-plain = ((inr refl, (inl refl, tt)), tt)

pub oidc-plain : AllPlain unary (oidc ∷ [])
unfolding string_eq
oidc-plain = ((inr refl, (inr refl, tt)), tt)

pub parameters-IsSized : IsSized (object parameters)
parameters-IsSized = (tt, ((omega arith, (tt, (tt, tt))), tt))

pub context-IsSized : IsSized (object context)
context-IsSized = ((tt, tt), tt)

abbrev pub trees : Trees
trees = record { parameters = object parameters; context = object context }

generate_ref_inputs-binds_example :
    AllBind unary (tree_of trees) generated.inputs generated.bindings
    × All
        (λ (ir : InputRendered).
          contains (map (λ (si : InputRendered). si.alias) []) ir.alias ≡ false)
        generated.inputs
generate_ref_inputs-binds_example =
    generate_ref_inputs-binds unary (dbs ∷ []) (oidc ∷ []) (object parameters) (object context)
      "apps" [] dbs-plain oidc-plain parameters-IsSized context-IsSized generates

-- The input model once the inputs are resolved, with an input of the stanza.
abbrev model : Fields
model = field first_alias (object (field "host" (str "db1") end)) (
    field "stanza" (str "kept") (
      field second_alias (object (field "host" (str "db2") end))
        (field oidc_alias (object (field "issuer" (str "url") end)) end)))

pub distinct : NodupAliases generated.bindings
distinct = (
  (
    ground (arith, eq_iff first_alias second_alias),
    (ground (arith, eq_iff first_alias oidc_alias), tt),
  ),
  ((ground (arith, eq_iff second_alias oidc_alias), tt), (tt, tt)),
)

resolutions :
    All (λ (b : RefBinding). (v : Value) × (get_field b.alias model ≡ some v)) generated.bindings
unfolding get_field string_eq
resolutions = (
  (object (field "host" (str "db1") end), refl),
  (
    (object (field "host" (str "db2") end), refl),
    ((object (field "issuer" (str "url") end), refl), tt),
  ),
)

apply-generate_ref_inputs_example :
    (r : Applied) × (apply_ref_bindings unary generated.bindings model trees ≡ ok r)
    × IsSubstituted unary generated.bindings model trees r
apply-generate_ref_inputs_example =
    apply-generate_ref_inputs unary (dbs ∷ []) (oidc ∷ []) parameters context "apps" [] model
      dbs-plain oidc-plain parameters-IsSized context-IsSized generates distinct resolutions

abbrev oidc_binding : RefBinding
oidc_binding = record { alias = oidc_alias; path = "platform" ∷ "oidc" ∷ []; in_context = true }

oidc-IsReady : IsReady unary model trees oidc_binding
unfolding get_field string_eq
oidc-IsReady = record {
  resolved = (object (field "issuer" (str "url") end), refl);
  nonempty = λ e. ground (arith, e);
  present = (str "login", refl);
}

apply_ref_bindings-IsSubstituted_example :
    (r : Applied) × (apply_ref_bindings unary (oidc_binding ∷ []) model trees ≡ ok r)
    × IsSubstituted unary (oidc_binding ∷ []) model trees r
apply_ref_bindings-IsSubstituted_example =
    apply_ref_bindings-IsSubstituted unary (oidc_binding ∷ []) model trees (tt, tt) (tt, tt)
      (oidc-IsReady, tt)

format_alias_dot_example :
    format_alias unary ("db" ∷ "host" ∷ []) false ≡ format_alias unary ("db.host" ∷ []) false
unfolding string_eq
format_alias_dot_example = format_alias_dot unary "db" "host" false refl refl refl
