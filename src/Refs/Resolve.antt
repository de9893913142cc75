-- ===== src/Refs/Resolve.antt =====
-- From the generated inputs to the substitution: `GenerateRefInputs`, then, once the inputs are
-- resolved, `ApplyRefBindings`, as the reconciler of a Release calls them.
use mathlib.Core.Path.{ap₂}
use native.Mathlib.Decide.{ℕ_discrete}
use mathlib.Core.Option.{none-ne-some, some-injective}
use kubocd.Common.{String, ◌≡◌, ◌≢◌, inl, inr, refl, sym, ap, ◌∙◌, ℕ, ◌<◌, string_eq}
use kubocd.Common.{Bool, true, false, none, some, List, [], ◌∷◌, ok}
use kubocd.Common.{All, All-map₂}
use kubocd.Common.Int64.{pos, negsuc, half_modulus}
use kubocd.Value.{Value, str, object, Fields}
use kubocd.Value.Maps.{get_field}
use kubocd.Value.Sized.{IsSized}
use kubocd.Package.Inputs.{InputRendered}
use kubocd.Refs.Path.{Strconv}
use kubocd.Refs.Path.Laws.{
  Key, position, entry, child, get_at, get_at-child, key_of, keys_of, Apart,
}
use kubocd.Refs.Decl.{ConnectionDecl, RefBinding}
use kubocd.Refs.Generate.{Generated, format_alias, generate_ref_inputs}
use kubocd.Refs.Generate.Binds.{AllBind, IsCanonical, key_of-itoa}
use kubocd.Refs.Generate.Laws.{AllPlain, generate_ref_inputs-binds}
use kubocd.Refs.Decl.{Trees, tree_of}
use kubocd.Refs.Apply.{Applied, apply_ref_bindings}
use kubocd.Refs.Apply.Laws.{NodupAliases, AllParted, Parted, IsReady, IsSubstituted}
use kubocd.Refs.Apply.Laws.{apply_ref_bindings-IsSubstituted}

Key-discrete : Discrete Key
Key-discrete = hlevel (ℕ_discrete, string_eq.dec)

child-str : (k : Key) (s : String) → child k (str s) ≡ none
child-str (position (pos i)) s = refl
child-str (position (negsuc n)) s = refl
child-str (entry k) s = refl

not_below_str :
    (k : Key) (q : List Key) (t : Value) {s : String} {w : Value}
    → t ≡ str s
    → get_at (k ∷ q) t ≢ some w
not_below_str k q t {s = s} e h =
    let (c, hc, _) = get_at-child k q t h in
    none-ne-some c (sym (child-str k s) ∙ ap (child k) (sym e) ∙ hc)

-- Two paths of one tree that lead to strings are the same path, or part.
Apart-of_strings :
    (p q : List Key) (t : Value) {s r : String}
    → get_at p t ≡ some (str s)
    → get_at q t ≡ some (str r)
    → p ≢ q
    → Apart p q
Apart-of_strings [] [] t hp hq ne = absurd (ne refl)
Apart-of_strings [] (k ∷ q) t hp hq ne = absurd (not_below_str k q t (some-injective _ _ hp) hq)
Apart-of_strings (k ∷ p) [] t hp hq ne = absurd (not_below_str k p t (some-injective _ _ hq) hp)
Apart-of_strings (k ∷ p) (j ∷ q) t hp hq ne = elim (Key-discrete k j) [
  | no other ↦ inl other
  | yes same ↦
      let (c, hc, hcp) = get_at-child k p t hp in
      let (d, hd, hdq) = get_at-child j q t hq in
      let c_is_d : c ≡ d = some-injective c d (sym hc ∙ ap (λ x. child x t) same ∙ hd) in
      inr (
        same,
        Apart-of_strings p q d (ap (get_at p) (sym c_is_d) ∙ hcp) hdq (λ e. ne (ap₂ ◌∷◌ same e)),
      )
]

key_of-none : (S : Strconv) (seg : String) → S.atoi seg ≡ none → key_of S seg ≡ entry seg
key_of-none S seg h = rw (h, key_of)

key_of_position :
    (S : Strconv) (seg : String) (i : ℕ)
    → i < half_modulus
    → seg ≡ S.itoa i
    → key_of S seg ≡ position (pos i)
key_of_position S seg i lt e = rw e (key_of-itoa S i lt)

key_of-injective :
    (S : Strconv) (a b : String)
    → IsCanonical S a
    → IsCanonical S b
    → key_of S a ≡ key_of S b
    → a ≡ b
key_of-injective S a b (inl ha) (inl hb) e = cc (key_of-none S a ha, key_of-none S b hb)
key_of-injective S a b (inl ha) (inr (j, lt, hb)) e =
    cc (key_of-none S a ha, key_of_position S b j lt hb)
key_of-injective S a b (inr (i, lt, ha)) (inl hb) e =
    cc (key_of_position S a i lt ha, key_of-none S b hb)
key_of-injective S a b (inr (i, lt, ha)) (inr (j, lt', hb)) e =
    cc (key_of_position S a i lt ha, key_of_position S b j lt' hb)

keys_of-injective :
    (S : Strconv) (p q : List String)
    → All (IsCanonical S) p
    → All (IsCanonical S) q
    → keys_of S p ≡ keys_of S q
    → p ≡ q
keys_of-injective S [] [] hp hq e = refl
keys_of-injective S [] (b ∷ q) hp hq e = cc
keys_of-injective S (a ∷ p) [] hp hq e = cc
keys_of-injective S (a ∷ p) (b ∷ q) hp hq e =
    ap₂ ◌∷◌ (key_of-injective S a b hp.0 hq.0 (cc)) (keys_of-injective S p q hp.1 hq.1 (cc))

-- What a binding is known by, whatever input it goes with.
record ReadsName (S : Strconv) (trees : Trees) (b : RefBinding) : Type 0 where
  connection : String
  alias_of_path : b.alias ≡ format_alias S b.path b.in_context
  reads_name : get_at (keys_of S b.path) (tree_of trees b.in_context) ≡ some (str connection)
  canonical : All (IsCanonical S) b.path

module _ (S : Strconv) (trees : Trees) where
  AllBind-ReadsName :
      (irs : List InputRendered) (bs : List RefBinding)
      → AllBind S (tree_of trees) irs bs
      → All (ReadsName S trees) bs
  AllBind-ReadsName [] [] h = tt
  AllBind-ReadsName [] (b ∷ bs) h = absurd h
  AllBind-ReadsName (ir ∷ irs) [] h = absurd h
  AllBind-ReadsName (ir ∷ irs) (b ∷ bs) h = (
    record {
      connection = ir.connection_ref.name;
      alias_of_path = h.0.alias_of_path;
      reads_name = h.0.reads_name;
      canonical = h.0.canonical;
    },
    AllBind-ReadsName irs bs h.1,
  )

  ReadsName-Parted :
      (b c : RefBinding)
      → ReadsName S trees b
      → ReadsName S trees c
      → b.alias ≢ c.alias
      → Parted S b c
  ReadsName-Parted b c hb hc ne same =
      let differ : keys_of S b.path ≢ keys_of S c.path = λ e. ne (
        hb.alias_of_path
        ∙ (ap₂ (format_alias S) (keys_of-injective S b.path c.path hb.canonical hc.canonical e) same
            ∙ sym hc.alias_of_path)) in
      let reads_c : get_at (keys_of S c.path) (tree_of trees b.in_context)
          ≡ some (str hc.connection) =
        ap (λ ic. get_at (keys_of S c.path) (tree_of trees ic)) same ∙ hc.reads_name in
      (
        Apart-of_strings _ _ _ hb.reads_name reads_c differ,
        Apart-of_strings _ _ _ reads_c hb.reads_name (λ e. differ (sym e)),
      )

  ReadsName-AllParted :
      (bs : List RefBinding) → NodupAliases bs → All (ReadsName S trees) bs → AllParted S bs
  ReadsName-AllParted [] nodup h = tt
  ReadsName-AllParted (b ∷ bs) nodup h = (
    All-map₂ _ _ (Parted S b) bs (λ c hc ne. ReadsName-Parted b c h.0 hc ne) h.1 nodup.0,
    ReadsName-AllParted bs nodup.1 h.1,
  )

tree_of-ne-str :
    (parameters context : Fields) (ic : Bool) {s : String}
    → tree_of (record { parameters = object parameters; context = object context }) ic ≢ str s
tree_of-ne-str parameters context true e = cc
tree_of-ne-str parameters context false e = cc

-- A map is no string, so that no path is empty.
ReadsName-nonempty :
    (S : Strconv) (parameters context : Fields) (b : RefBinding)
    → ReadsName S (record { parameters = object parameters; context = object context }) b
    → b.path ≢ []
ReadsName-nonempty S parameters context b h e =
    let trees : Trees = record { parameters = object parameters; context = object context } in
    tree_of-ne-str parameters context b.in_context (
      some-injective _ _
        (ap (λ p. get_at (keys_of S p) (tree_of trees b.in_context)) (sym e) ∙ h.reads_name))

-- The reconciler's two steps fit together. No segment of a declared path is read as a number, but
-- for the mark of a list, and all lists are shorter than 2^63. Where the generated aliases are distinct and every one
-- of them is resolved in the input model, the substitution does not fail: each place that held a
-- connection's name holds the resolved values, the generated aliases are gone from the model, and
-- all else in the parameters, the context and the model is as it was.
pub apply-generate_ref_inputs :
    (S : Strconv) (param_decls context_decls : List ConnectionDecl) (parameters context : Fields)
    (ns : String) (stanza : List InputRendered) (model : Fields) {g : Generated}
    → AllPlain S param_decls
    → AllPlain S context_decls
    → IsSized (object parameters)
    → IsSized (object context)
    → generate_ref_inputs S param_decls context_decls (object parameters) (object context) ns stanza
      ≡ ok g
    → NodupAliases g.bindings
    → All (λ (b : RefBinding). (v : Value) × (get_field b.alias model ≡ some v)) g.bindings
    → let trees : Trees = record { parameters = object parameters; context = object context } in
      (r : Applied) × (apply_ref_bindings S g.bindings model trees ≡ ok r)
      × IsSubstituted S g.bindings model trees r
apply-generate_ref_inputs S ps cs parameters context ns stanza model {g = g} plain_p plain_c sized_p
      sized_c h nodup resolved =
    let trees : Trees = record { parameters = object parameters; context = object context } in
    let (binds, _) =
      generate_ref_inputs-binds S ps cs (object parameters) (object context) ns stanza plain_p
        plain_c sized_p sized_c h in
    let reads = AllBind-ReadsName S trees g.inputs g.bindings binds in
    apply_ref_bindings-IsSubstituted S g.bindings model trees nodup
      (ReadsName-AllParted S trees g.bindings nodup reads)
      (All-map₂ _ _ (IsReady S model trees) g.bindings
        (λ b known hb. record {
          resolved = known;
          nonempty = ReadsName-nonempty S parameters context b hb;
          present = (str hb.connection, hb.reads_name);
        })
        resolved reads)
