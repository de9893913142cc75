-- ===== src/Refs/Generate.antt =====
-- `GenerateRefInputs` of internal/controller/release_paramrefs.go and what it calls.
-- The two slices that the code appends to through pointers are the record `Generated`.
pub mod Aliases
pub mod Binds
pub mod Expand
pub mod Laws
use kubocd.Common.{ℕ, zero, suc, String, ◌<>◌, Bool, true, false, not, ◌&&◌, Option, none, some}
use kubocd.Common.{List, [], ◌∷◌, ◌++◌, map, Result, ok, err, ◌>>=◌, ◌>>◌, fail_if, contains}
use kubocd.Common.{◌==◌, string_eq, if◌then◌else◌}
use kubocd.Value.{Value, str, array, object, Items, nil, item, Fields}
use kubocd.Value.Maps.{get_field}
use kubocd.Package.Kinds.{kind_cluster_connection}
use kubocd.Package.Inputs.{InputRendered}
use kubocd.Refs.Path.{Strconv}
use kubocd.Refs.Decl.{ConnectionDecl, RefBinding}

-- Each with the alias of the parameter.
pub data RefError : Type 0 where
  name_required : String → RefError
  not_a_name : String → RefError
  alias_collides : String → RefError

pub record Generated : Type 0 where
  pub inputs : List InputRendered
  pub bindings : List RefBinding

abbrev pub nothing_yet : Generated
nothing_yet = record { inputs = []; bindings = [] }

module _ (S : Strconv) where
  -- One round of the loop of `formatAlias`.
  format_segment : String → String
  format_segment seg = elim (S.atoi seg) [ some idx ↦ "[" <> (seg <> "]") | none ↦ "." <> seg ]

  format_segments : String → List String → String
  format_segments sb [] = sb
  format_segments sb (seg ∷ concrete) = format_segments (sb <> format_segment seg) concrete

  unfoldable pub format_alias : List String → Bool → String
  unfolding format_segments format_segment
  format_alias concrete in_context =
      format_segments (if in_context then "context" else "parameters") concrete

  -- The input of `emitDecl`. Every field that the code leaves alone has its zero value.
  unfoldable pub ref_input : ConnectionDecl → String → String → String → InputRendered
  ref_input decl alias name release_namespace = record {
    contract = decl.contract;
    kind = decl.kind_filter;
    connection_ref = record {
      name = name;
      namespace = if decl.kind_filter == kind_cluster_connection then "" else release_namespace;
    };
    release_ref = record { name = ""; namespace = ""; output = "" };
    alias = alias;
    optional = false;
    allow_multiple = false;
    contract_lookup_namespace = "";
  }

  module _ (in_context : Bool) (release_namespace : String) where
    emit_name : ConnectionDecl → List String → String → Generated → Result RefError Generated
    unfolding ref_input
    emit_name decl concrete name g =
        let alias = format_alias concrete in_context in
        if name == ""
        then (if decl.required then err (name_required alias) else ok g)
        else ok (record {
          inputs = g.inputs ++ (ref_input decl alias name release_namespace ∷ []);
          bindings =
              g.bindings
              ++ (record { alias = alias; path = concrete; in_context = in_context } ∷ []);
        })

    emit_decl : ConnectionDecl → List String → Value → Generated → Result RefError Generated
    unfolding emit_name
    emit_decl decl concrete (str name) g = emit_name decl concrete name g
    emit_decl decl concrete value g = err (not_a_name (format_alias concrete in_context))

    -- The loop over a list, from the index `i` on.
    expand_items :
        (ℕ → Value → Generated → Result RefError Generated)
        → ℕ
        → Items
        → Generated
        → Result RefError Generated
    expand_items expand i nil g = ok g
    expand_items expand i (item v l) g = do g' ← expand i v g; expand_items expand (suc i) l g'

    -- The "[]" segment: anything but a list expands to nothing.
    expand_list :
        (ℕ → Value → Generated → Result RefError Generated)
        → Value
        → Generated
        → Result RefError Generated
    unfolding expand_items
    expand_list expand (array l) g = expand_items expand 0 l g
    expand_list expand node g = ok g

    is_last : List String → Bool
    is_last [] = true
    is_last (seg ∷ rest) = false

    -- `child, ok := nodeMap[seg]`
    expand_child :
        ConnectionDecl
        → String
        → List String
        → List String
        → (Value → Generated → Result RefError Generated)
        → Option Value
        → Generated
        → Result RefError Generated
    unfolding is_last
    expand_child decl seg rest concrete expand none g = do
      fail_if (decl.required && is_last rest)
          (name_required (format_alias (concrete ++ (seg ∷ [])) in_context))
      ok g
    expand_child decl seg rest concrete expand (some child) g = expand child g

    -- `nodeMap, ok := node.(map[string]interface{})`
    expand_field :
        ConnectionDecl
        → String
        → List String
        → List String
        → (Value → Generated → Result RefError Generated)
        → Value
        → Generated
        → Result RefError Generated
    unfolding expand_child
    expand_field decl seg rest concrete expand (object m) g =
        expand_child decl seg rest concrete expand (get_field seg m) g
    expand_field decl seg rest concrete expand node g = ok g

    unfoldable pub expand_decl :
        ConnectionDecl → List String → List String → Value → Generated → Result RefError Generated
    unfolding emit_decl expand_list expand_field
    expand_decl decl [] concrete node g = emit_decl decl concrete node g
    expand_decl decl (seg ∷ rest) concrete node g =
        if seg == "[]"
        then expand_list (λ i v. expand_decl decl rest (concrete ++ (S.itoa i ∷ [])) v) node g
        else expand_field decl seg rest concrete
            (λ child. expand_decl decl rest (concrete ++ (seg ∷ [])) child) node g

    unfoldable pub generate_from_decls :
        List ConnectionDecl → Value → Generated → Result RefError Generated
    unfolding expand_decl
    generate_from_decls [] tree g = ok g
    generate_from_decls (decl ∷ decls) tree g = do
      g' ← expand_decl decl decl.path [] tree g
      generate_from_decls decls tree g'

  -- The loop over the generated inputs, which tells the first one that the stanza names too.
  check_aliases : List String → List InputRendered → Result RefError (Unit {0})
  check_aliases stanza [] = ok tt
  check_aliases stanza (gi ∷ inputs) =
      let rest = check_aliases stanza inputs in
      if contains stanza gi.alias then err (alias_collides gi.alias) else rest

  unfoldable pub generate_ref_inputs :
      List ConnectionDecl
      → List ConnectionDecl
      → Value
      → Value
      → String
      → List InputRendered
      → Result RefError Generated
  unfolding generate_from_decls check_aliases
  generate_ref_inputs param_decls context_decls parameters context release_namespace stanza = do
    g ← generate_from_decls false release_namespace param_decls parameters nothing_yet
    g' ← generate_from_decls true release_namespace context_decls context g
    check_aliases (map (λ (si : InputRendered). si.alias) stanza) g'.inputs
    ok g'
