-- ===== src/Refs/Generate/Expand.antt =====
-- `expandDecl` keeps inputs and bindings together: each binding leads to the name that its input
-- asks for.
use mathlib.Core.List.{map-append}
use mathlib.Core.Path.{subst}
use kubocd.Common.{ℕ, suc, ◌+◌, ◌<◌, String, ◌≡◌, inl, inr, refl}
use kubocd.Common.{Bool, true, Option, none, some, List, [], ◌∷◌, ◌++◌, Result, ok}
use kubocd.Common.{arith, All, All-append, Bool-cases, >>=-eq-ok, ok-injective, ◌==◌, string_eq}
use mathlib.Core.Option.{none-ne-some}
use kubocd.Common.Int64.{half_modulus}
use kubocd.Value.{Value, str, array, object, Items, nil, item}
use kubocd.Value.Maps.{get_field, get_elem?}
use kubocd.Value.Sized.{IsSized, get_elem?-IsSized, get_field-IsSized, get_elem?-lt}
use kubocd.Refs.Path.{Strconv}
use kubocd.Refs.Path.Laws.{entry, child, get_at, key_of, keys_of}
use kubocd.Refs.Decl.{ConnectionDecl}
use kubocd.Refs.Generate.{
  RefError, Generated, emit_name, emit_decl, expand_items, expand_list, expand_child, expand_field,
  expand_decl,
}
use kubocd.Refs.Generate.Binds.{
  AllBind-append, GeneratedBinds, IsPlain, IsCanonical, get_at-append, key_of-itoa, none_of_plain,
  key_of_plain,
}

module _ (S : Strconv) (tree : Bool → Value) (ic : Bool) (ns : String) (decl : ConnectionDecl) where
  -- The path taken so far leads to the node.
  abbrev LeadsTo : List String → Value → Type 0
  LeadsTo concrete node =
      (get_at (keys_of S concrete) (tree ic) ≡ some node) × All (IsCanonical S) concrete

  leads_on :
      (concrete : List String) (seg : String) (node : Value) {c : Value}
      → LeadsTo concrete node
      → IsCanonical S seg
      → child (key_of S seg) node ≡ some c
      → LeadsTo (concrete ++ (seg ∷ [])) c
  leads_on concrete seg node at canonical e = (
    rw (map-append) (get_at-append (keys_of S concrete) (key_of S seg) (tree ic) at.0 e),
    All-append (IsCanonical S) concrete (seg ∷ []) at.1 (canonical, tt),
  )

  same_generated :
      (concrete : List String) (name : String) {g g' : Generated}
      → (name == "") ≡ true
      → emit_name S ic ns decl concrete name g ≡ ok g'
      → g ≡ g'
  unfolding emit_name
  same_generated concrete name unset h = ground arith

  emit_name-binds :
      (concrete : List String) (name : String) (g : Generated) {g' : Generated}
      → LeadsTo concrete (str name)
      → GeneratedBinds S tree g
      → emit_name S ic ns decl concrete name g ≡ ok g'
      → GeneratedBinds S tree g'
  unfolding emit_name
  emit_name-binds concrete name g at b h = elim (Bool-cases (name == "")) [
    | inl unset ↦ subst (GeneratedBinds S tree) (same_generated concrete name unset h) b
    | inr set ↦ subst (GeneratedBinds S tree) (ok-injective (rw set at h)) (
        AllBind-append S tree g.inputs g.bindings b (record {
          same_alias = refl;
          alias_of_path = refl;
          reads_name = at.0;
          has_name = ground arith;
          canonical = at.1;
          gates = refl;
        }))
  ]

  emit_decl-binds :
      (concrete : List String) (node : Value) (g : Generated) {g' : Generated}
      → LeadsTo concrete node
      → GeneratedBinds S tree g
      → emit_decl S ic ns decl concrete node g ≡ ok g'
      → GeneratedBinds S tree g'
  unfolding emit_decl
  emit_decl-binds concrete (str name) g at b h = emit_name-binds concrete name g at b h
  emit_decl-binds concrete _ g at b h = cc

  -- What an expansion step keeps, at the nodes that satisfy `Fit`.
  abbrev Keeps : (ℕ → Value → Type 0) → (ℕ → Value → Generated → Result RefError Generated) → Type 0
  Keeps Fit expand =
      (i : ℕ) (v : Value) (g g' : Generated)
      → Fit i v
      → GeneratedBinds S tree g
      → expand i v g ≡ ok g'
      → GeneratedBinds S tree g'

  expand_items-binds :
      (Fit : ℕ → Value → Type 0) (expand : ℕ → Value → Generated → Result RefError Generated)
      → Keeps Fit expand
      → (i : ℕ) (l : Items) (g : Generated) {g' : Generated}
      → ((j : ℕ) (v : Value) → get_elem? l j ≡ some v → Fit (i + j) v)
      → GeneratedBinds S tree g
      → expand_items S ic ns expand i l g ≡ ok g'
      → GeneratedBinds S tree g'
  unfolding expand_items
  expand_items-binds Fit expand keep i nil g fits b h =
      subst (GeneratedBinds S tree) (ok-injective h) b
  expand_items-binds Fit expand keep i (item v l) g fits b h =
      let (g₁, h₁, h') = >>=-eq-ok (expand i v g) _ h in
      expand_items-binds Fit expand keep (suc i) l g₁
        (λ j w e. subst (λ n. Fit n w) (omega arith) (fits (suc j) w e))
        (keep i v g g₁ (subst (λ n. Fit n v) (omega arith) (fits 0 v refl)) b h₁) h'

  expand_list-binds :
      (expand : ℕ → Value → Generated → Result RefError Generated) (concrete : List String)
      → Keeps (λ i v. LeadsTo (concrete ++ (S.itoa i ∷ [])) v × IsSized v) expand
      → (node : Value) (g : Generated) {g' : Generated} → LeadsTo concrete node
      → IsSized node
      → GeneratedBinds S tree g
      → expand_list S ic ns expand node g ≡ ok g'
      → GeneratedBinds S tree g'
  unfolding expand_list
  expand_list-binds expand concrete keep (array l) g at sized b h =
      expand_items-binds _ expand keep 0 l g
        (λ j v e.
          let lt : j < half_modulus = omega (arith, get_elem?-lt l j v e, sized.0) in
          subst (λ n. LeadsTo (concrete ++ (S.itoa n ∷ [])) v × IsSized v) (omega arith)
            (
              leads_on concrete (S.itoa j) (array l) at (inr (j, lt, refl))
                  (rw (key_of-itoa S j lt) e),
              get_elem?-IsSized l j v sized.1 e,
            ))
        b h
  expand_list-binds expand concrete keep _ g at sized b h =
      subst (GeneratedBinds S tree) (ok-injective h) b

  expand_child-binds :
      (seg : String) (rest concrete : List String)
      (expand : Value → Generated → Result RefError Generated) (o : Option Value) (g : Generated)
      {g' : Generated}
      → ((c : Value) → o ≡ some c → expand c g ≡ ok g' → GeneratedBinds S tree g')
      → GeneratedBinds S tree g
      → expand_child S ic ns decl seg rest concrete expand o g ≡ ok g'
      → GeneratedBinds S tree g'
  unfolding expand_child
  expand_child-binds seg rest concrete expand (some c) g keep b h = keep c refl h
  expand_child-binds seg rest concrete expand none g keep b h =
      subst (GeneratedBinds S tree) (ground arith) b

  expand_field-binds :
      (seg : String) (rest concrete : List String)
      (expand : Value → Generated → Result RefError Generated) (node : Value) (g : Generated)
      {g' : Generated}
      → ((c : Value)
          → child (entry seg) node ≡ some c
          → expand c g ≡ ok g'
          → GeneratedBinds S tree g')
      → GeneratedBinds S tree g
      → expand_field S ic ns decl seg rest concrete expand node g ≡ ok g'
      → GeneratedBinds S tree g'
  unfolding expand_field
  expand_field-binds seg rest concrete expand (object m) g keep b h =
      expand_child-binds seg rest concrete expand (get_field seg m) g keep b h
  expand_field-binds seg rest concrete expand _ g keep b h =
      subst (GeneratedBinds S tree) (ok-injective h) b

  child-IsSized :
      (k : String) (node : Value) {c : Value}
      → IsSized node
      → child (entry k) node ≡ some c
      → IsSized c
  child-IsSized k (object m) sized e = get_field-IsSized k m _ sized e
  child-IsSized k (array l) sized e = absurd (none-ne-some _ e)
  child-IsSized k _ sized e = absurd (none-ne-some _ e)

  pub expand_decl-binds :
      (remaining concrete : List String) (node : Value) (g : Generated) {g' : Generated}
      → All (IsPlain S) remaining
      → LeadsTo concrete node
      → IsSized node
      → GeneratedBinds S tree g
      → expand_decl S ic ns decl remaining concrete node g ≡ ok g'
      → GeneratedBinds S tree g'
  unfolding expand_decl
  expand_decl-binds [] concrete node g plain at sized b h = emit_decl-binds concrete node g at b h
  expand_decl-binds (seg ∷ rest) concrete node g plain at sized b h =
      elim (Bool-cases (seg == "[]")) [
        | inl list ↦
            expand_list-binds (λ i v. expand_decl S ic ns decl rest (concrete ++ (S.itoa i ∷ [])) v)
              concrete
              (λ i v g₀ g₁ fit b₀ h₀.
                expand_decl-binds rest (concrete ++ (S.itoa i ∷ [])) v g₀ plain.1 fit.0 fit.1 b₀ h₀)
              node g at sized b (rw list at h)
        | inr key ↦
            expand_field-binds seg rest concrete
              (λ c. expand_decl S ic ns decl rest (concrete ++ (seg ∷ [])) c) node g
              (λ c e h₀.
                expand_decl-binds rest (concrete ++ (seg ∷ [])) c g plain.1
                  (leads_on concrete seg node at (inl (none_of_plain S seg plain.0 key))
                    (rw (key_of_plain S seg plain.0 key) e))
                  (child-IsSized seg node sized e) b h₀)
              b (rw key at h)
      ]
