-- ===== src/Refs/Apply/Laws.antt =====
-- What the substitution of the resolved connections does, in both trees and in the input model.
use kubocd.Common.{String, ◌≡◌, ◌≢◌, refl, ◌∙◌, sym, Bool, true, false, Option, none, some}
use kubocd.Common.{List, [], ◌∷◌, ok, arith, All, All-map, All-map₂, string_eq}
use mathlib.Core.Bool.{Bool-discrete}
use mathlib.Core.Path.{subst}
use kubocd.Value.{Value, Fields}
use kubocd.Value.Maps.{get_field, delete_field, get_field-delete_field}
use kubocd.Refs.Path.{Strconv, set_at_path}
use kubocd.Refs.Path.Laws.{Key, get_at, keys_of, Apart}
use kubocd.Refs.Path.Laws.{get_at-set_at_path, get_at-set_at_path-Apart, set_at_path_total}
use kubocd.Refs.Decl.{RefBinding}
use kubocd.Refs.Decl.{Trees, tree_of, with_tree}
use kubocd.Refs.Apply.{Applied, apply_ref_bindings}

-- No two bindings have one alias.
abbrev pub NodupAliases : List RefBinding → Type 0
NodupAliases [] = Unit {0}
NodupAliases (b ∷ bs) = All (λ (c : RefBinding). b.alias ≢ c.alias) bs × NodupAliases bs

module _ (S : Strconv) where
  abbrev pub path_keys : RefBinding → List Key
  path_keys b = keys_of S b.path

  abbrev pub read : Trees → RefBinding → Option Value
  read trees b = get_at (path_keys b) (tree_of trees b.in_context)

  -- Two bindings in one tree part at some step.
  abbrev pub Parted : RefBinding → RefBinding → Type 0
  Parted b c =
      b.in_context ≡ c.in_context
      → Apart (path_keys b) (path_keys c) × Apart (path_keys c) (path_keys b)

  abbrev pub AllParted : List RefBinding → Type 0
  AllParted [] = Unit {0}
  AllParted (b ∷ bs) = All (Parted b) bs × AllParted bs

  -- What the code relies on for each binding: a resolved value, and a path that leads somewhere.
  pub record IsReady (model : Fields) (trees : Trees) (b : RefBinding) : Type 0 where
    pub resolved : (v : Value) × (get_field b.alias model ≡ some v)
    pub nonempty : b.path ≢ []
    pub present : (v : Value) × (read trees b ≡ some v)

  pub record IsSubstituted (bs : List RefBinding) (model : Fields) (trees : Trees) (r : Applied)
      : Type 0 where
    pub substituted : All (λ (b : RefBinding). read r.trees b ≡ get_field b.alias model) bs
    pub removed : All (λ (b : RefBinding). get_field b.alias r.model ≡ none) bs
    pub others_kept :
        (k : String)
        → All (λ (b : RefBinding). k ≢ b.alias) bs
        → get_field k r.model ≡ get_field k model
    pub elsewhere_kept :
        (in_context : Bool) (q : List Key)
        → All (λ (b : RefBinding). b.in_context ≡ in_context → Apart (path_keys b) q) bs
        → get_at q (tree_of r.trees in_context) ≡ get_at q (tree_of trees in_context)

  tree_of-with_tree :
      (ic : Bool) (t : Value) (trees : Trees) → tree_of (with_tree ic t trees) ic ≡ t
  tree_of-with_tree true t trees = refl
  tree_of-with_tree false t trees = refl

  tree_of-with_tree_ne :
      (ic jc : Bool) (t : Value) (trees : Trees)
      → ic ≢ jc
      → tree_of (with_tree ic t trees) jc ≡ tree_of trees jc
  tree_of-with_tree_ne true true t trees ne = absurd (ne refl)
  tree_of-with_tree_ne true false t trees ne = refl
  tree_of-with_tree_ne false true t trees ne = refl
  tree_of-with_tree_ne false false t trees ne = absurd (ne refl)

  -- One write changes a tree only along its path.
  get_at-with_tree :
      (b : RefBinding) (v : Value) (trees : Trees) (t : Value) (jc : Bool) (q : List Key)
      → set_at_path S b.path (tree_of trees b.in_context) v ≡ ok t
      → (b.in_context ≡ jc → Apart (path_keys b) q)
      → get_at q (tree_of (with_tree b.in_context t trees) jc) ≡ get_at q (tree_of trees jc)
  get_at-with_tree b v trees t jc q h parts = elim (Bool-discrete b.in_context jc) [
    | yes same ↦
        subst
          (λ j. get_at q (tree_of (with_tree b.in_context t trees) j) ≡ get_at q (tree_of trees j))
          same
          (rw (tree_of-with_tree b.in_context t trees)
            (get_at-set_at_path-Apart S b.path q _ v (parts same) h))
    | no other ↦ rw (tree_of-with_tree_ne b.in_context jc t trees other)
  ]

  write_total :
      (path : List String) (tree v : Value) {w : Value}
      → path ≢ []
      → get_at (keys_of S path) tree ≡ some w
      → (tree' : Value) × (set_at_path S path tree v ≡ ok tree')
  write_total [] tree v nonempty h = absurd (nonempty refl)
  write_total (seg ∷ path) tree v nonempty h = set_at_path_total S seg path tree v h

  -- One round of the loop: the binding `b` is replaced by the value `v`, which gives the tree `t`.
  module _ (b : RefBinding) (model : Fields) (trees : Trees) (v t : Value)
      (hv : get_field b.alias model ≡ some v)
      (ht : set_at_path S b.path (tree_of trees b.in_context) v ≡ ok t) where
    abbrev model₁ : Fields
    model₁ = delete_field b.alias model

    abbrev trees₁ : Trees
    trees₁ = with_tree b.in_context t trees

    get_field-model₁ : (k : String) → k ≢ b.alias → get_field k model₁ ≡ get_field k model
    get_field-model₁ k ne = ground (arith, get_field-delete_field k b.alias model)

    read-trees₁ : (c : RefBinding) → Parted b c → read trees₁ c ≡ read trees c
    read-trees₁ c parted =
        get_at-with_tree b v trees t c.in_context (path_keys c) ht (λ e. (parted e).0)

    apply_ref_bindings-cons :
        (bs : List RefBinding)
        → apply_ref_bindings S (b ∷ bs) model trees ≡ apply_ref_bindings S bs model₁ trees₁
    unfolding apply_ref_bindings
    apply_ref_bindings-cons bs = rw (hv, ht, apply_ref_bindings)

    round-IsReady :
        (c : RefBinding)
        → b.alias ≢ c.alias
        → Parted b c
        → IsReady model trees c
        → IsReady model₁ trees₁ c
    round-IsReady c ne parted h = record {
      resolved = (h.resolved.0, get_field-model₁ c.alias (λ e. ne (sym e)) ∙ h.resolved.1);
      nonempty = h.nonempty;
      present = (h.present.0, read-trees₁ c parted ∙ h.present.1);
    }

    round-IsSubstituted :
        (bs : List RefBinding) (r : Applied)
        → All (λ (c : RefBinding). b.alias ≢ c.alias) bs
        → All (Parted b) bs
        → IsSubstituted bs model₁ trees₁ r
        → IsSubstituted (b ∷ bs) model trees r
    round-IsSubstituted bs r fresh parted h = record {
      substituted = (
        h.elsewhere_kept b.in_context (path_keys b)
              (All-map (Parted b) _ bs (λ c p e. (p (sym e)).1) parted)
            ∙ (rw (tree_of-with_tree b.in_context t trees) (get_at-set_at_path S b.path _ v ht)
                ∙ sym hv),
        All-map₂ _ _ _ bs (λ c e ne. e ∙ get_field-model₁ c.alias (λ q. ne (sym q))) h.substituted
            fresh,
      );
      removed = (
        h.others_kept b.alias fresh ∙ ground (arith, get_field-delete_field b.alias b.alias model),
        h.removed,
      );
      others_kept = λ k ne. h.others_kept k ne.1 ∙ get_field-model₁ k ne.0;
      elsewhere_kept = λ ic q parts.
          h.elsewhere_kept ic q parts.1 ∙ get_at-with_tree b v trees t ic q ht parts.0;
    }

  -- Where the aliases are distinct, the paths of one tree part, and each binding has a value and a
  -- place: every place then holds its value, the aliases are gone from the input model, and all
  -- other entries and places are as they were.
  pub apply_ref_bindings-IsSubstituted :
      (bs : List RefBinding) (model : Fields) (trees : Trees)
      → NodupAliases bs
      → AllParted bs
      → All (IsReady model trees) bs
      → (r : Applied) × (apply_ref_bindings S bs model trees ≡ ok r)
        × IsSubstituted bs model trees r
  unfolding apply_ref_bindings
  apply_ref_bindings-IsSubstituted [] model trees nodup parted ready = (
    record { model = model; trees = trees },
    refl,
    record {
      substituted = tt;
      removed = tt;
      others_kept = λ k h. refl;
      elsewhere_kept = λ ic q h. refl;
    },
  )
  apply_ref_bindings-IsSubstituted (b ∷ bs) model trees nodup parted ready =
      let (v, hv) = ready.0.resolved in
      let (w, hw) = ready.0.present in
      let (t, ht) = write_total b.path (tree_of trees b.in_context) v ready.0.nonempty hw in
      let ready' =
        All-map₂ _ _ (IsReady (delete_field b.alias model) (with_tree b.in_context t trees)) bs
          (λ c away h. round-IsReady b model trees v t hv ht c away.0 away.1 h)
          (All-map₂ _ _ (λ (c : RefBinding). (b.alias ≢ c.alias) × Parted b c) bs
            (λ c ne p. (ne, p)) nodup.0 parted.0)
          ready.1 in
      let (r, hr, h) =
        apply_ref_bindings-IsSubstituted bs (delete_field b.alias model)
          (with_tree b.in_context t trees) nodup.1 parted.1 ready' in
      (
        r,
        apply_ref_bindings-cons b model trees v t hv ht bs ∙ hr,
        round-IsSubstituted b model trees v t hv ht bs r nodup.0 parted.0 h,
      )
