-- ===== src/Refs/Path/Laws.antt =====
-- What `setAtPath` writes, what it leaves alone, and when it succeeds, against a reader of paths.
use kubocd.Common.{ap, sym, ◌∙◌, String, ◌≡◌, ◌≢◌, Option, none, some, List, [], ◌∷◌, ◌⊎◌, arith}
use kubocd.Common.{ok, Option-cases, >>=-eq-ok, inl, inr, string_eq, map}
use kubocd.Common.Int64.{ℤ, pos, negsuc}
use mathlib.Core.Option.{none-ne-some}
use kubocd.Value.{Value, null, array, object}
use kubocd.Value.Maps.{get_field, set_field, get_elem?, set, get_field-set_field}
use kubocd.Value.Maps.{get_elem?-set_self, get_elem?-set_ne}
use kubocd.Refs.Path.{Strconv, step, write_step, set_at_path}

-- A step as the code reads it.
pub data Key : Type 0 where
  position : ℤ → Key
  entry : String → Key

abbrev pub child : Key → Value → Option Value
child (position (pos i)) (array l) = get_elem? l i
child (entry k) (object m) = get_field k m
child k v = none

-- The value at a path, where there is one.
abbrev pub get_at : List Key → Value → Option Value
get_at [] v = some v
get_at (k ∷ path) v = elim (child k v) [ none ↦ none | some c ↦ get_at path c ]

-- Neither path is a prefix of the other: they part at some step.
abbrev pub Apart : List Key → List Key → Type 0
Apart (k ∷ p) (j ∷ q) = (k ≢ j) ⊎ ((k ≡ j) × Apart p q)
Apart p q = ⊥

get_at_under :
    (k : Key) (q : List Key) (t t' : Value) {c c' : Value}
    → child k t' ≡ some c'
    → child k t ≡ some c
    → get_at q c' ≡ get_at q c
    → get_at (k ∷ q) t' ≡ get_at (k ∷ q) t
get_at_under k q t t' h' h e = rw (h', h, get_at) e

pub get_at-child :
    (k : Key) (q : List Key) (t : Value) {w : Value}
    → get_at (k ∷ q) t ≡ some w
    → (c : Value) × (child k t ≡ some c) × (get_at q c ≡ some w)
get_at-child k q t h = elim (Option-cases (child k t)) [
  | inl e ↦ absurd (none-ne-some _ (rw (e, get_at) at h))
  | inr (c, e) ↦ (c, e, rw (e, get_at) at h)
]

module _ (S : Strconv) where
  abbrev pub key_of : String → Key
  key_of seg = elim (S.atoi seg) [ some idx ↦ position idx | none ↦ entry seg ]

  abbrev pub keys_of : List String → List Key
  keys_of = map key_of

  child-write_step :
      (seg : String) (node v : Value) {node' : Value}
      → write_step S seg node v ≡ ok node'
      → child (key_of seg) node' ≡ some v
  unfolding write_step
  child-write_step seg (object m) v h = ground (arith, get_field-set_field seg seg v m)
  child-write_step seg (array l) v h = elim (Option-cases (S.atoi seg)) [
    | inl e ↦ ground arith
    | inr (negsuc n, e) ↦ ground arith
    | inr (pos i, e) ↦ ground (arith, get_elem?-set_self l i v)
  ]
  child-write_step seg _ v h = ground arith

  child-write_step_ne :
      (seg : String) (k : Key) (node v : Value) {node' : Value}
      → write_step S seg node v ≡ ok node'
      → key_of seg ≢ k
      → child k node' ≡ child k node
  unfolding write_step
  child-write_step_ne seg (entry j) (object m) v h ne =
      ground (arith, get_field-set_field j seg v m)
  child-write_step_ne seg (position (pos j)) (array l) v h ne = elim (Option-cases (S.atoi seg)) [
    | inl e ↦ ground arith
    | inr (negsuc n, e) ↦ ground arith
    | inr (pos i, e) ↦ ground (arith, get_elem?-set_ne l i j v)
  ]
  child-write_step_ne seg _ _ v h ne = ground arith

  step-child :
      (seg : String) (node : Value) {c : Value}
      → child (key_of seg) node ≡ some c
      → step S seg node ≡ ok c
  unfolding step
  step-child seg (array l) h = ground arith
  step-child seg _ h = ground arith

  -- A step that the code takes leads to the child, or to nil where a map lacks the key.
  child-step :
      (seg : String) (node : Value) {c : Value}
      → step S seg node ≡ ok c
      → (child (key_of seg) node ≡ some c) ⊎ (c ≡ null)
  unfolding step
  child-step seg (array l) h = ground arith
  child-step seg (object m) h = elim (Option-cases (get_field seg m)) [
    | inl e ↦ ground arith
    | inr (v, e) ↦ ground arith
  ]
  child-step seg _ h = ground arith

  written : String → Value → Value → Value
  written seg (array l) v = elim (S.atoi seg) [
    | some (pos i) ↦ array (set l i v)
    | some (negsuc n) ↦ null
    | none ↦ null
  ]
  written seg (object m) v = object (set_field seg v m)
  written seg node v = null

  write_step_total :
      (seg : String) (node v : Value) {c : Value}
      → child (key_of seg) node ≡ some c
      → (node' : Value) × (write_step S seg node v ≡ ok node')
  unfolding write_step written
  write_step_total seg (array l) v h = (written seg (array l) v, ground arith)
  write_step_total seg (object m) v h = (written seg (object m) v, ground arith)
  write_step_total seg null v h = absurd (ground arith)
  write_step_total seg _ v h = absurd (ground arith)

  set_at_path-null :
      (path : List String) (v : Value) {tree' : Value} → set_at_path S path null v ≢ ok tree'
  unfolding set_at_path
  set_at_path-null [] v h = cc
  set_at_path-null (seg ∷ []) v h = ground arith
  set_at_path-null (seg ∷ next ∷ path) v h = ground arith

  -- After a successful write, the path leads to the written value.
  pub get_at-set_at_path :
      (path : List String) (tree v : Value) {tree' : Value}
      → set_at_path S path tree v ≡ ok tree'
      → get_at (keys_of path) tree' ≡ some v
  unfolding set_at_path
  get_at-set_at_path [] tree v h = cc
  get_at-set_at_path (seg ∷ []) tree v h = rw (child-write_step seg tree v h, get_at)
  get_at-set_at_path (seg ∷ next ∷ path) tree v h =
      let (c, hc, h') = >>=-eq-ok (step S seg tree) _ h in
      let (c', hc', hw) = >>=-eq-ok (set_at_path S (next ∷ path) c v) _ h' in
      rw (child-write_step seg tree c' hw, get_at) (get_at-set_at_path (next ∷ path) c v hc')

  -- A write leaves alone every path that parts from the written one.
  pub get_at-set_at_path-Apart :
      (path : List String) (q : List Key) (tree v : Value) {tree' : Value}
      → Apart (keys_of path) q
      → set_at_path S path tree v ≡ ok tree'
      → get_at q tree' ≡ get_at q tree
  unfolding set_at_path
  get_at-set_at_path-Apart [] q tree v parts h = absurd parts
  get_at-set_at_path-Apart (seg ∷ p) [] tree v parts h = absurd parts
  get_at-set_at_path-Apart (seg ∷ []) (k ∷ q) tree v (inl ne) h =
      rw (child-write_step_ne seg k tree v h ne, get_at)
  get_at-set_at_path-Apart (seg ∷ []) (k ∷ q) tree v (inr (e, parts)) h = absurd parts
  get_at-set_at_path-Apart (seg ∷ next ∷ path) (k ∷ q) tree v (inl ne) h =
      let (c, hc, h') = >>=-eq-ok (step S seg tree) _ h in
      let (c', hc', hw) = >>=-eq-ok (set_at_path S (next ∷ path) c v) _ h' in
      rw (child-write_step_ne seg k tree c' hw ne, get_at)
  get_at-set_at_path-Apart (seg ∷ next ∷ path) (k ∷ q) tree v {tree' = t'} (inr (e, parts)) h =
      let (c, hc, h') = >>=-eq-ok (step S seg tree) _ h in
      let (c', hc', hw) = >>=-eq-ok (set_at_path S (next ∷ path) c v) _ h' in
      elim (child-step seg tree hc) [
        | inl there ↦
            get_at_under k q tree t' (rw e at (child-write_step seg tree c' hw)) (rw e at there)
              (get_at-set_at_path-Apart (next ∷ path) q c v parts hc')
        | inr nothing ↦ absurd (
            set_at_path-null (next ∷ path) v
              (ap (λ x. set_at_path S (next ∷ path) x v) (sym nothing) ∙ hc'))
      ]

  -- The write succeeds on every path that leads somewhere in the tree.
  pub set_at_path_total :
      (seg : String) (path : List String) (tree v : Value) {w : Value}
      → get_at (keys_of (seg ∷ path)) tree ≡ some w
      → (tree' : Value) × (set_at_path S (seg ∷ path) tree v ≡ ok tree')
  unfolding set_at_path
  set_at_path_total seg [] tree v h =
      let (c, hc, _) = get_at-child (key_of seg) [] tree h in write_step_total seg tree v hc
  set_at_path_total seg (next ∷ path) tree v h =
      let (c, hc, hp) = get_at-child (key_of seg) (keys_of (next ∷ path)) tree h in
      let (c', hw) = set_at_path_total next path c v hp in
      let (t', ht) = write_step_total seg tree c' hc in (t', rw (step-child seg tree hc, hw) ht)
