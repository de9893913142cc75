-- ===== src/Reconcile/Computed.antt =====
-- What `ComputeContext` returns: which Contexts it merged, and what they give under each key.
use mathlib.Core.List.{Memᴰ}
use mathlib.Core.List.Memᴰ.{head, tail}
use mathlib.Core.List.{append_assoc, append-nil}
use mathlib.Core.Path.{subst}
use mathlib.Core.Option.{some-injective}
use kubocd.Common.{String, true, Option, none, some, ◌≡◌, refl, ◌∙◌, ap, sym, ◌⊎◌, inl, inr}
use kubocd.Common.{List, [], ◌∷◌, ◌++◌, map, ok, ◌>>=◌, >>=-eq-ok, ok-injective, err-ne-ok}
use kubocd.Common.{contains, ◌==◌, string_eq, Bool-cases, Option-cases, ==→≡, All, All-map}
use kubocd.Value.{Value, Fields, end}
use kubocd.Value.Maps.{get_field, NodupFields}
use kubocd.Value.Merge.{merge_maps, override, get_field-merge_maps}
use kubocd.Config.Spec.{NamespacedName, Configuration}
use kubocd.Reconcile.Status.{name_eq}
use kubocd.Reconcile.Context.{
  ContextObject, ContextFetched, context_found, context_missing, context_failed,
  context_phase_ready, ContextSpec, raw_context, Computed, added, merge_context, fetch_context,
  merge_contexts, compute_context, optional_contexts, context_list,
}

abbrev pub overrides : Option Value → List (Option Value) → Option Value
overrides old [] = old
overrides old (v ∷ vs) = overrides (override old v) vs

-- A Context that was merged, with the map that it gives.
abbrev pub Merged : Type 0
Merged = NamespacedName × Fields

abbrev pub names_of : List Merged → List NamespacedName
names_of = map (λ (m : Merged). m.0)

module _ (get : NamespacedName → ContextFetched) (unmarshal : String → Option Fields) where
  -- The cluster has this Context, READY, and its text gives this map.
  abbrev pub IsSource : Merged → Type 0
  IsSource (ref, inc) =
      (object : ContextObject) × (get ref ≡ context_found object)
      × (object.phase ≡ context_phase_ready)
      × (added get unmarshal (raw_context object) ≡ some inc)

  -- A Context that was left out: it is optional, and does not exist.
  abbrev pub IsSkipped : List NamespacedName → NamespacedName → Type 0
  IsSkipped optional ref = (contains optional ref ≡ true) × (get ref ≡ context_missing)

  pub record IsComputed (optional refs : List NamespacedName) (start : Fields)
      (effective : List NamespacedName) (c : Computed) : Type 0 where
    pub merged : List Merged
    pub sources : All IsSource merged
    pub listed : c.1 ≡ effective ++ names_of merged
    pub all_met : All (λ ref. IsSkipped optional ref ⊎ Memᴰ ref (names_of merged)) refs
    pub keys :
        (k : String)
        → get_field k c.0
          ≡ overrides (get_field k start) (map (λ (m : Merged). get_field k m.1) merged)

  ContextFetched-cases :
      (f : ContextFetched)
      → ((object : ContextObject) × (f ≡ context_found object))
        ⊎ (f ≡ context_missing)
        ⊎ ((e : String) × (f ≡ context_failed e))
  ContextFetched-cases (context_found object) = inl (object, refl)
  ContextFetched-cases context_missing = inr (inl refl)
  ContextFetched-cases (context_failed e) = inr (inr (e, refl))

  fetch_context-ok :
      (optional : List NamespacedName) (ref : NamespacedName) (fetched : Option (Option String))
      → fetch_context get unmarshal optional ref ≡ ok fetched
      → (IsSkipped optional ref × (none ≡ fetched))
        ⊎ ((object : ContextObject) × (get ref ≡ context_found object)
            × (object.phase ≡ context_phase_ready)
            × (some (raw_context object) ≡ fetched))
  unfolding fetch_context
  fetch_context-ok optional ref fetched h = elim (ContextFetched-cases (get ref)) [
    | inl (object, e) ↦ elim (Bool-cases (object.phase == context_phase_ready)) [
      | inl ready ↦
          inr (object, e, ==→≡ _ _ ready, ok-injective (rw (e, ready, fetch_context) at h))
      | inr waits ↦ absurd (err-ne-ok (rw (e, waits, fetch_context) at h))
    ]
    | inr (inl e) ↦ elim (Bool-cases (contains optional ref)) [
      | inl may ↦ inl ((may, e), ok-injective (rw (e, may, fetch_context) at h))
      | inr must ↦ absurd (err-ne-ok (rw (e, must, fetch_context) at h))
    ]
    | inr (inr (failure, e)) ↦ absurd (err-ne-ok (rw (e, fetch_context) at h))
  ]

  merge_context-ok :
      (base : Fields) (addon : Option String) (result : Fields)
      → merge_context get unmarshal base addon ≡ ok result
      → (inc : Fields) × (added get unmarshal addon ≡ some inc) × (merge_maps base inc ≡ result)
  unfolding merge_context
  merge_context-ok base addon result h = elim (Option-cases (added get unmarshal addon)) [
    | inl e ↦ absurd (err-ne-ok (rw (e, merge_context) at h))
    | inr (inc, e) ↦ (inc, e, ok-injective (rw (e, merge_context) at h))
  ]

  module _ (distinct : (raw : String) (m : Fields) → unmarshal raw ≡ some m → NodupFields m) where
    added-NodupFields :
        (addon : Option String) (inc : Fields)
        → added get unmarshal addon ≡ some inc
        → NodupFields inc
    unfolding added
    added-NodupFields none inc e = subst NodupFields (some-injective end inc e) tt
    added-NodupFields (some raw) inc e = distinct raw inc e

    -- A Context that was left out adds nothing to the rest.
    IsComputed-skip :
        (optional : List NamespacedName) (ref : NamespacedName) (refs : List NamespacedName)
        (start : Fields) (effective : List NamespacedName) (c : Computed)
        → IsSkipped optional ref
        → IsComputed optional refs start effective c
        → IsComputed optional (ref ∷ refs) start effective c
    IsComputed-skip optional ref refs start effective c skipped rest = record {
      merged = rest.merged;
      sources = rest.sources;
      listed = rest.listed;
      all_met = (inl skipped, rest.all_met);
      keys = rest.keys;
    }

    -- A Context that was merged comes before the rest.
    IsComputed-merge :
        (optional : List NamespacedName) (ref : NamespacedName) (refs : List NamespacedName)
        (start inc : Fields) (effective : List NamespacedName) (c : Computed)
        → IsSource (ref, inc)
        → NodupFields inc
        → IsComputed optional refs (merge_maps start inc) (effective ++ (ref ∷ [])) c
        → IsComputed optional (ref ∷ refs) start effective c
    IsComputed-merge optional ref refs start inc effective c source nodup rest = record {
      merged = (ref, inc) ∷ rest.merged;
      sources = (source, rest.sources);
      listed = rest.listed ∙ append_assoc effective (ref ∷ []) (names_of rest.merged);
      all_met = (
        inr (head refl),
        All-map _ (λ r. IsSkipped optional r ⊎ Memᴰ r (ref ∷ names_of rest.merged)) refs
            (λ r. λ met. elim met [ inl s ↦ inl s | inr m ↦ inr (tail m) ]) rest.all_met,
      );
      keys = λ k.
          rest.keys k
          ∙ ap (λ v. overrides v (map (λ (m : Merged). get_field k m.1) rest.merged))
              (get_field-merge_maps k start inc nodup);
    }

    merged-IsComputed :
        (optional : List NamespacedName) (ref : NamespacedName) (refs : List NamespacedName)
        (start : Fields) (effective : List NamespacedName) (c : Computed) (raw : Option String)
        → ((inc : Fields) → added get unmarshal raw ≡ some inc → IsSource (ref, inc))
        → ((start' : Fields)
            → merge_contexts get unmarshal optional refs start' (effective ++ (ref ∷ [])) ≡ ok c
            → IsComputed optional refs start' (effective ++ (ref ∷ [])) c)
        → (merge_context get unmarshal start raw >>= λ result.
            merge_contexts get unmarshal optional refs result (effective ++ (ref ∷ [])))
          ≡ ok c
        → IsComputed optional (ref ∷ refs) start effective c
    merged-IsComputed optional ref refs start effective c raw source follows h = do
      let (result, e, rest) = >>=-eq-ok (merge_context get unmarshal start raw) _ h
      let (inc, e₁, is) = merge_context-ok start raw result e
      IsComputed-merge optional ref refs start inc effective c (source inc e₁)
          (added-NodupFields raw inc e₁) (follows (merge_maps start inc) (rw (sym is) at rest))

    merge_contexts-IsComputed :
        (optional refs : List NamespacedName) (start : Fields) (effective : List NamespacedName)
        (c : Computed)
        → merge_contexts get unmarshal optional refs start effective ≡ ok c
        → IsComputed optional refs start effective c
    unfolding merge_contexts
    merge_contexts-IsComputed optional [] start effective c h =
        subst (IsComputed optional [] start effective) (ok-injective h) (record {
          merged = [];
          sources = tt;
          listed = sym (append-nil effective);
          all_met = tt;
          keys = λ k. refl;
        })
    merge_contexts-IsComputed optional (ref ∷ refs) start effective c h = do
      let (fetched, e, rest) = >>=-eq-ok (fetch_context get unmarshal optional ref) _ h
      elim (fetch_context-ok optional ref fetched e) [
        | inl (skipped, is) ↦
            IsComputed-skip optional ref refs start effective c skipped
              (merge_contexts-IsComputed optional refs start effective c (rw (sym is) at rest))
        | inr (object, got, ready, is) ↦
            merged-IsComputed optional ref refs start effective c (raw_context object)
              (λ inc. λ e₁. (object, got, ready, e₁))
              (λ start'. merge_contexts-IsComputed optional refs start' (effective ++ (ref ∷ [])) c)
              (rw (sym is) at rest)
      ]

    -- Where a context is computed, the effective list names, in order, exactly the Contexts that
    -- were merged, each found READY with a text that decodes; every Context that is listed was
    -- merged, or is an optional one that does not exist; and under each key the context has what
    -- the defaults and the merged Contexts give, each over those before it. The maps that the
    -- decoder gives have no key twice.
    pub compute_context-IsComputed :
        (cfg : Configuration) (spec : ContextSpec) (default_context : Fields) (c : Computed)
        → compute_context get unmarshal cfg spec default_context ≡ ok c
        → IsComputed (optional_contexts cfg spec) (context_list cfg spec) default_context [] c
    unfolding compute_context
    compute_context-IsComputed cfg spec default_context c h =
        merge_contexts-IsComputed (optional_contexts cfg spec) (context_list cfg spec)
          default_context [] c h
