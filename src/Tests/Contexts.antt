-- ===== src/Tests/Contexts.antt =====
-- The context of a Release: a default one, a default one of the namespace that is missing, and one
-- of its own.
use kubocd.Common.{
  String, false, Option, some, none, ◌≡◌, refl, string_eq, [], ◌∷◌, ok, ◌==◌, if◌then◌else◌,
}
use kubocd.Value.{number, Fields, end, field}
use kubocd.Value.Maps.{get_field, set_field, NodupFields}
use kubocd.Value.Merge.{merge_maps}
use kubocd.Config.Spec.{Configuration, NamespacedName}
use kubocd.Config.Store.{initial_configuration}
use kubocd.Reconcile.Status.{name_eq}
use mathlib.Core.Path.{subst}
use mathlib.Core.Option.{some-injective}
use kubocd.Reconcile.Context.{
  ContextFetched, context_found, context_missing, ContextSpec, Computed, compute_context,
  merge_contexts, merge_context, fetch_context, added, context_list, optional_contexts,
  context_phase_ready,
}
use kubocd.Reconcile.Computed.{IsComputed, compute_context-IsComputed}

abbrev cluster : NamespacedName
cluster = record { namespace = "kubocd"; name = "cluster" }

abbrev own : NamespacedName
own = record { namespace = "apps"; name = "own" }

abbrev configuration : Configuration
configuration = record initial_configuration {
  default_contexts = cluster ∷ [];
  default_namespace_contexts = "local" ∷ [];
}

abbrev spec : ContextSpec
spec = record { namespace = "apps"; skip_default_context = false; contexts = own ∷ [] }

abbrev ready : String → ContextFetched
ready raw =
    context_found
      (record { phase = context_phase_ready; status_context = none; spec_context = some raw })

get : NamespacedName → ContextFetched
get ref =
    if ref.name == "cluster"
    then ready "size: 1"
    else if ref.name == "own"
    then ready "size: 2"
    else context_missing

unmarshal : String → Option Fields
unmarshal raw = some (field "size" (number (if raw == "size: 1" then "1" else "2")) end)

distinct : (raw : String) (m : Fields) → unmarshal raw ≡ some m → NodupFields m
unfolding unmarshal get_field
distinct raw m h = subst NodupFields (some-injective _ m h) (refl, tt)

abbrev context : Computed
context = (field "size" (number "2") end, cluster ∷ own ∷ [])

context_is :
    compute_context get unmarshal configuration spec (field "size" (number "0") end) ≡ ok context
unfolding compute_context merge_contexts merge_context fetch_context added context_list
    optional_contexts merge_maps get_field set_field string_eq get unmarshal name_eq
context_is = refl

compute_context-IsComputed_example :
    IsComputed get unmarshal
      (optional_contexts configuration spec)
      (context_list configuration spec)
      (field "size" (number "0") end)
      []
      context
compute_context-IsComputed_example =
    compute_context-IsComputed get unmarshal distinct configuration spec
      (field "size" (number "0") end) context context_is
