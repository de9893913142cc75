-- ===== src/Reconcile/Context.antt =====
-- `ComputeContext` of internal/controller/release_helpers.go, with `mergeContext` of
-- context_decode.go and `Merge` of common.go: the context of a Release, from the defaults of the
-- package and the Contexts. What the cluster answers and the YAML decoder are parameters.
use kubocd.Common.{String, ◌<>◌, Bool, true, false, not, Option, none, some}
use kubocd.Common.{List, [], ◌∷◌, ◌++◌, map, Result, ok, err, ◌>>=◌}
use kubocd.Common.{contains, ◌==◌, string_eq, if◌then◌else◌}
use kubocd.Value.{Fields, end}
use kubocd.Value.Merge.{merge_maps}
use kubocd.Config.Spec.{NamespacedName, Configuration}
use kubocd.Reconcile.Status.{ReconcileError, name_eq}

-- The parts of a Context that the code reads. Raw JSON is its text.
pub record ContextObject : Type 0 where
  pub phase : String
  pub status_context : Option String
  pub spec_context : Option String

pub data ContextFetched : Type 0 where
  context_found : ContextObject → ContextFetched
  context_missing : ContextFetched
  context_failed : String → ContextFetched

abbrev pub context_phase_ready : String
context_phase_ready = "READY"

-- The contexts that the Release names, and whether it leaves out the defaults of the Configs.
pub record ContextSpec : Type 0 where
  pub namespace : String
  pub skip_default_context : Bool
  pub contexts : List NamespacedName

abbrev context_error : String → Bool → String → ReconcileError
context_error message fatal reason = record {
  message = message;
  fatal = fatal;
  event_reason = reason;
}

abbrev pub context_name : NamespacedName → String
context_name ref = ref.namespace <> (":" <> ref.name)

abbrev merge_failure : String
merge_failure =
    "unable to merge context: context decoding error, message withheld, as it can quote the data"

-- The default contexts of the namespace, which need not exist.
unfoldable pub optional_contexts : Configuration → ContextSpec → List NamespacedName
optional_contexts cfg spec =
    if spec.skip_default_context
    then []
    else map (λ (name : String). record { namespace = spec.namespace; name = name })
        cfg.default_namespace_contexts

unfoldable pub context_list : Configuration → ContextSpec → List NamespacedName
unfolding optional_contexts
context_list cfg spec =
    (if spec.skip_default_context then [] else cfg.default_contexts ++ optional_contexts cfg spec)
    ++ spec.contexts

-- `ctx := contextObj.Status.Context`, or that of the spec.
abbrev pub raw_context : ContextObject → Option String
raw_context object = elim object.status_context [ none ↦ object.spec_context | some raw ↦ some raw ]

abbrev pub Computed : Type 0
Computed = Fields × List NamespacedName

module _ (get : NamespacedName → ContextFetched) (unmarshal : String → Option Fields) where
  -- `Merge`: nothing is merged where there is no text.
  unfoldable pub added : Option String → Option Fields
  added none = some end
  added (some raw) = unmarshal raw

  unfoldable pub merge_context : Fields → Option String → Result ReconcileError Fields
  unfolding added
  merge_context base addon = elim (added addon) [
    | none ↦ err (context_error merge_failure true "ContextMerge")
    | some inc ↦ ok (merge_maps base inc)
  ]

  -- The body of the loop: nothing for an optional context that does not exist.
  unfoldable pub fetch_context :
      List NamespacedName → NamespacedName → Result ReconcileError (Option (Option String))
  fetch_context optional ref = elim (get ref) [
    | context_missing ↦
        if contains optional ref
        then ok none
        else err (
            context_error ("context '" <> (context_name ref <> "' not found")) true
              "ContextNotFound")
    | context_failed e ↦ err (context_error e false "ContextRetrieval")
    | context_found object ↦
        if not (object.phase == context_phase_ready)
        then err (
            context_error ("context '" <> (context_name ref <> "' is in error")) true
              "ContextRetrieval")
        else ok (some (raw_context object))
  ]

  unfoldable pub merge_contexts :
      List NamespacedName
      → List NamespacedName
      → Fields
      → List NamespacedName
      → Result ReconcileError Computed
  unfolding fetch_context merge_context
  merge_contexts optional [] result effective = ok (result, effective)
  merge_contexts optional (ref ∷ refs) result effective = do
    fetched ← fetch_context optional ref
    elim fetched [
      | none ↦ merge_contexts optional refs result effective
      | some raw ↦ merge_context result raw >>= λ result'.
          merge_contexts optional refs result' (effective ++ (ref ∷ []))
    ]

  unfoldable pub compute_context :
      Configuration → ContextSpec → Fields → Result ReconcileError Computed
  unfolding merge_contexts
  compute_context cfg spec default_context =
      merge_contexts (optional_contexts cfg spec) (context_list cfg spec) default_context []
