-- ===== src/Reconcile/Resolution.antt =====
-- `reconcile2` of internal/controller/release_controller.go from the rendered inputs to the
-- substitution of the resolved connections. The texts of the errors are parameters.
use kubocd.Common.{String, ◌<>◌, Bool, true, false, not, ◌||◌, ◌≡◌, ◌≢◌, ◌⊎◌}
use kubocd.Common.{List, [], ◌∷◌, ◌++◌, map, Result, ok, err, ◌>>=◌, string_eq}
use kubocd.Value.{object, Fields}
use kubocd.Package.Inputs.{InputRendered}
use kubocd.Refs.Path.{Strconv}
use kubocd.Refs.Decl.{ConnectionDecl, Trees}
use kubocd.Refs.Generate.{RefError, Generated, generate_ref_inputs}
use kubocd.Refs.Apply.{ApplyError, Applied, apply_ref_bindings}
use kubocd.Refs.Apply.Laws.{IsSubstituted}
use kubocd.Inputs.Connection.{Helper}
use kubocd.Inputs.Build.{BuildError, Message, Collector, build_input_model}
use kubocd.Reconcile.Status.{ReconcileError, ReleaseOperation, Ending, report, update_and_retry}
use kubocd.Common.{some}
use kubocd.Reconcile.Status.{same_slice, references_eq, phase_wait_input_connections}

pub record Texts : Type 0 where
  pub ref_error : RefError → String
  pub build_error : BuildError → String
  pub apply_error : ApplyError → String
  pub message : Message → String

-- The declarations of the package, and the two trees that its values are read from.
pub record Sources : Type 0 where
  pub param_decls : List ConnectionDecl
  pub context_decls : List ConnectionDecl
  pub parameters : Fields
  pub context : Fields
  pub namespace : String

-- `strings.Join`
abbrev pub join : String → List String → String
join separator [] = ""
join separator (s ∷ []) = s
join separator (s ∷ t ∷ l) = s <> (separator <> join separator (t ∷ l))

abbrev pub map_error {ℓ} : {E A : Type 0} {F : Type ℓ} → (E → F) → Result E A → Result F A
map_error f (err e) = err (f e)
map_error f (ok a) = ok a

-- The model that the values are rendered with.
pub record Resolved : Type 0 where
  pub operation : ReleaseOperation
  pub applied : Applied
  pub input_lists : Fields

module _ (S : Strconv) (helper : Helper) (texts : Texts) where
  -- The connections in the status.
  unfoldable pub store_inputs : Collector → ReleaseOperation → ReleaseOperation
  store_inputs rc op =
      let st = op.status in
      record op {
        status = record st {
          watched_input_connections = some rc.watched;
          effective_input_connections = some rc.effective;
        };
        force_update =
            op.force_update
            || not (same_slice (some rc.watched) st.watched_input_connections)
            || not (same_slice (some rc.effective) st.effective_input_connections);
      }

  abbrev error : String → Bool → String → ReconcileError
  error message fatal reason = record { message = message; fatal = fatal; event_reason = reason }

  -- The return where inputs are missing.
  unfoldable pub wait_inputs : Collector → ReleaseOperation → Result Ending (Unit {0})
  wait_inputs rc op = elim rc.messages [
    | [] ↦ ok tt
    | m ∷ messages ↦ err (
        update_and_retry op phase_wait_input_connections
          (join " - " (map texts.message (m ∷ messages))))
  ]

  unfoldable pub resolve_inputs :
      Sources → List InputRendered → ReleaseOperation → Result Ending Resolved
  resolve_inputs src inputs op = do
    g ←
        map_error (λ e. report op (error (texts.ref_error e) true "ConnectionParameters"))
          (generate_ref_inputs S src.param_decls src.context_decls (object src.parameters)
            (object src.context) src.namespace inputs)
    rc ←
        map_error (λ e. report op (error (texts.build_error e) false "Inputs"))
          (build_input_model helper (inputs ++ g.inputs))
    let op' = store_inputs rc op
    waited ← wait_inputs rc op'
    applied ←
        map_error (λ e. report op' (error (texts.apply_error e) false "ConnectionParameters"))
          (apply_ref_bindings S g.bindings rc.input_model
            (record { parameters = object src.parameters; context = object src.context }))
    ok (record { operation = op'; applied = applied; input_lists = rc.input_list_model })

  abbrev pub generated_of : Sources → List InputRendered → Result RefError Generated
  generated_of src inputs =
      generate_ref_inputs S src.param_decls src.context_decls (object src.parameters)
        (object src.context) src.namespace inputs

  -- A return of `resolve_inputs` before its end. The generated inputs have an error, which is fatal;
  -- or `BuildInputModel` has one on the declared and the generated inputs, which is not; or it gives
  -- messages, for which the Release waits, with the connections in its status.
  abbrev pub IsEarly : Sources → List InputRendered → ReleaseOperation → Ending → Type 0
  IsEarly src inputs op ending =
      ((e : RefError) × (generated_of src inputs ≡ err e)
        × (ending ≡ report op (error (texts.ref_error e) true "ConnectionParameters")))
      ⊎ ((g : Generated) × ((e : BuildError) × (generated_of src inputs ≡ ok g)
            × (build_input_model helper (inputs ++ g.inputs) ≡ err e)
            × (ending ≡ report op (error (texts.build_error e) false "Inputs"))))
      ⊎ ((g : Generated) × ((rc : Collector) × (generated_of src inputs ≡ ok g)
            × (build_input_model helper (inputs ++ g.inputs) ≡ ok rc)
            × (rc.messages ≢ [])
            × (ending
                ≡ update_and_retry (store_inputs rc op) phase_wait_input_connections
                    (join " - " (map texts.message rc.messages)))))

  -- The end of `resolve_inputs`: the inputs were generated and built without a message, and each
  -- resolved connection is in its place.
  abbrev pub IsResolved : Sources → List InputRendered → ReleaseOperation → Resolved → Type 0
  IsResolved src inputs op r =
      let trees : Trees = record {
        parameters = object src.parameters;
        context = object src.context;
      } in
      (g : Generated) × ((rc : Collector) × (generated_of src inputs ≡ ok g)
        × (build_input_model helper (inputs ++ g.inputs) ≡ ok rc)
        × (rc.messages ≡ [])
        × (r.operation ≡ store_inputs rc op)
        × (r.input_lists ≡ rc.input_list_model)
        × IsSubstituted S g.bindings rc.input_model trees r.applied)
