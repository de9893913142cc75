-- ===== src/Reconcile/Resolved.antt =====
-- What `resolve_inputs` ends with: the inputs, their generation and the substitution together.
use kubocd.Common.{◌≡◌, ◌≢◌, refl, sym, ◌∙◌, ◌⊎◌, inl, inr, List, [], ◌∷◌, ◌++◌, map, ok, err}
use kubocd.Common.{Result-cases, true, false}
use kubocd.Value.{object}
use kubocd.Value.Sized.{IsSized}
use kubocd.Package.Inputs.{InputRendered}
use kubocd.Refs.Path.{Strconv}
use kubocd.Refs.Generate.{Generated}
use kubocd.Refs.Generate.Laws.{AllPlain}
use kubocd.Refs.Apply.Laws.{NodupAliases}
use kubocd.Inputs.Connection.{Helper}
use kubocd.Inputs.Build.{Message, Collector, build_input_model}
use kubocd.Inputs.Substitution.{apply-build_input_model}
use kubocd.Reconcile.Status.{ReleaseOperation, Ending, report, update_and_retry}
use kubocd.Reconcile.Status.{phase_wait_input_connections}
use kubocd.Reconcile.Resolution.{Texts, Sources, Resolved, join, wait_inputs, resolve_inputs}
use kubocd.Reconcile.Resolution.{generated_of, store_inputs, IsEarly, IsResolved}

cons-ne-nil {ℓ} : {A : Type ℓ} {x : A} {l : List A} → ¬ ((x ∷ l) ≡ [])
cons-ne-nil h = cc

module _ (S : Strconv) (helper : Helper) (texts : Texts) where
  abbrev waiting : Collector → ReleaseOperation → Ending
  waiting rc op =
      update_and_retry op phase_wait_input_connections (join " - " (map texts.message rc.messages))

  messages-cases :
      (rc : Collector) (op : ReleaseOperation)
      → ((rc.messages ≡ []) × (wait_inputs S helper texts rc op ≡ ok tt))
        ⊎ ((ending : Ending) × (rc.messages ≢ [])
            × (wait_inputs S helper texts rc op ≡ err ending)
            × (ending ≡ waiting rc op))
  unfolding wait_inputs
  messages-cases rc op = go rc.messages refl
    where
      go :
          (messages : List Message)
          → rc.messages ≡ messages
          → ((rc.messages ≡ []) × (wait_inputs S helper texts rc op ≡ ok tt))
            ⊎ ((ending : Ending) × (rc.messages ≢ [])
                × (wait_inputs S helper texts rc op ≡ err ending)
                × (ending ≡ waiting rc op))
      go [] e = inl (e, rw (e, wait_inputs) refl)
      go (m ∷ messages) e = inr (
        update_and_retry op phase_wait_input_connections
            (join " - " (map texts.message (m ∷ messages))),
        λ empty. cons-ne-nil (sym e ∙ empty),
        rw (e, wait_inputs) refl,
        rw e refl,
      )

  -- Where no segment of a declared path is read as a number, all lists are shorter than 2^63, and
  -- the generated aliases are distinct, the substitution never fails the pass. It ends here with the
  -- error of the generated inputs, which is fatal, where they have one; with the error of
  -- `BuildInputModel` on the declared and the generated inputs, which is not, where that has one; with
  -- a wait that shows the messages of `BuildInputModel` and has its connections in the status, where
  -- there are messages; or each resolved connection is in its place, with no message.
  pub resolve_inputs-IsResolved :
      (src : Sources) (inputs : List InputRendered) (op : ReleaseOperation)
      → AllPlain S src.param_decls
      → AllPlain S src.context_decls
      → IsSized (object src.parameters)
      → IsSized (object src.context)
      → ((g : Generated) → generated_of S helper texts src inputs ≡ ok g → NodupAliases g.bindings)
      → ((ending : Ending) × (resolve_inputs S helper texts src inputs op ≡ err ending)
          × IsEarly S helper texts src inputs op ending)
        ⊎ ((r : Resolved) × (resolve_inputs S helper texts src inputs op ≡ ok r)
            × IsResolved S helper texts src inputs op r)
  unfolding resolve_inputs
  resolve_inputs-IsResolved src inputs op plain_p plain_c sized_p sized_c nodup =
      elim (Result-cases (generated_of S helper texts src inputs)) [
        | inr (e, h₁) ↦ inl (
          report op (record {
            message = texts.ref_error e;
            fatal = true;
            event_reason = "ConnectionParameters";
          }),
          (rw h₁ refl),
          inl (e, h₁, refl),
        )
        | inl (g, h₁) ↦ elim (Result-cases (build_input_model helper (inputs ++ g.inputs))) [
          | inr (e, h₂) ↦ inl (
            report op
                (record { message = texts.build_error e; fatal = false; event_reason = "Inputs" }),
            (rw (h₁, h₂) refl),
            inr (inl (g, (e, h₁, h₂, refl))),
          )
          | inl (rc, h₂) ↦ elim (messages-cases rc (store_inputs S helper texts rc op)) [
            | inr (ending, some_wait, h₃, is) ↦
                inl (ending, (rw (h₁, h₂, h₃) refl), inr (inr (g, (rc, h₁, h₂, some_wait, is))))
            | inl (quiet, h₃) ↦
                let (applied, h₄, substituted) =
                  apply-build_input_model S helper rc src.param_decls src.context_decls
                    src.parameters src.context src.namespace inputs plain_p plain_c sized_p sized_c
                    h₁ (nodup g h₁) h₂ quiet in
                inr (
                  record {
                    operation = store_inputs S helper texts rc op;
                    applied = applied;
                    input_lists = rc.input_list_model;
                  },
                  (rw (h₁, h₂, h₃, h₄) refl),
                  (g, (rc, h₁, h₂, quiet, refl, refl, substituted)),
                )
          ]
        ]
      ]
