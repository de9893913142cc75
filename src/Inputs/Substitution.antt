-- ===== src/Inputs/Substitution.antt =====
-- From the parameters to the resolved connections in their place, as the reconciler of a Release
-- composes it: `GenerateRefInputs`, `BuildInputModel` on the package's inputs and the generated
-- ones, and `ApplyRefBindings`.
use kubocd.Common.{String, Bool, some, ◌≡◌, sym, ◌∙◌, inl, inr, List, [], ◌∷◌, ◌++◌, ok, All}
use mathlib.Core.Bool.{true≢false}
use kubocd.Value.{Value, object, Fields}
use kubocd.Value.Maps.{get_field}
use kubocd.Value.Sized.{IsSized}
use kubocd.Package.Inputs.{InputRendered}
use kubocd.Refs.Path.{Strconv}
use kubocd.Refs.Decl.{ConnectionDecl, RefBinding, Trees}
use kubocd.Refs.Generate.{Generated, generate_ref_inputs}
use kubocd.Refs.Generate.Binds.{Binds, AllBind}
use kubocd.Refs.Generate.Laws.{AllPlain, generate_ref_inputs-binds}
use kubocd.Refs.Apply.{Applied, apply_ref_bindings}
use kubocd.Refs.Apply.Laws.{NodupAliases, IsSubstituted}
use kubocd.Refs.Resolve.{apply-generate_ref_inputs}
use kubocd.Inputs.Connection.{Helper}
use kubocd.Inputs.Build.{Collector, build_input_model}
use kubocd.Inputs.Gate.{IsSettled, build_input_model-gate}

All-tail : {A : Type 0} (P : A → Type 0) (xs ys : List A) → All P (xs ++ ys) → All P ys
All-tail P [] ys h = h
All-tail P (x ∷ xs) ys h = All-tail P xs ys h.1

module _ (S : Strconv) (helper : Helper) (rc : Collector) where
  abbrev Resolved : RefBinding → Type 0
  Resolved b = (v : Value) × (get_field b.alias rc.input_model ≡ some v)

  -- A generated input is not optional.
  resolve_one :
      {tree : Bool → Value} (ir : InputRendered) (b : RefBinding)
      → Binds S tree ir b
      → IsSettled helper rc ir
      → Resolved b
  resolve_one ir b binds (inl optional) = absurd (true≢false (sym optional ∙ binds.gates))
  resolve_one ir b binds (inr has) = rw (sym binds.same_alias) has

  resolve_bound :
      (tree : Bool → Value) (irs : List InputRendered) (bs : List RefBinding)
      → AllBind S tree irs bs
      → All (IsSettled helper rc) irs
      → All Resolved bs
  resolve_bound tree [] [] binds settled = tt
  resolve_bound tree [] (b ∷ bs) binds settled = absurd binds
  resolve_bound tree (ir ∷ irs) [] binds settled = absurd binds
  resolve_bound tree (ir ∷ irs) (b ∷ bs) binds settled =
      (resolve_one ir b binds.0 settled.0, resolve_bound tree irs bs binds.1 settled.1)

  pub apply-build_input_model :
      (param_decls context_decls : List ConnectionDecl) (parameters context : Fields) (ns : String)
      (stanza : List InputRendered) {g : Generated}
      → AllPlain S param_decls
      → AllPlain S context_decls
      → IsSized (object parameters)
      → IsSized (object context)
      → generate_ref_inputs S param_decls context_decls
          (object parameters)
          (object context)
          ns
          stanza
        ≡ ok g
      → NodupAliases g.bindings
      → build_input_model helper (stanza ++ g.inputs) ≡ ok rc
      → rc.messages ≡ []
      → let trees : Trees = record { parameters = object parameters; context = object context } in
        (r : Applied) × (apply_ref_bindings S g.bindings rc.input_model trees ≡ ok r)
        × IsSubstituted S g.bindings rc.input_model trees r
  apply-build_input_model ps cs parameters context ns stanza {g = g} plain_p plain_c sized_p sized_c
        generates nodup builds quiet =
      let settled = build_input_model-gate helper (stanza ++ g.inputs) rc builds quiet in
      let (binds, _) =
        generate_ref_inputs-binds S ps cs (object parameters) (object context) ns stanza plain_p
          plain_c sized_p sized_c generates in
      apply-generate_ref_inputs S ps cs parameters context ns stanza rc.input_model plain_p plain_c
        sized_p sized_c generates nodup
        (resolve_bound _ g.inputs g.bindings binds (All-tail _ stanza g.inputs settled))
