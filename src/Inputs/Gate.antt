-- ===== src/Inputs/Gate.antt =====
-- What `BuildInputModel` promises to its caller: what is in the input model, and what no message
-- says.
use mathlib.Core.List.{Memᴰ}
use mathlib.Core.List.Memᴰ.{head, tail}
use mathlib.Core.Option.{none-ne-some}
use mathlib.Core.Path.{subst}
use kubocd.Common.{ℕ, suc, String, true, some, ◌≡◌, refl, ◌⊎◌, inl, inr, List, [], ◌∷◌}
use kubocd.Common.{ok, >>=-eq-ok, ok-injective, All}
use kubocd.Value.{Value}
use kubocd.Value.Maps.{get_field}
use kubocd.Package.Inputs.{InputRendered}
use kubocd.Inputs.Connection.{Helper}
use kubocd.Inputs.Build.{Collector, handle_input, handle_inputs, build_input_model}
use kubocd.Inputs.Elect.{Has, Supplies, Handled}
use kubocd.Inputs.Lookup.{IsOffered, handle_input-Handled}

module _ (helper : Helper) where
  abbrev pub IsSettled : Collector → InputRendered → Type 0
  IsSettled rc input = (input.optional ≡ true) ⊎ Has input.alias rc.input_model

  -- The value under a key is that of a connection for one of the inputs.
  abbrev pub ComesFrom : List InputRendered → String → Value → Type 0
  ComesFrom inputs k v =
      (input : InputRendered) × Memᴰ input inputs
      × ((idx : ℕ) × (k ≡ input.alias) × Supplies helper (IsOffered helper input) idx input v)

  record HandledAll (inputs : List InputRendered) (rc rc' : Collector) : Type 0 where
    quiet : rc'.messages ≡ [] → rc.messages ≡ []
    settled : rc'.messages ≡ [] → All (IsSettled rc') inputs
    kept : (k : String) → Has k rc.input_model → Has k rc'.input_model
    origin :
        (k : String) (v : Value)
        → get_field k rc'.input_model ≡ some v
        → (get_field k rc.input_model ≡ some v) ⊎ ComesFrom inputs k v

  keep-IsSettled :
      (rc rc' : Collector) (input : InputRendered)
      → ((k : String) → Has k rc.input_model → Has k rc'.input_model)
      → IsSettled rc input
      → IsSettled rc' input
  keep-IsSettled rc rc' input kept (inl optional) = inl optional
  keep-IsSettled rc rc' input kept (inr has) = inr (kept input.alias has)

  later :
      (input : InputRendered) (inputs : List InputRendered) (k : String) (v : Value)
      → ComesFrom inputs k v
      → ComesFrom (input ∷ inputs) k v
  later input inputs k v (i, within, from) = (i, tail within, from)

  round :
      (idx : ℕ) (input : InputRendered) (inputs : List InputRendered) (rc rc₁ rc' : Collector)
      → Handled helper (IsOffered helper input) idx input rc rc₁
      → HandledAll inputs rc₁ rc'
      → HandledAll (input ∷ inputs) rc rc'
  round idx input inputs rc rc₁ rc' first rest = record {
    quiet = λ q. first.quiet (rest.quiet q);
    settled = λ q.
        (keep-IsSettled rc₁ rc' input rest.kept (first.settled (rest.quiet q)), rest.settled q);
    kept = λ k has. rest.kept k (first.kept k has);
    origin = λ k v has. elim (rest.origin k v has) [
      | inr new ↦ inr (later input inputs k v new)
      | inl old ↦ elim (first.origin k v old) [
        | inl older ↦ inl older
        | inr (named, supplied) ↦ inr (input, head refl, (idx, named, supplied))
      ]
    ];
  }

  handle_inputs-HandledAll :
      (idx : ℕ) (inputs : List InputRendered) (rc rc' : Collector)
      → handle_inputs helper idx inputs rc ≡ ok rc'
      → HandledAll inputs rc rc'
  unfolding handle_inputs
  handle_inputs-HandledAll idx [] rc rc' h = subst (HandledAll [] rc) (ok-injective h) (record {
    quiet = λ q. q;
    settled = λ q. tt;
    kept = λ k has. has;
    origin = λ k v has. inl has;
  })
  handle_inputs-HandledAll idx (input ∷ inputs) rc rc' h =
      let (rc₁, h₁, rest) = >>=-eq-ok (handle_input helper idx input rc) _ h in
      round idx input inputs rc rc₁ rc' (handle_input-Handled helper input idx rc rc₁ h₁)
        (handle_inputs-HandledAll (suc idx) inputs rc₁ rc' rest)

  -- Where `BuildInputModel` succeeds and has no message, each input is optional or has its alias in
  -- the input model.
  pub build_input_model-gate :
      (inputs : List InputRendered) (rc : Collector)
      → build_input_model helper inputs ≡ ok rc
      → rc.messages ≡ []
      → All (IsSettled rc) inputs
  unfolding build_input_model
  build_input_model-gate inputs rc h = (handle_inputs-HandledAll 0 inputs _ rc h).settled

  -- Where `BuildInputModel` succeeds, each value of the input model, under its alias, is that of a
  -- connection that is READY, has the contract of an input with this alias and the output that it
  -- asks for, and was named by this input or found by its lookup.
  pub build_input_model-elected :
      (inputs : List InputRendered) (rc : Collector) (k : String) (v : Value)
      → build_input_model helper inputs ≡ ok rc
      → get_field k rc.input_model ≡ some v
      → ComesFrom inputs k v
  unfolding build_input_model get_field
  build_input_model-elected inputs rc k v h has =
      elim ((handle_inputs-HandledAll 0 inputs _ rc h).origin k v has) [
        | inl none_there ↦ absurd (none-ne-some _ none_there)
        | inr from ↦ from
      ]
