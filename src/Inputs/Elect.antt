-- ===== src/Inputs/Elect.antt =====
-- What one round of the loop of `BuildInputModel` does to the collector.
use kubocd.Common.{ℕ, String, true, some, ◌≡◌, refl, ◌≢◌, ◌⊎◌, inl, inr}
use kubocd.Common.{List, [], ◌∷◌, ◌++◌, ok, >>=-eq-ok, ok-injective, err-ne-ok, arith, ltb, length}
use kubocd.Common.{All, All-append, ◌==◌, ==→≡, string_eq, sym, ◌∙◌, Bool-cases}
use mathlib.Core.Option.{some-injective}
use mathlib.Core.Path.{subst}
use kubocd.Value.{Value, object, Fields}
use kubocd.Value.Maps.{get_field, set_field, get_field-set_field}
use kubocd.Package.Inputs.{InputRendered}
use kubocd.Inputs.Connection.{Connection, connection_phase_ready, Helper}
use kubocd.Inputs.Build.{
  Collector, Selection, is_possible, consider, select, parse_value, parse_values, elect,
}
use kubocd.Inputs.Build.{elect_all, conclude, bim_filter_connection, add_message, add_watched}
use kubocd.Inputs.Build.{Message}

-- What the loop of `bimFilterConnection` looks at before it takes a connection for an input.
pub record IsFit (input : InputRendered) (c : Connection) : Type 0 where
  pub same_contract : c.contract ≡ input.contract
  pub same_output :
      (input.release_ref.name ≡ "")
      ⊎ (input.release_ref.output ≡ "")
      ⊎ (input.release_ref.output ≡ c.output_name)
  pub ready : c.phase ≡ connection_phase_ready

abbrev pub Has : String → Fields → Type 0
Has k m = (v : Value) × (get_field k m ≡ some v)

append_nonempty {ℓ} : {A : Type ℓ} (l : List A) (x : A) → (l ++ (x ∷ [])) ≢ []
append_nonempty [] x h = cc
append_nonempty (y ∷ l) x h = cc

is_possible-IsFit :
    (input : InputRendered) (c : Connection)
    → is_possible input c ≡ true
    → c.phase ≡ connection_phase_ready
    → IsFit input c
unfolding is_possible
is_possible-IsFit input c possible ready = record {
  same_contract = ground arith;
  same_output = ground arith;
  ready = ready;
}

consider-IsFit :
    (P : Connection → Type 0) (input : InputRendered) (c : Connection) (s : Selection)
    → P c
    → All (λ c. P c × IsFit input c) s.elected
    → All (λ c. P c × IsFit input c) (consider input c s).elected
unfolding consider
consider-IsFit P input c s hp h = elim (Bool-cases (is_possible input c)) [
  | inr out ↦ rw (out, consider) h
  | inl possible ↦ elim (Bool-cases (c.phase == connection_phase_ready)) [
    | inr waits ↦ rw (possible, waits, consider) h
    | inl ready ↦
        rw (possible, ready, consider)
          (All-append _ s.elected (c ∷ []) h
            ((hp, is_possible-IsFit input c possible (==→≡ c.phase _ ready)), tt))
  ]
]

select-IsFit :
    (P : Connection → Type 0) (input : InputRendered) (connections : List Connection)
    (s : Selection)
    → All P connections
    → All (λ c. P c × IsFit input c) s.elected
    → All (λ c. P c × IsFit input c) (select input connections s).elected
unfolding select
select-IsFit P input [] s hp h = h
select-IsFit P input (c ∷ connections) s hp h =
    select-IsFit P input connections _ hp.1 (consider-IsFit P input c s hp.0 h)

set_field-Has : (k j : String) (w : Value) (m : Fields) → Has k m → Has k (set_field j w m)
set_field-Has k j w m (v, has) = elim (Bool-cases (k == j)) [
  | inl same ↦ (w, ground (arith, get_field-set_field k j w m))
  | inr other ↦ (v, ground (arith, get_field-set_field k j w m))
]

set_field-origin :
    (k j : String) (w v : Value) (m : Fields)
    → get_field k (set_field j w m) ≡ some v
    → (get_field k m ≡ some v) ⊎ ((k ≡ j) × (v ≡ w))
set_field-origin k j w v m h = elim (Bool-cases (k == j)) [
  | inl same ↦
      inr (==→≡ k j same, some-injective _ _ (sym h ∙ ground (arith, get_field-set_field k j w m)))
  | inr other ↦ inl (sym (ground (arith, get_field-set_field k j w m)) ∙ h)
]

module _ (helper : Helper) (P : Connection → Type 0) (idx : ℕ) (input : InputRendered) where
  -- The value that an elected connection gives.
  abbrev pub Supplies : Value → Type 0
  Supplies v =
      (c : Connection) × P c
      × IsFit input c
      × ((values : Fields) × (parse_value helper idx c ≡ ok values) × (v ≡ object values))

  pub record Handled (rc rc' : Collector) : Type 0 where
    pub quiet : rc'.messages ≡ [] → rc.messages ≡ []
    pub settled : rc'.messages ≡ [] → (input.optional ≡ true) ⊎ Has input.alias rc'.input_model
    pub kept : (k : String) → Has k rc.input_model → Has k rc'.input_model
    pub origin :
        (k : String) (v : Value)
        → get_field k rc'.input_model ≡ some v
        → (get_field k rc.input_model ≡ some v) ⊎ ((k ≡ input.alias) × Supplies v)

  messaged-Handled : (m : Message) (rc : Collector) → Handled rc (add_message m rc)
  messaged-Handled m rc = record {
    quiet = λ h. absurd (append_nonempty rc.messages m h);
    settled = λ h. absurd (append_nonempty rc.messages m h);
    kept = λ k h. h;
    origin = λ k v h. inl h;
  }

  elect-Handled :
      (c : Connection) (rc rc' : Collector)
      → P c
      → IsFit input c
      → elect helper idx input c rc ≡ ok rc'
      → Handled rc rc'
  unfolding elect
  elect-Handled c rc rc' hp fit h =
      let (values, hv, set) = >>=-eq-ok (parse_value helper idx c) _ h in
      subst (Handled rc) (ok-injective set) (record {
        quiet = λ q. q;
        settled = λ q. inr (
          object values,
          ground
              (arith, get_field-set_field input.alias input.alias (object values) rc.input_model),
        );
        kept = λ k (v, has). set_field-Has k input.alias (object values) rc.input_model (v, has);
        origin = λ k v has.
            elim (set_field-origin k input.alias (object values) v rc.input_model has) [
              | inl old ↦ inl old
              | inr new ↦ inr (new.0, (c, hp, fit, (values, hv, new.1)))
            ];
      })

  elect_all-Handled :
      (connections : List Connection) (rc rc' : Collector)
      → All (λ c. P c × IsFit input c) connections
      → elect_all helper idx input connections rc ≡ ok rc'
      → Handled rc rc'
  unfolding elect_all
  elect_all-Handled [] rc rc' fits h = absurd (err-ne-ok h)
  elect_all-Handled (c ∷ connections) rc rc' fits h =
      let (rc₁, h₁, set) = >>=-eq-ok (elect helper idx input c rc) _ h in
      let (list, hl, done) = >>=-eq-ok (parse_values helper idx (c ∷ connections)) _ set in
      let first = elect-Handled c rc rc₁ fits.0.0 fits.0.1 h₁ in
      subst (Handled rc) (ok-injective done) (record {
        quiet = first.quiet;
        settled = first.settled;
        kept = first.kept;
        origin = first.origin;
      })

  conclude-Handled :
      (elected : List Connection) (s : Selection) (rc rc' : Collector)
      → s.elected ≡ elected
      → All (λ c. P c × IsFit input c) elected
      → conclude helper idx input s rc ≡ ok rc'
      → Handled rc rc'
  unfolding conclude elect_all elect
  conclude-Handled [] s rc rc' e fits h = elim (Bool-cases input.optional) [
    | inl optional ↦ subst (Handled rc) (ok-injective (rw (e, optional, conclude) at h)) (record {
      quiet = λ q. q;
      settled = λ q. inl optional;
      kept = λ k has. has;
      origin = λ k v has. inl has;
    })
    | inr required ↦
        subst (Handled rc) (ok-injective (rw (e, required, conclude) at h)) (messaged-Handled _ rc)
  ]
  conclude-Handled (c ∷ rest) s rc rc' e fits h = elim (Bool-cases input.allow_multiple) [
    | inl multiple ↦
        elect_all-Handled _ rc rc' (helper.sort-All _ (c ∷ rest) fits)
          (rw (e, multiple, conclude) at h)
    | inr single ↦ elim (Bool-cases (ltb 1 (length s.possible_names))) [
      | inl several ↦
          subst (Handled rc) (ok-injective (rw (e, single, several, conclude) at h))
            (messaged-Handled _ rc)
      | inr one ↦ elect-Handled c rc rc' fits.0.0 fits.0.1 (rw (e, single, one, conclude) at h)
    ]
  ]

  -- What `bimFilterConnection` does with connections that each have `P`.
  pub bim_filter_connection-Handled :
      (connections : List Connection) (rc rc' : Collector)
      → All P connections
      → bim_filter_connection helper connections idx input rc ≡ ok rc'
      → Handled rc rc'
  unfolding bim_filter_connection
  bim_filter_connection-Handled connections rc rc' hp h =
      let handled =
        conclude-Handled _ _ (add_watched _ rc) rc' refl (select-IsFit P input connections _ hp tt)
          h in
      record {
        quiet = handled.quiet;
        settled = handled.settled;
        kept = handled.kept;
        origin = handled.origin;
      }
