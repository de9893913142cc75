-- ===== src/Inputs/Build.antt =====
-- `BuildInputModel` of internal/controller/release_buildinputmodel.go. The collector that the code
-- modifies is taken and returned; on an error the code returns it too, but its callers do not read
-- it then. The flags of a `ReconcileError` are left out: the reconciler replaces them.
use kubocd.Common.{ℕ, zero, suc, String, Bool, true, false, not, ◌&&◌, ◌||◌, Option, none, some}
use kubocd.Common.{List, [], ◌∷◌, ◌++◌, map, Result, ok, err, ◌>>=◌, length, ltb, ◌==◌, string_eq}
use kubocd.Common.{if◌then◌else◌}
use kubocd.Value.{array, object, Items, nil, item, Fields, end}
use kubocd.Value.Maps.{set_field}
use kubocd.Config.Spec.{NamespacedName}
use kubocd.Package.Kinds.{kind_connection, kind_cluster_connection, is_set}
use kubocd.Package.Inputs.{InputRendered}
use kubocd.Inputs.Connection.{Connection, connection_phase_ready, Reference, reference_to}
use kubocd.Inputs.Connection.{fetched, not_found, fetch_failed, Helper}

-- Each with the index of the input.
pub data BuildError : Type 0 where
  missing_information : ℕ → BuildError
  get_failed : ℕ → String → BuildError
  other_contract : ℕ → BuildError
  list_failed : ℕ → String → BuildError
  values_not_map : ℕ → BuildError
  index_panic : ℕ → BuildError

-- What an input waits for.
pub data Wanted : Type 0 where
  from_release : String → String → Wanted
  by_name : String → String → Wanted
  by_contract_in : String → String → Wanted
  by_contract : String → Wanted

-- With the index of the input, and the names of the connections that are possible.
pub data Message : Type 0 where
  waiting : ℕ → Wanted → List String → Message
  too_many : ℕ → List String → Message

-- `BuildInputModelResult`
pub record Collector : Type 0 where
  pub input_model : Fields
  pub input_list_model : Fields
  pub watched : List Reference
  pub effective : List Reference
  pub messages : List Message

-- What the first loop of `bimFilterConnection` collects.
pub record Selection : Type 0 where
  pub elected : List Connection
  pub possible_names : List String
  pub watched : List Reference

-- The tests of the loop's `continue`s.
unfoldable pub is_possible : InputRendered → Connection → Bool
is_possible input c =
    if not (c.contract == input.contract)
    then false
    else if is_set input.release_ref.name
        && is_set input.release_ref.output
        && not (input.release_ref.output == c.output_name)
    then false
    else true

-- The body of the loop.
unfoldable pub consider : InputRendered → Connection → Selection → Selection
consider input c s =
    if is_possible input c
    then record {
      elected = if c.phase == connection_phase_ready then s.elected ++ (c ∷ []) else s.elected;
      possible_names = s.possible_names ++ (c.name ∷ []);
      watched = s.watched ++ (reference_to c ∷ []);
    }
    else s

unfoldable pub select : InputRendered → List Connection → Selection → Selection
select input [] s = s
select input (c ∷ connections) s = select input connections (consider input c s)

wanted : InputRendered → Wanted
wanted input =
    if is_set input.release_ref.name
    then from_release input.release_ref.namespace input.release_ref.name
    else if is_set input.connection_ref.name
    then by_name input.connection_ref.namespace input.connection_ref.name
    else if is_set input.contract_lookup_namespace
    then by_contract_in input.contract input.contract_lookup_namespace
    else by_contract input.contract

-- `l[i] = x`; the index is one of the list's.
abbrev pub replace_at {ℓ} : {A : Type ℓ} → ℕ → A → List A → List A
replace_at i x [] = []
replace_at zero x (y ∷ l) = x ∷ l
replace_at (suc i) x (y ∷ l) = y ∷ replace_at i x l

abbrev pub add_message : Message → Collector → Collector
add_message m rc = record rc { messages = rc.messages ++ (m ∷ []) }

abbrev pub add_watched : List Reference → Collector → Collector
add_watched refs rc = record rc { watched = rc.watched ++ refs }

abbrev pub asks : InputRendered → String → Bool
asks input kind = input.kind == "" || input.kind == kind

-- `listError`, where the list failed.
unfoldable pub listed : ℕ → String → Option (List Connection) → Result BuildError (List Connection)
listed idx kind none = err (list_failed idx kind)
listed idx kind (some cnx) = ok cnx

module _ (helper : Helper) where
  unfoldable pub parse_value : ℕ → Connection → Result BuildError Fields
  parse_value idx c = elim c.values_raw [
    | none ↦ ok end
    | some raw ↦ elim (helper.unmarshal_strict raw) [
      | none ↦ err (values_not_map idx)
      | some values ↦ ok values
    ]
  ]

  -- The loop over the elected connections, which fills `inputList`.
  unfoldable pub parse_values : ℕ → List Connection → Result BuildError Items
  unfolding parse_value
  parse_values idx [] = ok nil
  parse_values idx (c ∷ connections) = do
    values ← parse_value idx c
    rest ← parse_values idx connections
    ok (item (object values) rest)

  -- The value and the reference of the elected connection.
  unfoldable pub elect : ℕ → InputRendered → Connection → Collector → Result BuildError Collector
  elect idx input c rc = do
    values ← parse_value idx c
    ok (record rc {
      input_model = set_field input.alias (object values) rc.input_model;
      effective = replace_at idx (reference_to c) rc.effective;
    })

  -- `sort.Slice` and the rest of `bimFilterConnection`, on the sorted connections.
  unfoldable pub elect_all :
      ℕ → InputRendered → List Connection → Collector → Result BuildError Collector
  unfolding parse_values
  elect_all idx input [] rc = err (index_panic idx)
  elect_all idx input (c ∷ connections) rc = do
    rc' ← elect idx input c rc
    list ← parse_values idx (c ∷ connections)
    ok (record rc' { input_list_model = set_field input.alias (array list) rc'.input_list_model })

  -- `bimFilterConnection` after its first loop.
  unfoldable pub conclude : ℕ → InputRendered → Selection → Collector → Result BuildError Collector
  unfolding wanted
  conclude idx input s rc = elim s.elected [
    | [] ↦ ok (
        if input.optional then rc else add_message (waiting idx (wanted input) s.possible_names) rc)
    | c ∷ rest ↦
        if not input.allow_multiple
        then (if ltb 1 (length s.possible_names)
            then ok (add_message (too_many idx s.possible_names) rc)
            else elect idx input c rc)
        else elect_all idx input (helper.sort_by_priority (c ∷ rest)) rc
  ]

  unfoldable pub bim_filter_connection :
      List Connection → ℕ → InputRendered → Collector → Result BuildError Collector
  bim_filter_connection connections idx input rc =
      let s =
        select input connections (record { elected = []; possible_names = []; watched = [] }) in
      conclude idx input s (add_watched s.watched rc)

  -- `bimFetchConnectionRef`, which gives the connections to filter.
  unfoldable pub fetch_connection_ref :
      String → ℕ → InputRendered → Collector → Result BuildError (List Connection × Collector)
  fetch_connection_ref kind idx input rc =
      let ns_name : NamespacedName = record {
        namespace = input.connection_ref.namespace;
        name = input.connection_ref.name;
      } in
      elim (helper.get kind ns_name) [
        | fetched c ↦
            if not (c.contract == input.contract) then err (other_contract idx) else ok (c ∷ [], rc)
        | not_found ↦ ok (
          [],
          add_watched
              (record { kind = kind; name = ns_name.name; namespace = ns_name.namespace } ∷ []) rc,
        )
        | fetch_failed ↦ err (get_failed idx kind)
      ]

  unfoldable pub bim_handle_connection_ref :
      ℕ → InputRendered → Collector → Result BuildError Collector
  unfolding fetch_connection_ref
  bim_handle_connection_ref idx input rc = do
    r₁ ←
        if asks input kind_connection
        then fetch_connection_ref kind_connection idx input rc
        else ok ([], rc)
    r₂ ←
        if asks input kind_cluster_connection
        then fetch_connection_ref kind_cluster_connection idx input r₁.1
        else ok ([], r₁.1)
    bim_filter_connection (r₁.0 ++ r₂.0) idx input r₂.1

  -- The common part of `bimHandleReleaseRef` and `bimHandleContractConnection`.
  unfoldable pub handle_lists :
      Option (List Connection)
      → Option (List Connection)
      → ℕ
      → InputRendered
      → Collector
      → Result BuildError Collector
  unfolding listed
  handle_lists connections cluster_connections idx input rc = do
    l₁ ← if asks input kind_connection then listed idx kind_connection connections else ok []
    l₂ ←
        if asks input kind_cluster_connection
        then listed idx kind_cluster_connection cluster_connections
        else ok []
    bim_filter_connection (l₁ ++ l₂) idx input rc

  unfoldable pub bim_handle_release_ref :
      ℕ → InputRendered → Collector → Result BuildError Collector
  bim_handle_release_ref idx input rc =
      let release : NamespacedName = record {
        namespace = input.release_ref.namespace;
        name = input.release_ref.name;
      } in
      handle_lists (helper.find_output_connections_from_release release)
        (helper.find_output_cluster_connections_from_release release) idx input rc

  unfoldable pub bim_handle_contract_connection :
      ℕ → InputRendered → Collector → Result BuildError Collector
  bim_handle_contract_connection idx input rc =
      handle_lists
        (helper.find_connections_from_contract input.contract_lookup_namespace input.contract)
        (helper.find_cluster_connections_from_contract input.contract) idx input rc

  -- The body of the loop over the inputs.
  unfoldable pub handle_input : ℕ → InputRendered → Collector → Result BuildError Collector
  unfolding bim_handle_release_ref bim_handle_contract_connection
  handle_input idx input rc =
      if is_set input.connection_ref.name
      then bim_handle_connection_ref idx input rc
      else if is_set input.release_ref.name
      then bim_handle_release_ref idx input rc
      else if is_set input.contract_lookup_namespace
      then bim_handle_contract_connection idx input rc
      else err (missing_information idx)

  unfoldable pub handle_inputs : ℕ → List InputRendered → Collector → Result BuildError Collector
  handle_inputs idx [] rc = ok rc
  handle_inputs idx (input ∷ inputs) rc = do
    rc' ← handle_input idx input rc
    handle_inputs (suc idx) inputs rc'

  unfoldable pub build_input_model : List InputRendered → Result BuildError Collector
  build_input_model inputs = handle_inputs 0 inputs (record {
    input_model = end;
    input_list_model = end;
    watched = [];
    effective = map (λ (i : InputRendered). record { kind = ""; name = ""; namespace = "" }) inputs;
    messages = [];
  })
