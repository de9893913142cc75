-- ===== src/Reconcile/Outputs.antt =====
-- The output connections of a Release: `handleOutputConnection` and `handleOutputClusterConnection`
-- of internal/controller/release_outputconnection.go and release_outputclusterconnection.go, and
-- what `reconcile2` does with them. What the cluster answers is a parameter.
use kubocd.Common.{ℕ, suc, String, ◌<>◌, Bool, false, not, ◌&&◌}
use kubocd.Common.{List, [], ◌∷◌, length, Result, ok, err, ◌==◌, string_eq, nat_eq}
use kubocd.Common.{contains, if◌then◌else◌}
use kubocd.Config.Spec.{NamespacedName}
use kubocd.Package.Kinds.{kind_connection, kind_cluster_connection, is_set}
use kubocd.Inputs.Connection.{connection_phase_ready, Reference}
use kubocd.Reconcile.Status.{ReconcileError, ReleaseOutputConnection, insert}

-- What `Get` gives for a connection; of a ClusterConnection that there is, whether its parent is
-- another Release.
pub data OutputFetched : Type 0 where
  output_found : Bool → OutputFetched
  output_missing : OutputFetched
  output_unknown : String → OutputFetched

-- A rendered output with what the cluster answers for its connection: to `Get`, to the creation,
-- and to the patch, after which the connection has a phase and a message.
pub record OutputCalls : Type 0 where
  pub name : String
  pub kind : String
  pub get : OutputFetched
  pub create : Result String (Unit {0})
  pub patch : Result String (String × String)

-- The fields of `releaseOperation` that the two functions write.
pub record Outputs : Type 0 where
  pub by_name : List (String × ReleaseOutputConnection)
  pub connection_names : List String
  pub cluster_connection_names : List String

abbrev pub no_outputs : Outputs
no_outputs = record { by_name = []; connection_names = []; cluster_connection_names = [] }

abbrev pub build_connection_name : String → String → String
build_connection_name release_name output_name = "kcd-" <> (release_name <> ("-" <> output_name))

abbrev pub build_cluster_connection_name : String → String → String → String
build_cluster_connection_name release_name release_namespace output_name =
    "kcd-" <> (release_namespace <> ("-" <> (release_name <> ("-" <> output_name))))

abbrev output_error : String → String → ReconcileError
output_error message reason = record { message = message; fatal = false; event_reason = reason }

-- The entry of the output, once its connection is created or patched.
abbrev pub set_output : OutputCalls → Reference → String → String → Outputs → Outputs
set_output o reference phase message outputs = record outputs {
  by_name =
      insert o.name (record { reference = reference; phase = phase; message = message })
        outputs.by_name;
}

-- The creation and the patch of a connection that is marked as no orphan.
unfoldable pub created : OutputCalls → Reference → Outputs → Result ReconcileError Outputs
created o reference outputs = elim o.create [
  | err e ↦ err (output_error e "ConnectionCreate")
  | ok done ↦ ok (set_output o reference "" "" outputs)
]

unfoldable pub patched : String → OutputCalls → Reference → Outputs → Result ReconcileError Outputs
patched reason o reference outputs = elim o.patch [
  | err e ↦ err (output_error e reason)
  | ok answer ↦ ok (set_output o reference answer.0 answer.1 outputs)
]

abbrev pub mark_connection : String → Outputs → Outputs
mark_connection name outputs = record outputs { connection_names = name ∷ outputs.connection_names }

abbrev pub mark_cluster_connection : String → Outputs → Outputs
mark_cluster_connection name outputs = record outputs {
  cluster_connection_names = name ∷ outputs.cluster_connection_names;
}

unfoldable pub handle_output_connection :
    String → NamespacedName → OutputCalls → Outputs → Result ReconcileError Outputs
unfolding created patched
handle_output_connection name release o outputs =
    let reference : Reference = record {
      kind = kind_connection;
      name = name;
      namespace = release.namespace;
    } in
    elim o.get [
      | output_unknown e ↦
          err (output_error ("could not get its Connection: " <> e) "ConnectionAccess")
      | output_missing ↦ created o reference (mark_connection name outputs)
      | output_found foreign ↦ patched "ConnectionPatch" o reference (mark_connection name outputs)
    ]

unfoldable pub handle_output_cluster_connection :
    String → OutputCalls → Outputs → Result ReconcileError Outputs
unfolding created patched
handle_output_cluster_connection name o outputs =
    let reference : Reference = record {
      kind = kind_cluster_connection;
      name = name;
      namespace = "";
    } in
    elim o.get [
      | output_unknown e ↦
          err
            (output_error ("could not get its ClusterConnection: " <> e) "ClusterConnectionAccess")
      | output_missing ↦ created o reference (mark_cluster_connection name outputs)
      | output_found foreign ↦
          if foreign
          then err (
              output_error "its ClusterConnection belongs to another Release"
                "ClusterConnectionOwner")
          else patched "ClusterConnectionPatch" o reference (mark_cluster_connection name outputs)
    ]

-- The body of the loop over the outputs.
unfoldable pub handle_output :
    NamespacedName → OutputCalls → Outputs → Result ReconcileError Outputs
unfolding handle_output_connection handle_output_cluster_connection
handle_output release o outputs =
    if o.kind == kind_cluster_connection
    then handle_output_cluster_connection
        (build_cluster_connection_name release.name release.namespace o.name) o outputs
    else handle_output_connection (build_connection_name release.name o.name) release o outputs

module _ (itoa : ℕ → String) where
  -- `atPlace`
  abbrev pub at_place : String → ℕ → ReconcileError → ReconcileError
  at_place place idx e = record e { message = place <> ("[" <> (itoa idx <> ("]: " <> e.message))) }

  unfoldable pub handle_outputs :
      NamespacedName → ℕ → List OutputCalls → Outputs → Result ReconcileError Outputs
  handle_outputs release idx [] outputs = ok outputs
  handle_outputs release idx (o ∷ rest) outputs = elim (handle_output release o outputs) [
    | err e ↦ err (at_place "output" idx e)
    | ok outputs' ↦ handle_outputs release (suc idx) rest outputs'
  ]

unfoldable pub count_connected : List (String × ReleaseOutputConnection) → ℕ
count_connected [] = 0
count_connected ((k, c) ∷ by_name) =
    let rest = count_connected by_name in
    if c.phase == connection_phase_ready then suc rest else rest

unfoldable pub compute_ready_connection :
    (ℕ → String) → List (String × ReleaseOutputConnection) → String × Bool
compute_ready_connection itoa by_name =
    let cnt = count_connected by_name in
    (itoa cnt <> ("/" <> itoa (length by_name)), cnt == length by_name)

-- The two loops that set the message, on the entries in the order of their names.
bad_phase_message : List (String × ReleaseOutputConnection) → String → String
bad_phase_message [] message = message
bad_phase_message ((k, c) ∷ outputs) message = bad_phase_message outputs (
    if is_set c.phase && not (c.phase == connection_phase_ready) && message == ""
    then "Connection '" <> (k <> ("': " <> c.message))
    else message)

no_phase_message : String → List (String × ReleaseOutputConnection) → String → String
no_phase_message unchecked [] message = message
no_phase_message unchecked ((k, c) ∷ outputs) message = no_phase_message unchecked outputs (
    if c.phase == "" && message == ""
    then "Connection '" <> (k <> ("': " <> unchecked))
    else message)

unfoldable pub output_message : String → List (String × ReleaseOutputConnection) → String → String
unfolding bad_phase_message no_phase_message
output_message unchecked outputs message =
    no_phase_message unchecked outputs (bad_phase_message outputs message)

-- The connections of a list that the pass did not mark, as the orphans that it deletes.
unfoldable pub orphans : List String → List Reference → List Reference
orphans marked [] = []
orphans marked (c ∷ connections) =
    let rest = orphans marked connections in if contains marked c.name then rest else c ∷ rest
