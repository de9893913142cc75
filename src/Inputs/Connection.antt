-- ===== src/Inputs/Connection.antt =====
-- What `BuildInputModel` reads of a Connection or a ClusterConnection, by the methods of
-- `ConnectionFacade` (api/v1alpha1/connection_facade.go), and what it asks the cluster.
use kubocd.Common.{String, ◌≡◌, Option, List, length, All}
use kubocd.Common.Int64.{ℤ}
use kubocd.Value.{Fields}
use kubocd.Config.Spec.{NamespacedName}

pub record Connection : Type 0 where
  pub kind : String
  pub name : String
  pub namespace : String
  pub contract : String
  pub output_name : String
  pub phase : String
  pub priority : ℤ
  pub values_raw : Option String

abbrev pub connection_phase_ready : String
connection_phase_ready = "READY"

-- `InputConnectionReference` of api/v1alpha1/release_types.go.
pub record Reference : Type 0 where
  pub kind : String
  pub name : String
  pub namespace : String

abbrev pub reference_to : Connection → Reference
reference_to c = record { kind = c.kind; name = c.name; namespace = c.namespace }

-- What `client.Get` of an object gives.
pub data Fetched : Type 0 where
  fetched : Connection → Fetched
  not_found : Fetched
  fetch_failed : Fetched

-- `BuildInputModelHelper`, whose lists are `none` where they fail; `yaml.UnmarshalStrict` into a
-- map, whose null is the empty map here; and `sort.Slice` by priority and name, which reorders.
pub record Helper : Type 1 where
  pub get : String → NamespacedName → Fetched
  pub find_output_connections_from_release : NamespacedName → Option (List Connection)
  pub find_output_cluster_connections_from_release : NamespacedName → Option (List Connection)
  pub find_connections_from_contract : String → String → Option (List Connection)
  pub find_cluster_connections_from_contract : String → Option (List Connection)
  pub unmarshal_strict : String → Option Fields
  pub sort_by_priority : List Connection → List Connection
  pub length-sort : (l : List Connection) → length (sort_by_priority l) ≡ length l
  pub sort-All :
      (P : Connection → Type 0) (l : List Connection) → All P l → All P (sort_by_priority l)
