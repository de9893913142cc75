-- ===== src/Package/Kinds.antt =====
-- The kinds of connections (api/v1alpha1/common.go) and `CountNonZero` of internal/misc/misc.go.
use kubocd.Common.{ℕ, ◌+◌, String, Bool, not, List, [], ◌∷◌, ◌==◌, string_eq}
use kubocd.Common.{if◌then◌else◌, ◌≢◌, arith}
use text.Mathlib.TextEquality.{eq_iff}

abbrev pub kind_connection : String
kind_connection = "Connection"

abbrev pub kind_cluster_connection : String
kind_cluster_connection = "ClusterConnection"

-- `CountNonZero` of strings, whose zero is the empty one.
abbrev pub count_non_zero : List String → ℕ
count_non_zero [] = 0
count_non_zero (s ∷ args) = let rest = count_non_zero args in if s == "" then rest else 1 + rest

-- `input.Kind == "" || input.Kind == kv1alpha1.KindConnection`
abbrev pub is_set : String → Bool
is_set s = not (s == "")

pub connection-ne-cluster_connection : kind_connection ≢ kind_cluster_connection
connection-ne-cluster_connection = ground (arith, eq_iff kind_connection kind_cluster_connection)

pub connection-ne-empty : kind_connection ≢ ""
connection-ne-empty = ground (arith, eq_iff kind_connection "")

pub cluster_connection-ne-empty : kind_cluster_connection ≢ ""
cluster_connection-ne-empty = ground (arith, eq_iff kind_cluster_connection "")
