-- ===== src/Roles.antt =====
-- internal/rolestore/rolestore.go: the roles that the ready Releases provide, and the check of a
-- Release's dependencies. `String` of a namespaced name is a parameter. A Go map is an association
-- list with one entry for a key, in any order. The mutex makes each operation one step.
pub mod Laws
pub mod Missing
use kubocd.Common.{ℕ, String, Bool, true, false, ◌||◌, List, [], ◌∷◌, contains, ◌==◌, string_eq}
use kubocd.Common.{if◌then◌else◌}
use kubocd.Config.Spec.{NamespacedName, Configuration}
use kubocd.Config.Store.{is_cluster_role}

-- `rolesByRelease`
abbrev pub RolesByRelease : Type 0
RolesByRelease = List (String × List String)

-- `delete(m, key)`
unfoldable pub delete_release : String → RolesByRelease → RolesByRelease
delete_release k [] = []
delete_release k ((j, roles) ∷ m) =
    let rest = delete_release k m in if j == k then rest else (j, roles) ∷ rest

-- The two loops of `isDependencyOK`.
unfoldable pub provided : RolesByRelease → String → Bool
provided [] dependency = false
provided ((release, roles) ∷ m) dependency = contains roles dependency || provided m dependency

unfoldable pub is_dependency_ok : Configuration → RolesByRelease → String → Bool
is_dependency_ok cfg store dependency = is_cluster_role cfg dependency || provided store dependency

unfoldable pub missing_dependency : Configuration → RolesByRelease → List String → String
missing_dependency cfg store [] = ""
missing_dependency cfg store (dependency ∷ dependencies) =
    let rest = missing_dependency cfg store dependencies in
    if is_dependency_ok cfg store dependency then rest else dependency

module _ (full_name : NamespacedName → String) where
  unfoldable pub register_release : NamespacedName → List String → RolesByRelease → RolesByRelease
  register_release name roles store =
      (full_name name, roles) ∷ delete_release (full_name name) store

  unfoldable pub un_register_release : NamespacedName → RolesByRelease → RolesByRelease
  un_register_release name store = delete_release (full_name name) store
