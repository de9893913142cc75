-- ===== src/Reconcile/Status.antt =====
-- What one pass of the reconciler reads and sets: the error and the phases of
-- internal/controller/release_controller.go, and the status of api/v1alpha1/release_types.go.
-- A nil map or slice is `none` where the code tells it from an empty one.
use kubocd.Common.{String, Bool, true, false, ◌&&◌, Option, none, some}
use kubocd.Common.{List, [], ◌∷◌, ◌==◌, Eq, string_eq, nat_eq, length, if◌then◌else◌}
use kubocd.Config.Spec.{NamespacedName}
use kubocd.Inputs.Connection.{Reference}

pub record ReconcileError : Type 0 where
  pub message : String
  pub fatal : Bool
  pub event_reason : String

abbrev pub phase_ready : String
phase_ready = "READY"

abbrev pub phase_error : String
phase_error = "ERROR"

abbrev pub phase_wait_helm_releases : String
phase_wait_helm_releases = "WAIT_HREL"

abbrev pub phase_wait_output_connections : String
phase_wait_output_connections = "WAIT_OCNX"

abbrev pub phase_wait_dependencies : String
phase_wait_dependencies = "WAIT_DEPS"

abbrev pub phase_wait_input_connections : String
phase_wait_input_connections = "WAIT_ICNX"

abbrev pub phase_suspended : String
phase_suspended = "SUSPENDED"

abbrev pub phase_wait_conditions : String
phase_wait_conditions = "WAIT_COND"

pub record HelmReleaseState : Type 0 where
  pub ready : String
  pub status : String

pub record ReleaseOutputConnection : Type 0 where
  pub reference : Reference
  pub phase : String
  pub message : String

instance unfoldable pub strings_eq : Eq (List String)
strings_eq = record { dec = hlevel string_eq.dec }

instance unfoldable pub references_eq : Eq (List Reference)
references_eq = record { dec = hlevel string_eq.dec }

instance unfoldable pub name_eq : Eq NamespacedName
name_eq = record { dec = hlevel string_eq.dec }

instance unfoldable pub helm_state_eq : Eq HelmReleaseState
helm_state_eq = record { dec = hlevel string_eq.dec }

instance unfoldable pub output_eq : Eq ReleaseOutputConnection
output_eq = record { dec = hlevel string_eq.dec }

-- `reflect.DeepEqual` on slices that can be nil.
abbrev pub same_slice {ℓ} :
    {A : Type ℓ} → ⦃e : Eq (List A)⦄ → Option (List A) → Option (List A) → Bool
same_slice none none = true
same_slice none (some n) = false
same_slice (some m) none = false
same_slice (some m) (some n) = m == n

-- Go maps with string keys, their entries in one order of iteration.
module _ {ℓ} {A : Type ℓ} where
  unfoldable pub lookup : String → List (String × A) → Option A
  lookup k [] = none
  lookup k ((j, a) ∷ m) = if k == j then some a else lookup k m

  -- `m[k] = a`
  unfoldable pub insert : String → A → List (String × A) → List (String × A)
  insert k a [] = (k, a) ∷ []
  insert k a ((j, b) ∷ m) = if k == j then (j, a) ∷ m else (j, b) ∷ insert k a m

  -- `delete(m, k)`
  unfoldable pub drop : String → List (String × A) → List (String × A)
  drop k [] = []
  drop k ((j, b) ∷ m) = let rest = drop k m in if k == j then rest else (j, b) ∷ rest

  module _ ⦃e : Eq A⦄ where
    same_entry : A → Option A → Bool
    same_entry a none = false
    same_entry a (some b) = a == b

    within : List (String × A) → List (String × A) → Bool
    unfolding same_entry
    within [] n = true
    within ((k, a) ∷ m) n = same_entry a (lookup k n) && within m n

    -- `reflect.DeepEqual` on two maps.
    unfoldable pub same_map : List (String × A) → List (String × A) → Bool
    unfolding within
    same_map m n = length m == length n && within m n

    -- The same where a map can be nil, which differs from an empty one.
    abbrev pub same_nilable : Option (List (String × A)) → Option (List (String × A)) → Bool
    same_nilable none none = true
    same_nilable none (some n) = false
    same_nilable (some m) none = false
    same_nilable (some m) (some n) = same_map m n

-- The fields of `ReleaseStatus` that are set once the values are rendered, and by the inputs.
pub record Status : Type 0 where
  pub phase : String
  pub message : String
  pub usage : Option (List (String × String))
  pub print_description : String
  pub roles : Option (List String)
  pub dependencies : Option (List String)
  pub ready_releases : String
  pub helm_release_states : Option (List (String × HelmReleaseState))
  pub ready_output_connections : String
  pub output_connection_by_name : Option (List (String × ReleaseOutputConnection))
  pub watched_input_connections : Option (List Reference)
  pub effective_input_connections : Option (List Reference)

-- `releaseOperation`, with the `forceUpdate` of `reconcile2` and the connections that the pass
-- deletes. The marks of the output connections are the names under which they stand.
pub record ReleaseOperation : Type 0 where
  pub status : Status
  pub force_update : Bool
  pub roles : List String
  pub dependencies : List String
  pub message : String
  pub connection_names : List String
  pub cluster_connection_names : List String
  pub deleted_connections : List Reference
  pub deleted_cluster_connections : List Reference

-- A return of `reconcile2`.
pub data Ending : Type 0 where
  report : ReleaseOperation → ReconcileError → Ending
  update : ReleaseOperation → String → String → Ending
  update_and_retry : ReleaseOperation → String → String → Ending
