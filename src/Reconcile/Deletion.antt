-- ===== src/Reconcile/Deletion.antt =====
-- The deletion of a Release: the first part of `reconcile2` and `deleteOutputClusterConnections` of
-- internal/controller/release_controller.go. What the cluster answers is a parameter; the removal
-- of the local folder, whose error is only logged, is left out.
use kubocd.Common.{
  String, ◌<>◌, Bool, true, false, not, Option, none, some, ◌≡◌, refl, ◌⊎◌, inl, inr,
}
use kubocd.Common.{List, [], ◌∷◌, Result, ok, err, if◌then◌else◌, arith, All, Result-cases}
use mathlib.Core.Option.{none-ne-some}
use kubocd.Common.{sym}
use kubocd.Config.Spec.{NamespacedName}
use kubocd.Roles.{un_register_release}
use kubocd.Roles.Laws.{Holds, un_register_release-Holds}
use kubocd.Reconcile.Report.{Memory, Outcome, done, failed, clear}

-- What the deletion of a ClusterConnection gives: an object that is not found counts as deleted.
pub data Deleted : Type 0 where
  deleted : Deleted
  not_found : Deleted
  delete_failed : String → Deleted

-- Whether the Release has the finalizer, the list of its ClusterConnections with the answers to
-- their deletion, and the error of the update that removes the finalizer.
pub record DeletionAnswers : Type 0 where
  pub has_finalizer : Bool
  pub cluster_connections : Result String (List (String × Deleted))
  pub update : Option String

pub record Deletion : Type 0 where
  pub outcome : Outcome
  pub memory : Memory
  pub finalizer_removed : Bool

-- The loop, which tries each deletion and keeps the first error.
unfoldable pub first_failure : List (String × Deleted) → Option String
first_failure [] = none
first_failure ((name, delete_failed e) ∷ l) =
    some ("could not delete the ClusterConnections of the Release: " <> e)
first_failure ((name, deleted) ∷ l) = first_failure l
first_failure ((name, not_found) ∷ l) = first_failure l

unfoldable pub delete_output_cluster_connections : DeletionAnswers → Option String
delete_output_cluster_connections answers = elim answers.cluster_connections [
  | err e ↦ some ("could not list the ClusterConnections of the Release: " <> e)
  | ok l ↦ first_failure l
]

module _ (full_name : NamespacedName → String) (release : NamespacedName) where
  unfoldable pub reconcile_deletion : Memory → DeletionAnswers → Deletion
  reconcile_deletion m answers =
      let m' : Memory = record {
        role_store = un_register_release full_name release m.role_store;
        status_failures = clear release m.status_failures;
      } in
      if not answers.has_finalizer
      then record { outcome = done; memory = m'; finalizer_removed = false }
      else elim (delete_output_cluster_connections answers) [
        | some e ↦ record { outcome = failed e; memory = m'; finalizer_removed = false }
        | none ↦ elim answers.update [
          | some e ↦ record {
            outcome = failed ("could not remove the finalizer of the Release: " <> e);
            memory = m';
            finalizer_removed = false;
          }
          | none ↦ record { outcome = done; memory = m'; finalizer_removed = true }
        ]
      ]

abbrev pub IsGone : String × Deleted → Type 0
IsGone entry = (entry.1 ≡ deleted) ⊎ (entry.1 ≡ not_found)

-- The ClusterConnections of the Release are listed, and each is deleted or not found.
abbrev pub AllGone : DeletionAnswers → Type 0
AllGone answers =
    (l : List (String × Deleted)) × (answers.cluster_connections ≡ ok l) × All IsGone l

first_failure-IsGone : (l : List (String × Deleted)) → first_failure l ≡ none → All IsGone l
unfolding first_failure
first_failure-IsGone [] h = tt
first_failure-IsGone ((name, delete_failed e) ∷ l) h = absurd (none-ne-some _ (sym h))
first_failure-IsGone ((name, deleted) ∷ l) h = (inl refl, first_failure-IsGone l h)
first_failure-IsGone ((name, not_found) ∷ l) h = (inr refl, first_failure-IsGone l h)

delete_output-AllGone :
    (answers : DeletionAnswers) → delete_output_cluster_connections answers ≡ none → AllGone answers
unfolding delete_output_cluster_connections
delete_output-AllGone answers h = elim (Result-cases answers.cluster_connections) [
  | inl (l, e) ↦ (l, e, first_failure-IsGone l (rw (e, delete_output_cluster_connections) at h))
  | inr (failure, e) ↦
      absurd (none-ne-some _ (sym (rw (e, delete_output_cluster_connections) at h)))
]

module _ (full_name : NamespacedName → String) (release : NamespacedName) where
  pub record IsDeletion (m : Memory) (answers : DeletionAnswers) (d : Deletion) : Type 0 where
    pub removed : d.finalizer_removed ≡ true → AllGone answers × (d.outcome ≡ done)
    pub retried : d.outcome ≡ done → (answers.has_finalizer ≡ false) ⊎ (d.finalizer_removed ≡ true)
    pub unregistered : (roles : List String) → ¬ Holds d.memory.role_store (full_name release) roles

  removed_after :
      (m : Memory) (answers : DeletionAnswers)
      → let d = reconcile_deletion full_name release m answers in
        d.finalizer_removed ≡ true
        → (delete_output_cluster_connections answers ≡ none) × (d.outcome ≡ done)
  unfolding reconcile_deletion
  removed_after m answers h = ground (arith, h)

  done_after :
      (m : Memory) (answers : DeletionAnswers)
      → let d = reconcile_deletion full_name release m answers in
        d.outcome ≡ done → (answers.has_finalizer ≡ false) ⊎ (d.finalizer_removed ≡ true)
  unfolding reconcile_deletion
  done_after m answers h = ground (arith, h)

  role_store_after :
      (m : Memory) (answers : DeletionAnswers)
      → (reconcile_deletion full_name release m answers).memory.role_store
        ≡ un_register_release full_name release m.role_store
  unfolding reconcile_deletion
  role_store_after m answers = ground arith

  -- The finalizer of a Release under deletion is removed only where the list of its
  -- ClusterConnections is known and each is deleted or not found; while it is there the pass fails,
  -- and so is tried again; and in all cases the Release is no longer registered.
  pub reconcile_deletion-IsDeletion :
      (m : Memory) (answers : DeletionAnswers)
      → IsDeletion m answers (reconcile_deletion full_name release m answers)
  reconcile_deletion-IsDeletion m answers = record {
    removed = λ h.
        let (gone, ended) = removed_after m answers h in
        (delete_output-AllGone answers gone, ended);
    retried = done_after m answers;
    unregistered = λ roles held.
        let (elsewhere, _) =
          (un_register_release-Holds full_name release m.role_store (full_name release) roles).0
            (rw (role_store_after m answers) at held) in
        elsewhere refl;
  }
