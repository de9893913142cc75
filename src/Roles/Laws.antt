-- ===== src/Roles/Laws.antt =====
-- The role store against the history of its calls, and the dependency that is reported missing.
use mathlib.Core.Path.{subst}
use kubocd.Common.{String, ◌≡◌, refl, ◌⊎◌, inl, inr, ◌↔◌, Bool, true, false, Option, none, some}
use kubocd.Common.{List, [], ◌∷◌, ◌++◌, contains, ◌==◌, string_eq, if◌then◌else◌, arith, All}
use kubocd.Common.{Bool-cases, sym, ap}
use kubocd.Config.Spec.{NamespacedName, Configuration}
use kubocd.Config.Store.{is_cluster_role}
use kubocd.Roles.{RolesByRelease, delete_release, provided, is_dependency_ok, missing_dependency}
use kubocd.Roles.{register_release, un_register_release}

-- `release` is registered with `roles`.
pub Holds : RolesByRelease → String → List String → Type 0
Holds [] release roles = ⊥
Holds ((j, w) ∷ m) release roles = ((j ≡ release) × (w ≡ roles)) ⊎ Holds m release roles

delete_release-Holds :
    (k : String) (m : RolesByRelease) (release : String) (roles : List String)
    → Holds (delete_release k m) release roles ↔ ((¬ (release ≡ k)) × Holds m release roles)
unfolding Holds delete_release
delete_release-Holds k [] release roles = ground arith
delete_release-Holds k ((j, w) ∷ m) release roles =
    ground (arith, delete_release-Holds k m release roles)

-- The roles of a release after a history of calls: those of its last registration, unless the
-- release has been unregistered since.
pub data Call : Type 0 where
  register : NamespacedName → List String → Call
  un_register : NamespacedName → Call

module _ (full_name : NamespacedName → String) where
  unfoldable pub latest : Option (List String) → String → List Call → Option (List String)
  latest start release [] = start
  latest start release (register name roles ∷ calls) =
      latest (if full_name name == release then some roles else start) release calls
  latest start release (un_register name ∷ calls) =
      latest (if full_name name == release then none else start) release calls

  -- The store after the calls.
  unfoldable pub replay : RolesByRelease → List Call → RolesByRelease
  replay store [] = store
  replay store (register name roles ∷ calls) =
      replay (register_release full_name name roles store) calls
  replay store (un_register name ∷ calls) = replay (un_register_release full_name name store) calls

  replay-Holds :
      (calls : List Call) (store : RolesByRelease) (start : Option (List String)) (release : String)
      (roles : List String)
      → (Holds store release roles ↔ (start ≡ some roles))
      → Holds (replay store calls) release roles ↔ (latest start release calls ≡ some roles)
  unfolding replay latest register_release un_register_release Holds
  replay-Holds [] store start release roles h = h
  replay-Holds (register name w ∷ calls) store start release roles h =
      replay-Holds calls _ _ release roles
        (ground (arith, h, delete_release-Holds (full_name name) store release roles))
  replay-Holds (un_register name ∷ calls) store start release roles h =
      replay-Holds calls _ _ release roles
        (ground (arith, h, delete_release-Holds (full_name name) store release roles))

pub register_release-Holds :
    (full_name : NamespacedName → String) (name : NamespacedName) (w : List String)
    (store : RolesByRelease) (release : String) (roles : List String)
    → Holds (register_release full_name name w store) release roles ↔ (
        ((full_name name ≡ release) × (w ≡ roles))
        ⊎ ((¬ (release ≡ full_name name)) × Holds store release roles))
unfolding Holds register_release
register_release-Holds full_name name w store release roles =
    ground (arith, delete_release-Holds (full_name name) store release roles)

pub un_register_release-Holds :
    (full_name : NamespacedName → String) (name : NamespacedName) (store : RolesByRelease)
    (release : String) (roles : List String)
    → Holds (un_register_release full_name name store) release roles
      ↔ ((¬ (release ≡ full_name name)) × Holds store release roles)
unfolding un_register_release
un_register_release-Holds full_name name store release roles =
    delete_release-Holds (full_name name) store release roles

provided-Holds :
    (store : RolesByRelease) (dependency release : String) (roles : List String)
    → Holds store release roles
    → contains roles dependency ≡ true
    → provided store dependency ≡ true
unfolding provided Holds
provided-Holds [] dependency release roles held h = elim held [ ]
provided-Holds ((j, w) ∷ m) dependency release roles (inl (e, e')) h = ground arith
provided-Holds ((j, w) ∷ m) dependency release roles (inr held) h =
    ground (arith, provided-Holds m dependency release roles held h)

provided→Holds :
    (store : RolesByRelease) (dependency : String)
    → provided store dependency ≡ true
    → (release : String) × (roles : List String) × Holds store release roles
      × (contains roles dependency ≡ true)
unfolding provided Holds
provided→Holds [] dependency h = absurd (ground arith)
provided→Holds ((j, w) ∷ m) dependency h = elim (Bool-cases (contains w dependency)) [
  | inl e ↦ (j, w, inl (refl, refl), e)
  | inr e ↦
      let (release, roles, held, e') = provided→Holds m dependency (ground arith) in
      (release, roles, inr held, e')
]

-- `missing` is the first dependency that fails, or there is none and it is the empty string.
pub FirstMissing : Configuration → RolesByRelease → List String → String → Type 0
FirstMissing cfg store dependencies missing =
    (All (λ (d : String). is_dependency_ok cfg store d ≡ true) dependencies × (missing ≡ ""))
    ⊎ ((before : List String) × (after : List String) × (dependencies ≡ before ++ missing ∷ after)
        × All (λ (d : String). is_dependency_ok cfg store d ≡ true) before
        × (is_dependency_ok cfg store missing ≡ false))

FirstMissing-cons :
    (cfg : Configuration) (store : RolesByRelease) (d : String) (dependencies : List String)
    (missing : String)
    → is_dependency_ok cfg store d ≡ true
    → FirstMissing cfg store dependencies missing
    → FirstMissing cfg store (d ∷ dependencies) missing
unfolding FirstMissing
FirstMissing-cons cfg store d dependencies missing e (inl (all, empty)) = inl ((e, all), empty)
FirstMissing-cons cfg store d dependencies missing e (inr (before, after, split, all, fails)) =
    inr (d ∷ before, after, ap (λ (l : List String). d ∷ l) split, (e, all), fails)

-- `MissingDependency` returns the first dependency that is not fulfilled, all before it being
-- fulfilled; it returns the empty string where all are.
pub missing_dependency-FirstMissing :
    (cfg : Configuration) (store : RolesByRelease) (dependencies : List String)
    → FirstMissing cfg store dependencies (missing_dependency cfg store dependencies)
unfolding missing_dependency FirstMissing
missing_dependency-FirstMissing cfg store [] = inl (tt, refl)
missing_dependency-FirstMissing cfg store (d ∷ dependencies) =
    elim (Bool-cases (is_dependency_ok cfg store d)) [
      | inl e ↦
          subst (FirstMissing cfg store (d ∷ dependencies))
            (sym (ap (λ (b : Bool). if b then missing_dependency cfg store dependencies else d) e))
            (FirstMissing-cons cfg store d dependencies _ e
              (missing_dependency-FirstMissing cfg store dependencies))
      | inr e ↦
          subst (FirstMissing cfg store (d ∷ dependencies))
            (sym (ap (λ (b : Bool). if b then missing_dependency cfg store dependencies else d) e))
            (inr ([], dependencies, refl, tt, e))
    ]

-- After any sequence of registrations and unregistrations on an empty store, a dependency is
-- fulfilled exactly if it is a cluster role of the configuration, or some release whose last call
-- was a registration registered it among its roles there.
pub is_dependency_ok-replay :
    (full_name : NamespacedName → String) (cfg : Configuration) (calls : List Call)
    (dependency : String)
    → (is_dependency_ok cfg (replay full_name [] calls) dependency ≡ true) ↔ (
        (is_cluster_role cfg dependency ≡ true)
        ⊎ ((release : String) × (roles : List String) × (latest full_name none release calls
              ≡ some roles)
            × (contains roles dependency ≡ true)))
unfolding is_dependency_ok Holds
is_dependency_ok-replay full_name cfg calls dependency =
    let store = replay full_name [] calls in
    (
      λ h. elim (Bool-cases (is_cluster_role cfg dependency)) [
        | inl e ↦ inl e
        | inr e ↦
            let (release, roles, held, listed) = provided→Holds store dependency (ground arith) in
            inr (release, roles, (history release roles).0 held, listed)
      ],
      λ h. elim h [
        | inl e ↦ ground arith
        | inr (release, roles, last, listed) ↦
            let fulfilled =
              provided-Holds store dependency release roles ((history release roles).1 last)
                listed in
            ground arith
      ],
    )
  where
    history :
        (release : String) (roles : List String)
        → Holds (replay full_name [] calls) release roles
          ↔ (latest full_name none release calls ≡ some roles)
    history release roles = replay-Holds full_name calls [] none release roles (ground arith)
