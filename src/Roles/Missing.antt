-- ===== src/Roles/Missing.antt =====
-- What follows where `MissingDependency` returns the empty string.
use kubocd.Common.{String, ◌≡◌, ◌≢◌, true, inl, inr, List, [], ◌∷◌, All, Bool-cases, string_eq}
use kubocd.Config.Spec.{Configuration}
use kubocd.Roles.{RolesByRelease, is_dependency_ok, missing_dependency}

-- The dependencies are fulfilled where none is missing, and none is empty.
pub All-fulfilled :
    (cfg : Configuration) (store : RolesByRelease) (dependencies : List String)
    → All (λ d. d ≢ "") dependencies
    → missing_dependency cfg store dependencies ≡ ""
    → All (λ d. is_dependency_ok cfg store d ≡ true) dependencies
unfolding missing_dependency
All-fulfilled cfg store [] named e = tt
All-fulfilled cfg store (d ∷ dependencies) (name, named) e =
    elim (Bool-cases (is_dependency_ok cfg store d)) [
      | inl fine ↦
          (fine, All-fulfilled cfg store dependencies named (rw (fine, missing_dependency) at e))
      | inr fails ↦ absurd (name (rw (fails, missing_dependency) at e))
    ]
