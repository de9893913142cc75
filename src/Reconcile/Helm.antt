-- ===== src/Reconcile/Helm.antt =====
-- The HelmReleases of a Release: `handleHelmRelease` and `computeReadyHelmReleases` of
-- internal/controller/release_helmrelease.go, and the loops of `reconcile2` over them. What the
-- cluster answers is a parameter, and what is written to it is left out.
use kubocd.Common.{ℕ, suc, String, ◌<>◌, Bool, false, not}
use kubocd.Common.{
  List, [], ◌∷◌, length, Result, ok, err, ◌>>=◌, ◌==◌, string_eq, nat_eq, if◌then◌else◌,
}
use kubocd.Reconcile.Status.{ReconcileError, HelmReleaseState, insert, drop}

-- `metav1.ConditionStatus`
abbrev pub condition_true : String
condition_true = "True"

-- What `Get` gives for a HelmRelease; of one that there is, whether the Release controls it.
pub data HelmFetched : Type 0 where
  helm_found : Bool → HelmFetched
  helm_missing : HelmFetched
  helm_unknown : String → HelmFetched

-- What the cluster answers for a module's HelmRelease: to `Get`, `Create`, the patch and `Delete`,
-- whose errors are texts, and the state that `computeHelmReleaseState` gives after the patch.
pub record HelmCalls : Type 0 where
  pub get : HelmFetched
  pub create : Result String (Unit {0})
  pub patch : Result String HelmReleaseState
  pub delete : Result String (Unit {0})

-- A module, whether it is rendered as enabled, and the answers for it.
pub record ModuleCalls : Type 0 where
  pub name : String
  pub enabled : Bool
  pub calls : HelmCalls

abbrev pub HelmStates : Type 0
HelmStates = List (String × HelmReleaseState)

abbrev helm_error : String → String → ReconcileError
helm_error message reason = record { message = message; fatal = false; event_reason = reason }

create_helm : ModuleCalls → HelmStates → Result ReconcileError HelmStates
create_helm m states = elim m.calls.create [
  | err e ↦ err (helm_error e "HelmReleaseCreate")
  | ok done ↦ ok (insert m.name (record { ready = "Unknown"; status = "" }) states)
]

patch_helm : ModuleCalls → HelmStates → Result ReconcileError HelmStates
patch_helm m states = elim m.calls.patch [
  | err e ↦ err (helm_error e "HelmReleasePatch")
  | ok state ↦ ok (insert m.name state states)
]

delete_helm : String → ModuleCalls → HelmStates → Result ReconcileError HelmStates
delete_helm helm_name m states = elim m.calls.delete [
  | err e ↦ err (
      helm_error ("error while deleting HelmRelease '" <> (helm_name <> ("': " <> e)))
        "HelmReleaseDelete")
  | ok done ↦ ok (drop m.name states)
]

unfoldable pub handle_helm_release :
    String → ModuleCalls → HelmStates → Result ReconcileError HelmStates
unfolding create_helm patch_helm delete_helm
handle_helm_release helm_name m states = elim m.calls.get [
  | helm_unknown e ↦ err (
      helm_error ("could not get HelmRelease '" <> (helm_name <> ("': " <> e))) "HelmReleaseAccess")
  | helm_missing ↦ if m.enabled then create_helm m states else ok (drop m.name states)
  | helm_found controlled ↦
      if not controlled
      then (if m.enabled
          then err (
              helm_error
                ("HelmRelease '" <> (helm_name <> "' exists and is not controlled by this Release"))
                "HelmReleaseOwner")
          else ok (drop m.name states))
      else if m.enabled
      then patch_helm m states
      else delete_helm helm_name m states
]

abbrev pub build_helm_release_name : String → String → String
build_helm_release_name release_name module_name =
    if module_name == "noname" then release_name else release_name <> ("-" <> module_name)

-- The loop of `reconcile2` over the modules.
unfoldable pub handle_modules :
    String → List ModuleCalls → HelmStates → Result ReconcileError HelmStates
handle_modules release_name [] states = ok states
handle_modules release_name (m ∷ modules) states = do
  states' ← handle_helm_release (build_helm_release_name release_name m.name) m states
  handle_modules release_name modules states'

unfoldable pub count_ready : HelmStates → ℕ
count_ready [] = 0
count_ready ((k, state) ∷ states) =
    let rest = count_ready states in if state.ready == condition_true then suc rest else rest

-- The first two results of `computeReadyHelmReleases`, whose text `itoa` writes.
unfoldable pub compute_ready_helm_releases : (ℕ → String) → HelmStates → String × Bool
compute_ready_helm_releases itoa states =
    let cnt = count_ready states in
    (itoa cnt <> ("/" <> itoa (length states)), cnt == length states)

-- The loop that sets the message: the first state, in the order of iteration, that is not ready.
unfoldable pub helm_message : HelmStates → String
helm_message [] = ""
helm_message ((k, state) ∷ states) =
    let rest = helm_message states in
    let status = if state.status == "" then "Deploying..." else state.status in
    if not (state.ready == condition_true)
    then (if k == "noname"
        then "HelmRelease: " <> status
        else "HelmRelease " <> (k <> (": " <> status)))
    else rest
