-- ===== src/Package/Inputs/Laws.antt =====
-- What `RenderInputs` promises to the code that resolves the inputs.
use kubocd.Common.{ℕ, suc, String, ◌≡◌, ◌≢◌, ◌⊎◌, List, [], ◌∷◌, Result, ok, arith, All}
use kubocd.Common.{string_eq, >>=-eq-ok, ok-injective}
use mathlib.Core.Path.{subst}
use kubocd.Package.Kinds.{kind_connection, kind_cluster_connection}
use kubocd.Package.Kinds.{connection-ne-cluster_connection, connection-ne-empty}
use kubocd.Package.Kinds.{cluster_connection-ne-empty}
use kubocd.Package.Inputs.{InputRendered, InputError, groom_input, groom_inputs, render_inputs}

-- What the lookup of connections relies on. `BuildInputModel` has a branch for each of the three
-- last cases, and an error for an input that fits none.
pub record IsGroomed (ir : InputRendered) : Type 0 where
  pub has_contract : ir.contract ≢ ""
  pub has_alias : ir.alias ≢ ""
  pub known_kind :
      (ir.kind ≡ "") ⊎ (ir.kind ≡ kind_connection) ⊎ (ir.kind ≡ kind_cluster_connection)
  pub one_name : (ir.connection_ref.name ≡ "") ⊎ (ir.release_ref.name ≡ "")
  pub connection_namespace :
      (ir.connection_ref.name ≡ "")
      ⊎ ((ir.kind ≡ kind_cluster_connection) × (ir.connection_ref.namespace ≡ ""))
      ⊎ ((ir.kind ≢ kind_cluster_connection) × (ir.connection_ref.namespace ≢ ""))
  pub release_namespace : (ir.release_ref.name ≡ "") ⊎ (ir.release_ref.namespace ≢ "")
  pub has_lookup :
      (ir.connection_ref.name ≢ "")
      ⊎ (ir.release_ref.name ≢ "")
      ⊎ (ir.contract_lookup_namespace ≢ "")

groom_input-IsGroomed :
    (idx : ℕ) (ns : String) (ir : InputRendered) {ir' : InputRendered}
    → ns ≢ ""
    → groom_input idx ns ir ≡ ok ir'
    → IsGroomed ir'
unfolding groom_input
groom_input-IsGroomed idx ns ir hn h =
    ground
      (arith, connection-ne-cluster_connection, connection-ne-empty, cluster_connection-ne-empty)

groom_inputs-IsGroomed :
    (idx : ℕ) (ns : String) (irs : List InputRendered) {irs' : List InputRendered}
    → ns ≢ ""
    → groom_inputs idx ns irs ≡ ok irs'
    → All IsGroomed irs'
unfolding groom_inputs
groom_inputs-IsGroomed idx ns [] hn h = ground arith
groom_inputs-IsGroomed idx ns (ir ∷ irs) hn h =
    let (ir', h₁, h') = >>=-eq-ok (groom_input idx ns ir) _ h in
    let (irs', h₂, e) = >>=-eq-ok (groom_inputs (suc idx) ns irs) _ h' in
    subst (All IsGroomed) (ok-injective e)
      (groom_input-IsGroomed idx ns ir hn h₁, groom_inputs-IsGroomed (suc idx) ns irs hn h₂)

-- Each input that `RenderInputs` returns has a contract, an alias, a known kind, at most one of
-- the two names, the namespaces that go with its names, and something to look up: a connection,
-- a release, or a namespace. The default namespace is taken to be non-empty.
pub render_inputs-IsGroomed :
    (rendered : Result InputError (List InputRendered)) (ns : String) {irs : List InputRendered}
    → ns ≢ ""
    → render_inputs rendered ns ≡ ok irs
    → All IsGroomed irs
unfolding render_inputs
render_inputs-IsGroomed rendered ns hn h =
    let (irs, _, h') = >>=-eq-ok rendered _ h in groom_inputs-IsGroomed 0 ns irs hn h'
