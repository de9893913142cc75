-- ===== src/Inputs/Lookup.antt =====
-- Where the connections come from that one round of `BuildInputModel` chooses among.
use mathlib.Core.List.{Memᴰ}
use mathlib.Core.List.Memᴰ.{head}
use kubocd.Common.{ℕ, String, Bool, true, false, Option, none, some, ◌≡◌, refl, ◌⊎◌, inl, inr}
use kubocd.Common.{List, [], ◌∷◌, ◌++◌, ok, >>=-eq-ok, ok-injective, err-ne-ok}
use kubocd.Common.{All, All-append, ◌==◌, string_eq, Bool-cases, if◌then◌else◌, sym}
use mathlib.Core.Path.{subst}
use kubocd.Package.Kinds.{kind_connection, kind_cluster_connection, is_set}
use kubocd.Package.Inputs.{InputRendered}
use kubocd.Inputs.Connection.{
  Connection, Reference, Helper, Fetched, fetched, not_found, fetch_failed,
}
use kubocd.Inputs.Build.{Collector, fetch_connection_ref, bim_handle_connection_ref}
use kubocd.Inputs.Build.{handle_lists, bim_handle_release_ref, bim_handle_contract_connection}
use kubocd.Inputs.Build.{handle_input, asks, listed}
use kubocd.Inputs.Elect.{Handled, bim_filter_connection-Handled}

module _ (helper : Helper) (input : InputRendered) where
  -- A list that the cluster was asked for.
  abbrev pub IsAnswer : List Connection → Type 0
  IsAnswer l =
      (is_set input.release_ref.name ≡ true)
        × ((helper.find_output_connections_from_release
                (record { namespace = input.release_ref.namespace; name = input.release_ref.name })
              ≡ some l)
            ⊎ (helper.find_output_cluster_connections_from_release (record {
              namespace = input.release_ref.namespace;
              name = input.release_ref.name;
            })
                ≡ some l))
      ⊎ (is_set input.contract_lookup_namespace ≡ true)
        × ((helper.find_connections_from_contract input.contract_lookup_namespace input.contract
              ≡ some l)
            ⊎ (helper.find_cluster_connections_from_contract input.contract ≡ some l))

  -- The connection that the input names, or one of such a list.
  pub data IsOffered (c : Connection) : Type 0 where
    named :
        (kind : String)
        → is_set input.connection_ref.name ≡ true
        → helper.get kind (record {
          namespace = input.connection_ref.namespace;
          name = input.connection_ref.name;
        })
          ≡ fetched c
        → IsOffered c
    answered : (l : List Connection) → IsAnswer l → Memᴰ c l → IsOffered c

  offer :
      (l : List Connection)
      → IsAnswer l
      → (tail : List Connection) → ((c : Connection) → Memᴰ c tail → Memᴰ c l)
      → All IsOffered tail
  offer l answer [] within = tt
  offer l answer (c ∷ tail) within = (
    answered l answer (within c (head refl)),
    offer l answer tail (λ d m. within d (Memᴰ.tail m)),
  )

  offer-All : (l : List Connection) → IsAnswer l → All IsOffered l
  offer-All l answer = offer l answer l (λ c m. m)

  -- One of the two lists of an input.
  listed-IsOffered :
      (b : Bool) (idx : ℕ) (kind : String) (answer : Option (List Connection)) (l : List Connection)
      → ((l' : List Connection) → answer ≡ some l' → IsAnswer l')
      → (if b then listed idx kind answer else ok []) ≡ ok l
      → All IsOffered l
  unfolding listed
  listed-IsOffered true idx kind none l right h = absurd (err-ne-ok h)
  listed-IsOffered true idx kind (some l') l right h =
      subst (All IsOffered) (ok-injective h) (offer-All l' (right l' refl))
  listed-IsOffered false idx kind answer l right h = subst (All IsOffered) (ok-injective h) tt

  abbrev Watching : Collector → Collector → Type 0
  Watching rc rc' = (w : List Reference) × (record rc { watched = w } ≡ rc')

  abbrev Found : Collector → List Connection × Collector → Type 0
  Found rc r = All IsOffered r.0 × Watching rc r.1

  fetched-Found :
      (idx : ℕ) (kind : String) (rc : Collector) (r : List Connection × Collector)
      → is_set input.connection_ref.name ≡ true
      → (answer : Fetched)
      → helper.get kind
          (record { namespace = input.connection_ref.namespace; name = input.connection_ref.name })
        ≡ answer
      → fetch_connection_ref helper kind idx input rc ≡ ok r
      → Found rc r
  unfolding fetch_connection_ref
  fetched-Found idx kind rc r given (fetched c) e h =
      elim (Bool-cases (c.contract == input.contract)) [
        | inl same ↦
            subst (Found rc) (ok-injective (rw (e, same, fetch_connection_ref) at h))
              ((named kind given e, tt), (rc.watched, refl))
        | inr other ↦ absurd (err-ne-ok (rw (e, other, fetch_connection_ref) at h))
      ]
  fetched-Found idx kind rc r given not_found e h =
      subst (Found rc) (ok-injective (rw (e, fetch_connection_ref) at h)) (tt, (_, refl))
  fetched-Found idx kind rc r given fetch_failed e h =
      absurd (err-ne-ok (rw (e, fetch_connection_ref) at h))

  fetch-Found :
      (b : Bool) (idx : ℕ) (kind : String) (rc : Collector) (r : List Connection × Collector)
      → is_set input.connection_ref.name ≡ true
      → (if b then fetch_connection_ref helper kind idx input rc else ok ([], rc)) ≡ ok r
      → Found rc r
  fetch-Found false idx kind rc r given h =
      subst (Found rc) (ok-injective h) (tt, (rc.watched, refl))
  fetch-Found true idx kind rc r given h = fetched-Found idx kind rc r given _ refl h

  module _ (idx : ℕ) where
    abbrev pub HandledHere : Collector → Collector → Type 0
    HandledHere rc rc' = Handled helper IsOffered idx input rc rc'

    -- A change of the watched connections alone does not matter.
    rewatched :
        (rc rc₁ rc' : Collector) → Watching rc rc₁ → HandledHere rc₁ rc' → HandledHere rc rc'
    rewatched rc rc₁ rc' (w, e) h =
        let h' = subst (λ x. HandledHere x rc') (sym e) h in
        record { quiet = h'.quiet; settled = h'.settled; kept = h'.kept; origin = h'.origin }

    connection_ref-Handled :
        (rc rc' : Collector)
        → is_set input.connection_ref.name ≡ true
        → bim_handle_connection_ref helper idx input rc ≡ ok rc'
        → HandledHere rc rc'
    unfolding bim_handle_connection_ref
    connection_ref-Handled rc rc' given h =
        let (r₁, h₁, rest₁) =
          >>=-eq-ok
            (if asks input kind_connection
              then fetch_connection_ref helper kind_connection idx input rc
              else ok ([], rc))
            _ h in
        let (r₂, h₂, rest₂) =
          >>=-eq-ok
            (if asks input kind_cluster_connection
              then fetch_connection_ref helper kind_cluster_connection idx input r₁.1
              else ok ([], r₁.1))
            _ rest₁ in
        let (offered₁, watched₁) = fetch-Found _ idx kind_connection rc r₁ given h₁ in
        let (offered₂, watched₂) = fetch-Found _ idx kind_cluster_connection r₁.1 r₂ given h₂ in
        rewatched rc r₁.1 rc' watched₁ (
          rewatched r₁.1 r₂.1 rc' watched₂ (
            bim_filter_connection-Handled helper IsOffered idx input (r₁.0 ++ r₂.0) r₂.1 rc'
              (All-append IsOffered r₁.0 r₂.0 offered₁ offered₂) rest₂))

    handle_lists-Handled :
        (l₁ l₂ : Option (List Connection)) (rc rc' : Collector)
        → ((l : List Connection) → l₁ ≡ some l → IsAnswer l)
        → ((l : List Connection) → l₂ ≡ some l → IsAnswer l)
        → handle_lists helper l₁ l₂ idx input rc ≡ ok rc'
        → HandledHere rc rc'
    unfolding handle_lists
    handle_lists-Handled l₁ l₂ rc rc' right₁ right₂ h =
        let (c₁, h₁, rest₁) =
          >>=-eq-ok (if asks input kind_connection then listed idx kind_connection l₁ else ok []) _
            h in
        let (c₂, h₂, rest₂) =
          >>=-eq-ok
            (if asks input kind_cluster_connection
              then listed idx kind_cluster_connection l₂
              else ok [])
            _ rest₁ in
        bim_filter_connection-Handled helper IsOffered idx input (c₁ ++ c₂) rc rc'
          (All-append IsOffered c₁ c₂ (listed-IsOffered _ idx kind_connection l₁ c₁ right₁ h₁)
            (listed-IsOffered _ idx kind_cluster_connection l₂ c₂ right₂ h₂))
          rest₂

    pub handle_input-Handled :
        (rc rc' : Collector) → handle_input helper idx input rc ≡ ok rc' → HandledHere rc rc'
    unfolding handle_input bim_handle_release_ref bim_handle_contract_connection
    handle_input-Handled rc rc' h = elim (Bool-cases (is_set input.connection_ref.name)) [
      | inl by_name ↦ connection_ref-Handled rc rc' by_name (rw (by_name, handle_input) at h)
      | inr unnamed ↦ elim (Bool-cases (is_set input.release_ref.name)) [
        | inl by_release ↦
            handle_lists-Handled _ _ rc rc' (λ l e. inl (by_release, inl e))
              (λ l e. inl (by_release, inr e)) (rw (unnamed, by_release, handle_input) at h)
        | inr unreleased ↦ elim (Bool-cases (is_set input.contract_lookup_namespace)) [
          | inl by_contract ↦
              handle_lists-Handled _ _ rc rc' (λ l e. inr (by_contract, inl e))
                (λ l e. inr (by_contract, inr e))
                (rw (unnamed, unreleased, by_contract, handle_input) at h)
          | inr nothing ↦ absurd (err-ne-ok (rw (unnamed, unreleased, nothing, handle_input) at h))
        ]
      ]
    ]
