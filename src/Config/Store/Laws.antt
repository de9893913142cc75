-- ===== src/Config/Store/Laws.antt =====
-- What a published configuration promises to its readers.
use mathlib.Core.Path.{subst}
use mathlib.Core.List.{append-nil, append_assoc}
use kubocd.Common.{String, ◌≡◌, ◌≢◌, refl, ◌⊎◌, inl, inr, ◌||◌}
use kubocd.Common.{none, List, [], ◌∷◌, ◌++◌, map, Result, ok, err, arith, All, contains}
use kubocd.Common.{>>=-eq-ok, ok-injective, ◌==◌, string_eq, sym, ap, ◌∙◌, not, ◌&&◌, fail_if}
use kubocd.Config.Spec.{NamespacedName, Config, Configuration}
use kubocd.Config.Store.{
  Unmarshal, ConfigError, undefined_default, initial_configuration, add_default, add_strategies,
}
use kubocd.Config.Store.{
  add_config, add_all, with_namespace, finish, new_configuration, publish, add_configs,
}
use kubocd.Config.Store.{is_cluster_role, get_default_on_failure_strategy, get_strategy, is_nil}

-- The roles that the Configs list.
abbrev pub listed_roles : List Config → List String
listed_roles [] = []
listed_roles (c ∷ configs) = c.spec.cluster_roles ++ listed_roles configs

-- Every Config that sets the default strategy sets this one.
abbrev pub AgreeOn : String → List Config → Type 0
AgreeOn default = All (λ (c : Config).
    (c.spec.default_on_failure_strategy ≡ "") ⊎ (c.spec.default_on_failure_strategy ≡ default))

contains-append :
    (xs ys : List String) (a : String) → contains (xs ++ ys) a ≡ (contains xs a || contains ys a)
contains-append [] ys a = refl
contains-append (x ∷ xs) ys a = ground (arith, contains-append xs ys a)

-- What one turn leaves empty or sets, a later turn that keeps it leaves so.
kept_by : {a d d' : String} → (a ≡ "") ⊎ (a ≡ d) → (d ≡ "") ⊎ (d ≡ d') → (a ≡ "") ⊎ (a ≡ d')
kept_by (inl empty) kept = inl empty
kept_by (inr e) (inl empty) = inl (e ∙ empty)
kept_by (inr e) (inr e') = inr (e ∙ e')

module _ (unmarshal : Unmarshal) where
  add_default_grows :
      (old new : String) {d : String}
      → add_default unmarshal old new ≡ ok d
      → ((new ≡ "") ⊎ (new ≡ d)) × ((old ≡ "") ⊎ (old ≡ d))
  unfolding add_default
  add_default_grows old new h = ground arith

  -- One turn of the loop: the fields that the next lemmas are about.
  add_config-fields :
      (c : Config) (cfg : Configuration) {cfg₁ : Configuration}
      → add_config unmarshal c cfg ≡ ok cfg₁
      → (cfg₁.cluster_roles ≡ cfg.cluster_roles ++ c.spec.cluster_roles)
        × (add_default unmarshal cfg.default_on_failure_strategy c.spec.default_on_failure_strategy
            ≡ ok cfg₁.default_on_failure_strategy)
  unfolding add_config
  add_config-fields c cfg h =
      let (strategies, _, h₁) =
        >>=-eq-ok
          (add_strategies unmarshal c.spec.on_failure_strategies cfg.on_failure_strategy_by_name) _
          h in
      let (default, h₂, e) =
        >>=-eq-ok
          (add_default unmarshal cfg.default_on_failure_strategy c.spec.default_on_failure_strategy)
          _ h₁ in
      (
        sym (ap (λ (x : Configuration). x.cluster_roles) (ok-injective e)),
        h₂ ∙ ap (λ (x : Configuration). ok x.default_on_failure_strategy) (ok-injective e),
      )

  add_all-roles :
      (configs : List Config) (cfg : Configuration) {cfg' : Configuration}
      → add_all unmarshal configs cfg ≡ ok cfg'
      → cfg'.cluster_roles ≡ cfg.cluster_roles ++ listed_roles configs
  unfolding add_all
  add_all-roles [] cfg h =
      sym (ap (λ (x : Configuration). x.cluster_roles) (ok-injective h))
      ∙ sym (append-nil cfg.cluster_roles)
  add_all-roles (c ∷ configs) cfg h =
      let (cfg₁, h₁, h') = >>=-eq-ok (add_config unmarshal c cfg) _ h in
      let (roles, _) = add_config-fields c cfg h₁ in
      add_all-roles configs cfg₁ h'
      ∙ ap (λ (r : List String). r ++ listed_roles configs) roles
      ∙ append_assoc cfg.cluster_roles c.spec.cluster_roles (listed_roles configs)

  add_all-default :
      (configs : List Config) (cfg : Configuration) {cfg' : Configuration}
      → add_all unmarshal configs cfg ≡ ok cfg'
      → AgreeOn cfg'.default_on_failure_strategy configs
        × ((cfg.default_on_failure_strategy ≡ "")
            ⊎ (cfg.default_on_failure_strategy ≡ cfg'.default_on_failure_strategy))
  unfolding add_all
  add_all-default [] cfg h =
      (tt, inr (ap (λ (x : Configuration). x.default_on_failure_strategy) (ok-injective h)))
  add_all-default (c ∷ configs) cfg h =
      let (cfg₁, h₁, h') = >>=-eq-ok (add_config unmarshal c cfg) _ h in
      let (_, default) = add_config-fields c cfg h₁ in
      let (new, old) =
        add_default_grows cfg.default_on_failure_strategy c.spec.default_on_failure_strategy
          default in
      let (agree, kept) = add_all-default configs cfg₁ h' in
      ((kept_by new kept, agree), kept_by old kept)

  placed :
      (namespace : String)
      → namespace ≢ ""
      → (c : NamespacedName) → (with_namespace unmarshal namespace c).namespace ≢ ""
  unfolding with_namespace
  placed namespace named c = ground arith

  map-Placed :
      (namespace : String)
      → namespace ≢ ""
      → (cs : List NamespacedName)
      → All (λ (c : NamespacedName). c.namespace ≢ "") (map (with_namespace unmarshal namespace) cs)
  unfolding with_namespace
  map-Placed namespace named [] = tt
  map-Placed namespace named (c ∷ cs) = (placed namespace named c, map-Placed namespace named cs)

  -- Every default context has a namespace, and the default strategy is defined where it is set.
  pub IsUsable : Configuration → Type 0
  IsUsable cfg =
      All (λ (c : NamespacedName). c.namespace ≢ "") cfg.default_contexts
      × ((cfg.default_on_failure_strategy ≡ "") ⊎ (get_default_on_failure_strategy cfg ≢ none))

  guarded :
      (cfg : Configuration) {u : Unit {0}}
      → fail_if
          (not (cfg.default_on_failure_strategy == "")
            && is_nil unmarshal
                (get_strategy cfg.default_on_failure_strategy cfg.on_failure_strategy_by_name))
          (undefined_default cfg.default_on_failure_strategy)
        ≡ ok u
      → (cfg.default_on_failure_strategy ≡ "") ⊎ (get_default_on_failure_strategy cfg ≢ none)
  unfolding get_default_on_failure_strategy is_nil
  guarded cfg h = ground arith

  finish-IsUsable :
      (namespace : String)
      → namespace ≢ ""
      → (cfg : Configuration) {cfg' : Configuration} → finish unmarshal namespace cfg ≡ ok cfg'
      → IsUsable cfg'
        × (cfg'.cluster_roles ≡ cfg.cluster_roles)
        × (cfg'.default_on_failure_strategy ≡ cfg.default_on_failure_strategy)
  unfolding finish IsUsable get_default_on_failure_strategy is_nil
  finish-IsUsable namespace named cfg h =
      let (_, guard, e) =
        >>=-eq-ok
          (fail_if
            (not (cfg.default_on_failure_strategy == "")
              && is_nil unmarshal
                  (get_strategy cfg.default_on_failure_strategy cfg.on_failure_strategy_by_name))
            (undefined_default cfg.default_on_failure_strategy))
          _ h in
      (
        (
          subst (λ (cs : List NamespacedName). All (λ (c : NamespacedName). c.namespace ≢ "") cs)
              (ap (λ (x : Configuration). x.default_contexts) (ok-injective e))
              (map-Placed namespace named cfg.default_contexts),
          subst
              (λ (x : Configuration).
                (x.default_on_failure_strategy ≡ "") ⊎ (get_default_on_failure_strategy x ≢ none))
              (ok-injective e) (guarded cfg guard),
        ),
        sym (ap (λ (x : Configuration). x.cluster_roles) (ok-injective e)),
        sym (ap (λ (x : Configuration). x.default_on_failure_strategy) (ok-injective e)),
      )

  publish-IsUsable :
      (current : Configuration)
      → IsUsable current
      → (r : Result ConfigError Configuration) → ((cfg : Configuration) → r ≡ ok cfg → IsUsable cfg)
      → IsUsable (publish current r).0
  unfolding publish IsUsable get_default_on_failure_strategy
  publish-IsUsable current usable (err e) h = usable
  publish-IsUsable current usable (ok cfg) h = h cfg refl

  module _ (sort_by_name : List Config → List Config) where
    -- A configuration that `new_configuration` returns, for a default namespace that is not empty:
    -- every default context has a namespace; where a default strategy is set, it is defined, and
    -- it is the one that every Config which sets one sets; and a role is a cluster role exactly if
    -- one of the sorted Configs lists it.
    pub new_configuration-IsUsable :
        (configs : List Config) (namespace role : String)
        → namespace ≢ ""
        → {cfg : Configuration}
        → new_configuration unmarshal sort_by_name configs namespace ≡ ok cfg
        → IsUsable cfg
          × AgreeOn cfg.default_on_failure_strategy (sort_by_name configs)
          × (is_cluster_role cfg role ≡ contains (listed_roles (sort_by_name configs)) role)
    unfolding new_configuration is_cluster_role
    new_configuration-IsUsable configs namespace role named {cfg = cfg} h =
        let (cfg₁, h₁, h₂) =
          >>=-eq-ok (add_all unmarshal (sort_by_name configs) initial_configuration) _ h in
        let (usable, roles, default) = finish-IsUsable namespace named cfg₁ h₂ in
        let (agree, _) = add_all-default (sort_by_name configs) initial_configuration h₁ in
        (
          usable,
          subst (λ (d : String). AgreeOn d (sort_by_name configs)) (sym default) agree,
          ap (λ (rs : List String). contains rs role)
              (roles ∙ add_all-roles (sort_by_name configs) initial_configuration h₁),
        )

    -- `add_configs` keeps a usable configuration in the store, for a default namespace that is not
    -- empty: where it fails and where it succeeds, its default contexts have namespaces, and its
    -- default strategy, where it is set, is defined.
    pub add_configs-IsUsable :
        (configs : List Config) (namespace : String)
        → namespace ≢ ""
        → (current : Configuration) → IsUsable current
        → IsUsable (add_configs unmarshal sort_by_name configs namespace current).0
    unfolding add_configs
    add_configs-IsUsable configs namespace named current usable =
        publish-IsUsable current usable (new_configuration unmarshal sort_by_name configs namespace)
          (λ cfg h. (new_configuration-IsUsable configs namespace "" named h).0)
