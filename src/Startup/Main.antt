-- ===== src/Startup/Main.antt =====
-- What the process does as a whole.
use inari_operator.Cluster.Errors.{Result-cases, ok, err, Done}
use inari_operator.Startup.{
  manager_options, CommandLine, Options, options_of, exit_unless, keycloak_for, create_manager,
  set_up_keycloak, set_up_controllers, add_checks, prepare, start_manager, main,
}
use inari_operator.Base.{
  ◌≡◌, Option-cases, ap, ◌∙◌, refl, ◌⊎◌, inl, inr, Option, none, some, [], ◌∷◌, true, false,
  Bool-cases, arith,
}
use inari_operator.Text.{Str, is_empty}
use inari_operator.Keycloak.Token.{Client}
use inari_operator.Process.{Runtime, config_loaded, must, proceed, call, ◌>>=◌}
use inari_operator.Process.Laws.{starts, Waits, Waits-bind, Waits-must, waits_rules}
use inari_operator.Startup.Laws.{
  IsConfigured, settings_for, startup_events, kinds_for, set_up_kinds, prepare-eq-some,
}
use inari_operator.Reconcile.Realm
use inari_operator.Reconcile.OidcClient
use inari_operator.Reconcile.Zone
use inari_operator.Reconcile.Record
use inari_operator.Reconcile.Issuer
use inari_operator.Reconcile.Project
use inari_operator.Reconcile.TenantSpace
use inari_operator.Reconcile.Baseline

set_up_kinds-startup_events :
    (options : Options) → set_up_kinds (startup_events options) ≡ kinds_for options
set_up_kinds-startup_events options = elim (Bool-cases (is_empty options.keycloak_url)) [
  | inl absent ↦ rw absent
  | inr given ↦ rw given
]

Waits-keycloak_for : (options : Options) → Waits (keycloak_for options)
unfolding keycloak_for ◌>>=◌
Waits-keycloak_for options = record { same = λ t. ground arith }

module _ (rt : Runtime) where
  Waits-set_up_keycloak : (o : Option Client) → Waits (set_up_keycloak rt o)
  unfolding set_up_keycloak Realm.set_up_with_manager OidcClient.set_up_with_manager
  Waits-set_up_keycloak none = search waits_rules
  Waits-set_up_keycloak (some c) = search waits_rules

  Waits-set_up_controllers : Waits (set_up_controllers rt)
  unfolding set_up_controllers Zone.set_up_with_manager Record.set_up_with_manager
      Issuer.set_up_with_manager Project.set_up_with_manager TenantSpace.set_up_with_manager
      Baseline.set_up_with_manager
  Waits-set_up_controllers = search waits_rules depth 12

  Waits-add_checks : Waits (add_checks rt)
  unfolding add_checks
  Waits-add_checks =
      Waits-bind _ _ (Waits-must _ _ _ (record { same = λ t. refl }))
        (λ _. Waits-must _ _ _ (record { same = λ t. refl }))

  Waits-exit_unless : (r : Done) → Waits (exit_unless r)
  unfolding exit_unless
  Waits-exit_unless (ok u) = search waits_rules
  Waits-exit_unless (err e) = search waits_rules

  Waits-create_manager : (options : Options) → Waits (create_manager rt options)
  Waits-create_manager options = Waits-must _ _ _ (record { same = λ t. refl })

  Waits-prepare : (options : Options) → Waits (prepare rt options)
  unfolding prepare
  Waits-prepare options =
      Waits-bind (call config_loaded rt.get_config) _ (record { same = λ t. refl })
        (λ loaded.
          search
            (
              waits_rules, Waits-exit_unless, Waits-create_manager, Waits-keycloak_for,
              Waits-set_up_keycloak, Waits-set_up_controllers, Waits-add_checks,
            )
            depth 12)

  module _ (getenv : Str → Str) (line : CommandLine) where
    abbrev options : Options
    options = options_of getenv line

    -- Either the process exits without having started the manager, or the Keycloak secret is given
    -- where the URL is, the events before the log "starting manager" are those of `startup_events`,
    -- every call among them answered without an error, and the controllers set up are those of the
    -- six platform kinds and, exactly where a URL is given, of the two Keycloak kinds.
    pub main_cases :
        ((main rt getenv line []).0 ≡ none) × (starts (main rt getenv line []).1 ≡ [])
        ⊎ (IsConfigured options
            × (set_up_kinds (startup_events options) ≡ kinds_for options)
            × (main rt getenv line []
                ≡ start_manager rt (settings_for options) (startup_events options)))
    unfolding main ◌>>=◌
    main_cases = elim (Option-cases (prepare rt options []).0) [
      | inl gone ↦ inl (rw gone refl, rw gone ((Waits-prepare options).same []))
      | inr (settings, there) ↦
          let (configured, settings_is, events_are) =
            prepare-eq-some rt options (λ i. (there i, (prepare rt options []).1)) in
          inr (
            configured,
            set_up_kinds-startup_events options,
            λ i. proceed ((there ∙ ap some settings_is) i) (start_manager rt) (events_are i),
          )
    ]

    -- With a URL and no secret, nothing is set up and the process exits, whatever is answered.
    pub main_refused :
        is_empty options.keycloak_url ≡ false
        → is_empty options.keycloak_client_secret ≡ true
        → ((main rt getenv line []).0 ≡ none) × (set_up_kinds (main rt getenv line []).1 ≡ [])
    unfolding main prepare exit_unless keycloak_for must ◌>>=◌
    main_refused given missing = elim (Result-cases (rt.get_config [])) [
      | inr (e, down) ↦ rw down (refl, refl)
      | inl (u, loaded) ↦
          elim (Result-cases
            (rt.new_manager (config_loaded (ok u) ∷ []) (manager_options options))) [
              | inr (e, down) ↦ rw (loaded, down) (refl, refl)
              | inl (u', created) ↦ rw (loaded, created, given, missing) (refl, refl)
            ]
    ]
