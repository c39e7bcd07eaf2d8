-- ===== src/Startup/Liveness.antt =====
-- The process reaches the start of the manager where nothing that it calls fails.
use inari_operator.Base.{
  ◌≡◌, ap, ◌∙◌, refl, Option, none, some, List, [], ◌∷◌, Bool-cases, inl, inr,
}
use inari_operator.Text.{Str, bytes, is_empty}
use inari_operator.Cluster.Errors.{ok, Done}
use inari_operator.Cluster.Env.{
  Kind, keycloak_realms, keycloak_clients, dns_zones, dns_records, cert_issuers, argo_projects,
  tenant_namespaces, cluster_dexes,
}
use inari_operator.Keycloak.Token.{Client}
use inari_operator.Process.{
  Process, Runtime, ManagerOptions, Event, logged_info, manager_started, config_loaded,
  manager_created, completed, must, set_up_for, health_check_added, ready_check_added, call,
  proceed, ◌>>=◌,
}
use inari_operator.Startup.{
  CommandLine, Options, options_of, exit_unless, keycloak_for, set_up, manager_options,
  set_up_keycloak, set_up_controllers, add_checks, prepare, start_manager, main,
}
use inari_operator.Startup.Laws.{
  IsConfigured, settings_for, startup_events, up, after_keycloak, after_choice,
}
use inari_operator.Reconcile.Realm
use inari_operator.Reconcile.OidcClient
use inari_operator.Reconcile.Zone
use inari_operator.Reconcile.Record
use inari_operator.Reconcile.Issuer
use inari_operator.Reconcile.Project
use inari_operator.Reconcile.TenantSpace
use inari_operator.Reconcile.Baseline

module _ {ℓ κ} {A : Type ℓ} {B : Type κ} where
  bind_goes_on :
      (m : Process A) (f : A → Process B) {t u : List Event} {a : A} {r : Option B × List Event}
      → m t ≡ (some a, u)
      → f a u ≡ r
      → (m >>= f) t ≡ r
  unfolding ◌>>=◌
  bind_goes_on m f e rest = ap (λ p. proceed p.0 f p.1) e ∙ rest

-- No call of the runtime fails.
pub record Answers (rt : Runtime) : Type 0 where
  pub config : (t : List Event) → rt.get_config t ≡ ok tt
  pub manager : (t : List Event) (options : ManagerOptions) → rt.new_manager t options ≡ ok tt
  pub completes : (t : List Event) (kind : Kind) → rt.complete t kind ≡ ok tt
  pub healthz : (t : List Event) (name : Str) → rt.add_healthz_check t name ≡ ok tt
  pub readyz : (t : List Event) (name : Str) → rt.add_readyz_check t name ≡ ok tt
  pub starts : (t : List Event) → rt.start t ≡ ok tt

module _ (rt : Runtime) (answers : Answers rt) where
  must_goes_on :
      (message : Str) (name : Option Str) (c : Done → Event) (f : List Event → Done)
      (t : List Event)
      → f t ≡ ok tt
      → must message name (call c f) t ≡ (some tt, c (ok tt) ∷ t)
  unfolding must ◌>>=◌
  must_goes_on message name c f t fine = rw fine

  set_up_goes_on :
      (name : Str) (kind : Kind) (t : List Event)
      → set_up rt name (set_up_for rt kind) t ≡ (some tt, up kind ∷ t)
  unfolding set_up_for
  set_up_goes_on name kind t =
      must_goes_on (bytes "unable to create controller") (some name) (completed kind)
        (λ t. rt.complete t kind) t (answers.completes t kind)

  set_up_keycloak_goes_on :
      (o : Option Client) (t : List Event) → set_up_keycloak rt o t ≡ (some tt, after_keycloak o t)
  unfolding set_up_keycloak Realm.set_up_with_manager OidcClient.set_up_with_manager
  set_up_keycloak_goes_on none t = refl
  set_up_keycloak_goes_on (some c) t =
      bind_goes_on _ _ (set_up_goes_on _ keycloak_realms t) (set_up_goes_on _ keycloak_clients _)

  set_up_controllers_goes_on :
      (t : List Event)
      → set_up_controllers rt t ≡ (
        some tt,
        up cluster_dexes
            ∷ up tenant_namespaces
            ∷ up argo_projects
            ∷ up cert_issuers
            ∷ up dns_records
            ∷ up dns_zones
            ∷ t,
      )
  unfolding set_up_controllers Zone.set_up_with_manager Record.set_up_with_manager
      Issuer.set_up_with_manager Project.set_up_with_manager TenantSpace.set_up_with_manager
      Baseline.set_up_with_manager
  set_up_controllers_goes_on t = bind_goes_on _ _ (set_up_goes_on _ dns_zones t) (
      bind_goes_on _ _ (set_up_goes_on _ dns_records _) (
        bind_goes_on _ _ (set_up_goes_on _ cert_issuers _) (
          bind_goes_on _ _ (set_up_goes_on _ argo_projects _) (
            bind_goes_on _ _ (set_up_goes_on _ tenant_namespaces _)
              (set_up_goes_on _ cluster_dexes _)))))

  add_checks_goes_on :
      (t : List Event)
      → add_checks rt t ≡ (
        some tt,
        ready_check_added (bytes "readyz") (ok tt)
            ∷ health_check_added (bytes "healthz") (ok tt)
            ∷ t,
      )
  unfolding add_checks
  add_checks_goes_on t =
      bind_goes_on _ _
        (must_goes_on _ none (health_check_added (bytes "healthz"))
          (λ t. rt.add_healthz_check t (bytes "healthz")) t (answers.healthz t _))
        (must_goes_on _ none (ready_check_added (bytes "readyz"))
          (λ t. rt.add_readyz_check t (bytes "readyz")) _ (answers.readyz _ _))

  keycloak_for_goes_on :
      (options : Options) (t : List Event)
      → IsConfigured options
      → keycloak_for options t ≡ (some (settings_for options).keycloak, after_choice options t)
  unfolding keycloak_for ◌>>=◌
  keycloak_for_goes_on options t configured = elim (Bool-cases (is_empty options.keycloak_url)) [
    | inl absent ↦ rw absent
    | inr given ↦ rw (given, configured given)
  ]

  prepare_goes_on :
      (options : Options)
      → IsConfigured options
      → prepare rt options [] ≡ (some (settings_for options), startup_events options)
  unfolding prepare exit_unless
  prepare_goes_on options configured =
      bind_goes_on (call config_loaded rt.get_config) _ {a = ok tt}
        (ap (λ r. (some r, config_loaded r ∷ [])) (answers.config []))
        (bind_goes_on (exit_unless (ok tt)) _ refl (
          bind_goes_on _ _
            (must_goes_on _ none (manager_created (manager_options options))
              (λ t. rt.new_manager t (manager_options options)) _ (answers.manager _ _))
            (bind_goes_on _ _ (keycloak_for_goes_on options _ configured) (
              bind_goes_on _ _ (set_up_keycloak_goes_on _ _) (
                bind_goes_on _ _ (set_up_controllers_goes_on _)
                  (bind_goes_on _ _ (add_checks_goes_on _) refl))))))

  -- Where no call of controller-runtime fails, and the Keycloak secret is given where the URL is, the
  -- process starts the manager, after all that `startup_events` lists, and does not exit with an
  -- error.
  pub main_starts :
      (getenv : Str → Str) (line : CommandLine)
      → IsConfigured (options_of getenv line)
      → main rt getenv line [] ≡ (
        some tt,
        manager_started (ok tt)
            ∷ logged_info (bytes "starting manager")
            ∷ startup_events (options_of getenv line),
      )
  unfolding main start_manager
  main_starts getenv line configured =
      bind_goes_on _ _ (prepare_goes_on (options_of getenv line) configured)
        (bind_goes_on _ _ refl (must_goes_on _ none manager_started rt.start _ (answers.starts _)))
