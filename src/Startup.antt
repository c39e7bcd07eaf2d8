-- ===== src/Startup.antt =====
-- cmd/main.go: the options, the Keycloak client, the controllers and the checks, and the start of the
-- manager. A nil `kcClient` is `none`.
pub mod Laws
pub mod Main
pub mod Liveness
use inari_operator.Base.{Bool, true, false, Option, none, some, if◌then◌else◌}
use inari_operator.Text.{Str, bytes, is_empty}
use inari_operator.Cluster.Errors.{ok, err, Done, failure}
use inari_operator.Keycloak.Token.{Client, new_client}
use inari_operator.Process.{
  Process, Runtime, ManagerOptions, logged_info, logged_error, config_loaded, manager_created,
  health_check_added, ready_check_added, manager_started, exit, return, note, call, must, ◌>>=◌,
  ◌>>◌,
}
use inari_operator.System.{Settings}
use inari_operator.Reconcile.Realm
use inari_operator.Reconcile.OidcClient
use inari_operator.Reconcile.Zone
use inari_operator.Reconcile.Record
use inari_operator.Reconcile.Issuer
use inari_operator.Reconcile.Project
use inari_operator.Reconcile.TenantSpace
use inari_operator.Reconcile.Baseline

-- The flags that the command line gives, as `flag.Parse` reads them.
pub record CommandLine : Type 0 where
  pub metrics_bind_address : Option Str
  pub health_probe_bind_address : Option Str
  pub leader_elect : Option Bool
  pub keycloak_url : Option Str
  pub keycloak_token_realm : Option Str
  pub keycloak_client_id : Option Str
  pub keycloak_client_secret : Option Str
  pub argocd_namespace : Option Str

-- The variables that the flags are bound to.
pub record Options : Type 0 where
  pub metrics_addr : Str
  pub probe_addr : Str
  pub leader_elect : Bool
  pub keycloak_url : Str
  pub keycloak_token_realm : Str
  pub keycloak_client_id : Str
  pub keycloak_client_secret : Str
  pub argocd_namespace : Str

-- `envOr`, for an environment where an unset variable reads as the empty text.
unfoldable pub env_or : (Str → Str) → Str → Str → Str
env_or getenv key fallback = let v = getenv key in if is_empty v then fallback else v

-- `flag.StringVar` and `flag.BoolVar`: the value that is given, else the default.
abbrev pub flag_or {ℓ} : {A : Type ℓ} → Option A → A → A
flag_or (some v) default = v
flag_or none default = default

unfoldable pub options_of : (Str → Str) → CommandLine → Options
options_of getenv line = record {
  metrics_addr = flag_or line.metrics_bind_address (bytes ":8080");
  probe_addr = flag_or line.health_probe_bind_address (bytes ":8081");
  leader_elect = flag_or line.leader_elect false;
  keycloak_url = flag_or line.keycloak_url (env_or getenv (bytes "KEYCLOAK_URL") (bytes ""));
  keycloak_token_realm =
      flag_or line.keycloak_token_realm
        (env_or getenv (bytes "KEYCLOAK_TOKEN_REALM") (bytes "master"));
  keycloak_client_id =
      flag_or line.keycloak_client_id
        (env_or getenv (bytes "KEYCLOAK_CLIENT_ID") (bytes "inari-operator"));
  keycloak_client_secret =
      flag_or line.keycloak_client_secret
        (env_or getenv (bytes "KEYCLOAK_CLIENT_SECRET") (bytes ""));
  argocd_namespace =
      flag_or line.argocd_namespace (env_or getenv (bytes "ARGOCD_NAMESPACE") (bytes "argocd"));
}

abbrev pub manager_options : Options → ManagerOptions
manager_options options = record {
  metrics_bind_address = options.metrics_addr;
  health_probe_bind_address = options.probe_addr;
  leader_election = options.leader_elect;
  leader_election_id = bytes "inari-operator.platform.inari.io";
}

exit_unless : Done → Process (Unit {0})
exit_unless (ok u) = return tt
exit_unless (err e) = exit

-- The Keycloak client: none without a URL, and no start with a URL but no secret.
unfoldable pub keycloak_for : Options → Process (Option Client)
keycloak_for options =
    if is_empty options.keycloak_url
    then (do
      note (
          logged_info
            (bytes "keycloak-url not set; KeycloakRealm/KeycloakClient reconcilers disabled"))
      return none)
    else if is_empty options.keycloak_client_secret
    then (do
      note (
          logged_error (failure (bytes "missing keycloak client secret"))
            (bytes
              "KEYCLOAK_CLIENT_SECRET or --keycloak-client-secret is required when --keycloak-url is set")
            none)
      exit)
    else return (
        some (
          new_client options.keycloak_url options.keycloak_token_realm options.keycloak_client_id
            options.keycloak_client_secret))

module _ (rt : Runtime) where
  abbrev pub create_manager : Options → Process (Unit {0})
  create_manager options = must (bytes "unable to start manager") none (
      call (manager_created (manager_options options))
        (λ t. rt.new_manager t (manager_options options)))

  -- `SetupWithManager`, whose failure ends the process.
  abbrev pub set_up : Str → Process Done → Process (Unit {0})
  set_up name = must (bytes "unable to create controller") (some name)

  unfoldable pub set_up_keycloak : Option Client → Process (Unit {0})
  set_up_keycloak none = return tt
  set_up_keycloak (some c) = do
    set_up (bytes "KeycloakRealm") (Realm.set_up_with_manager rt)
    set_up (bytes "KeycloakClient") (OidcClient.set_up_with_manager rt)

  unfoldable pub set_up_controllers : Process (Unit {0})
  set_up_controllers = do
    set_up (bytes "DNSZone") (Zone.set_up_with_manager rt)
    set_up (bytes "DNSRecord") (Record.set_up_with_manager rt)
    set_up (bytes "CertIssuer") (Issuer.set_up_with_manager rt)
    set_up (bytes "ArgoProject") (Project.set_up_with_manager rt)
    set_up (bytes "TenantNamespace") (TenantSpace.set_up_with_manager rt)
    set_up (bytes "ClusterDex") (Baseline.set_up_with_manager rt)

  unfoldable pub add_checks : Process (Unit {0})
  add_checks = do
    must (bytes "unable to set up health check") none (
        call (health_check_added (bytes "healthz")) (λ t. rt.add_healthz_check t (bytes "healthz")))
    must (bytes "unable to set up ready check") none
        (call (ready_check_added (bytes "readyz")) (λ t. rt.add_readyz_check t (bytes "readyz")))

  -- `main` up to the start of the manager: what the reconcilers are given.
  unfoldable pub prepare : Options → Process Settings
  unfolding exit_unless
  prepare options = do
    loaded ← call config_loaded rt.get_config
    exit_unless loaded
    create_manager options
    keycloak ← keycloak_for options
    set_up_keycloak keycloak
    set_up_controllers
    add_checks
    return (record { keycloak = keycloak; argocd_namespace = options.argocd_namespace })

  pub start_manager : Settings → Process (Unit {0})
  start_manager settings = do
    note (logged_info (bytes "starting manager"))
    must (bytes "problem running manager") none (call manager_started rt.start)

  -- `main`.
  unfoldable pub main : (Str → Str) → CommandLine → Process (Unit {0})
  unfolding start_manager
  main getenv line = do settings ← prepare (options_of getenv line); start_manager settings
