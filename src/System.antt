-- ===== src/System.antt =====
-- The controllers that cmd/main.go sets up, as the manager runs them: each takes keys from its queue,
-- in an order that nothing here assumes.
pub mod Isolation
use inari_operator.Base.{Option, List, [], ◌∷◌}
use inari_operator.Text.{Str}
use inari_operator.Api.{Key}
use inari_operator.Cluster.Env.{Env}
use inari_operator.Cluster.Exec.{Exec, World}
use inari_operator.Common.{ReconcileResult}
use inari_operator.Keycloak.Token.{Client}
use inari_operator.Reconcile.Realm
use inari_operator.Reconcile.OidcClient
use inari_operator.Reconcile.Zone
use inari_operator.Reconcile.Record
use inari_operator.Reconcile.Issuer
use inari_operator.Reconcile.Project
use inari_operator.Reconcile.TenantSpace
use inari_operator.Reconcile.Baseline

-- The reconcilers, in the order of their setup.
pub data Controller : Type 0 where
  keycloak_realm_controller keycloak_client_controller dns_zone_controller dns_record_controller
        cert_issuer_controller argo_project_controller tenant_namespace_controller
        cluster_dex_controller :
      Controller

-- What `main` gives to the reconcilers.
pub record Settings : Type 0 where
  pub keycloak : Option Client
  pub argocd_namespace : Str

module _ (env : Env) (settings : Settings) where
  -- `Reconcile` of each controller.
  unfoldable pub run : Controller → Key → Exec ReconcileResult
  run keycloak_realm_controller key = Realm.reconcile env settings.keycloak key
  run keycloak_client_controller key = OidcClient.reconcile env settings.keycloak key
  run dns_zone_controller key = Zone.reconcile env key
  run dns_record_controller key = Record.reconcile env key
  run cert_issuer_controller key = Issuer.reconcile env key
  run argo_project_controller key = Project.reconcile env settings.argocd_namespace key
  run tenant_namespace_controller key = TenantSpace.reconcile env key
  run cluster_dex_controller key = Baseline.reconcile env key

  -- The world after a sequence of reconciles; an error of one does not keep the next from running.
  unfoldable pub run_all : List (Controller × Key) → World → World
  run_all [] w = w
  run_all ((controller, key) ∷ rest) w = run_all rest (run controller key w).1
