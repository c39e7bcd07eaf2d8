-- ===== src/System/Isolation.antt =====
-- Every child that the operator writes, over any sequence of reconciles, is labelled with the tenant
-- of a custom resource.
use inari_operator.Base.{◌≡◌, List, [], ◌∷◌, All}
use inari_operator.Text.{Str}
use inari_operator.Api.{Key}
use inari_operator.Api.Items.{
  KeycloakClient, DnsRecord, CertIssuer, ArgoProject, TenantNamespace, ClusterDex,
}
use inari_operator.Cluster.Errors.{ok}
use inari_operator.Cluster.Children.Labelled.{AppliesMutate}
use inari_operator.Cluster.Env.{Env, Trace}
use inari_operator.Cluster.Exec.{World, Exec}
use inari_operator.Cluster.Exec.Emits.{Emits}
use inari_operator.Cluster.Calls.Writes.{OnlyWrites}
use inari_operator.Reconcile.Status.Labels.{LabelsTenant, LabelsTenant-OnlyWrites}
use inari_operator.Reconcile.Record
use inari_operator.Reconcile.Issuer
use inari_operator.Reconcile.Project
use inari_operator.Reconcile.TenantSpace
use inari_operator.Reconcile.Baseline
use inari_operator.Reconcile.OidcClient
use inari_operator.Reconcile.Realm.Labels.{Emits-realm_reconcile}
use inari_operator.Reconcile.Zone.Labels.{Emits-zone_reconcile}
use inari_operator.System.{
  keycloak_realm_controller, keycloak_client_controller, dns_zone_controller, dns_record_controller,
  cert_issuer_controller, argo_project_controller, tenant_namespace_controller,
  cluster_dex_controller, Controller, Settings, run, run_all,
}

-- Each object that Get returns, of a kind with children, is of one of these tenants.
pub record OfTenants (env : Env) (tenants : Str → Type 0) : Type 0 where
  pub keycloak_clients :
      (t : Trace) (key : Key) (kc : KeycloakClient)
      → env.get_keycloak_client t key ≡ ok kc
      → tenants kc.spec.tenant.tenant_id
  pub dns_records :
      (t : Trace) (key : Key) (rec : DnsRecord)
      → env.get_dns_record t key ≡ ok rec
      → tenants rec.spec.tenant.tenant_id
  pub cert_issuers :
      (t : Trace) (key : Key) (ci : CertIssuer)
      → env.get_cert_issuer t key ≡ ok ci
      → tenants ci.spec.tenant.tenant_id
  pub argo_projects :
      (t : Trace) (key : Key) (ap : ArgoProject)
      → env.get_argo_project t key ≡ ok ap
      → tenants ap.spec.tenant.tenant_id
  pub tenant_namespaces :
      (t : Trace) (key : Key) (tn : TenantNamespace)
      → env.get_tenant_namespace t key ≡ ok tn
      → tenants tn.spec.tenant.tenant_id
  pub cluster_dexes :
      (t : Trace) (key : Key) (cr : ClusterDex)
      → env.get_cluster_dex t key ≡ ok cr
      → tenants cr.spec.tenant.tenant_id

module _ (env : Env) (lawful : AppliesMutate env) (tenants : Str → Type 0)
    (of_tenants : OfTenants env tenants) (settings : Settings) where
  abbrev Good {ℓ} : {A : Type ℓ} → Exec A → Type ℓ
  Good m = Emits (LabelsTenant tenants) m

  abbrev only : OnlyWrites (LabelsTenant tenants)
  only = LabelsTenant-OnlyWrites tenants

  -- `Reconcile` of every controller.
  LabelsTenant-run : (controller : Controller) (key : Key) → Good (run env settings controller key)
  unfolding run
  LabelsTenant-run keycloak_realm_controller key =
      Emits-realm_reconcile env only settings.keycloak key
  LabelsTenant-run keycloak_client_controller key =
      OidcClient.Writes.LabelsTenant-reconcile env lawful settings.keycloak tenants
        of_tenants.keycloak_clients key
  LabelsTenant-run dns_zone_controller key = Emits-zone_reconcile env only key
  LabelsTenant-run dns_record_controller key =
      Record.Labels.LabelsTenant-reconcile env lawful tenants of_tenants.dns_records key
  LabelsTenant-run cert_issuer_controller key =
      Issuer.Labels.LabelsTenant-reconcile env lawful tenants of_tenants.cert_issuers key
  LabelsTenant-run argo_project_controller key =
      Project.Labels.LabelsTenant-reconcile env lawful settings.argocd_namespace tenants
        of_tenants.argo_projects key
  LabelsTenant-run tenant_namespace_controller key =
      TenantSpace.Labels.LabelsTenant-reconcile env lawful tenants of_tenants.tenant_namespaces key
  LabelsTenant-run cluster_dex_controller key =
      Baseline.Labels.LabelsTenant-reconcile env lawful tenants of_tenants.cluster_dexes key

  -- Where `CreateOrUpdate` leaves what the mutate function made, and each object that Get returns is
  -- of a tenant in a set: over any sequence of reconciles, whatever their errors, each child that is
  -- written has the label `platform.inari.io/tenant` with a tenant of that set, if each written
  -- before has.
  pub run_all_labelled :
      (schedule : List (Controller × Key)) (w : World)
      → All (LabelsTenant tenants) w.trace
      → All (LabelsTenant tenants) (run_all env settings schedule w).trace
  unfolding run_all
  run_all_labelled [] w h = h
  run_all_labelled ((controller, key) ∷ rest) w h =
      run_all_labelled rest (run env settings controller key w).1
        ((LabelsTenant-run controller key).all w h)
