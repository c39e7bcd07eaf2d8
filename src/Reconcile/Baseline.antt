-- ===== src/Reconcile/Baseline.antt =====
-- internal/controller/clusterdex_controller.go
pub mod Secrecy
pub mod Writes
pub mod Labels
pub mod Settled
use inari_operator.Process.{Runtime, Process, set_up_for}
use inari_operator.Cluster.Errors.{
  Done, Error, Result, ok, err, error_text, is_not_found, ignore_not_found,
}
use inari_operator.Base.{
  ℕ, Bool, true, false, ◌&&◌, Option, none, some, List, [], ◌∷◌, ◌++◌, ◌==◌, if◌then◌else◌,
}
use inari_operator.Text.{Str, bytes, str_eq}
use inari_operator.Text.Format.{quote}
use inari_operator.Api.{Key, Condition, key_of}
use inari_operator.Api.Conditions.{set_ready, set_failed, reason_ready, status_conditions_ready}
use inari_operator.Api.Items.{
  ClusterDex, ClusterDexSpec, ClusterDexStatus, ClusterDexDex, ClusterDexArgoCd, SecretReference,
  SecretKeyReference, is_enabled, dex_client_id, cluster_dex,
}
use inari_operator.Cluster.Children.{
  Child, ChildKind, application, config_map, get_label, named, with_label,
}
use inari_operator.Cluster.Env.{Env, Actor, SecretData, secrets, cluster_dexes, normal}
use inari_operator.Cluster.Exec.{Exec, pure, raise, lift, attempt, wrapping, ◌>>=◌, ◌>>◌}
use inari_operator.Cluster.Calls.{fetch, event, create_or_update}
use inari_operator.Common.{
  ReconcileResult, stop, stop_unless, requeue_in, impersonating_client, tenant_label,
}
use inari_operator.Dex.Settings.{
  argocd_namespace, argocd_config_map_name, argocd_rbac_config_map_name, secret_ref_namespace,
  dex_application_name, dex_issuer_url,
}
use inari_operator.Dex.Render.{render_dex_application, render_argocd_config_maps}
use inari_operator.Reconcile.Lifecycle.{Handler}
use inari_operator.Reconcile.Lifecycle
use inari_operator.Reconcile.Status.{try_status, save_status, delete_if_present}

abbrev with_conditions : ClusterDex → List Condition → ClusterDex
with_conditions cr cs = record cr { status = record cr.status { conditions = cs } }

-- `secret.Data[k]`, of which only the presence is read.
unfoldable pub missing_key : SecretData → List Str → Option Str
missing_key data_of [] = none
missing_key data_of (k ∷ ks) = elim (get_label k data_of.entries) [
  | none ↦ some k
  | some _ ↦ missing_key data_of ks
]

-- The mutate function of `applyChild`.
unfoldable pub desired_child : ClusterDex → Child → Child → Result Child
desired_child cr desired child =
    ok (record (with_label tenant_label cr.spec.tenant.tenant_id child) {
      content = desired.content;
    })

-- The kind that an object reports of itself: a typed one reports none.
abbrev kind_text : ChildKind → Str
kind_text application = bytes "Application"
kind_text _ = []

module _ (env : Env) where
  pub failed : ClusterDex → Str → ClusterDex
  failed cr message =
      with_conditions cr (set_failed env.meta cr.status.conditions cr.metadata.generation message)

  -- `waiting`.
  unfoldable pub waiting : ClusterDex → Str → Exec ReconcileResult
  unfolding failed
  waiting cr message = try_status env (cluster_dex (failed cr message)) >> pure (requeue_in 30)

  -- `SetFailed`, the status write and `return ctrl.Result{}, err`.
  give_up : ClusterDex → Error → Exec ReconcileResult
  unfolding failed
  give_up cr e = try_status env (cluster_dex (failed cr (error_text e))) >> raise e

  -- `applyChild`.
  unfoldable pub apply_child : Actor → ClusterDex → Child → Exec Child
  apply_child actor cr desired =
      wrapping
        (bytes "write "
          ++ kind_text desired.kind
          ++ bytes " "
          ++ quote desired.key.name
          ++ bytes " in namespace "
          ++ quote desired.key.namespace
          ++ bytes ": ")
        (create_or_update env actor desired (desired_child cr desired))

  apply_all : Actor → ClusterDex → List Child → Exec (Unit {0})
  apply_all actor cr [] = pure tt
  apply_all actor cr (child ∷ rest) = do apply_child actor cr child; apply_all actor cr rest

  abbrev application_key : ClusterDex → Key
  application_key cr = record {
    namespace = argocd_namespace cr;
    name = dex_application_name env.sum256 cr;
  }

  abbrev config_key : ClusterDex → Str → Key
  config_key cr name = record { namespace = argocd_namespace cr; name = name }

  -- `deleteChildren`.
  unfoldable pub delete_children : ClusterDex → Exec (Unit {0})
  delete_children cr = do
    actor ← impersonating_client env cr.spec.tenant
    delete_if_present env actor application (application_key cr)
    delete_if_present env actor config_map (config_key cr argocd_config_map_name)
    delete_if_present env actor config_map (config_key cr argocd_rbac_config_map_name)

  unchanged : ClusterDex → Str → Bool
  unchanged cr app_name =
      cr.status.dex_application == app_name
      && cr.status.dex_issuer_url == dex_issuer_url env.sum256 cr
      && cr.status.client_id == dex_client_id cr.spec
      && status_conditions_ready env.meta cr.status.conditions cr.metadata.generation

  pub settled : ClusterDex → Str → Str → ClusterDex
  settled cr app_name message = record cr {
    status = record {
      conditions =
          set_ready env.meta cr.status.conditions cr.metadata.generation reason_ready message;
      observed_generation = cr.metadata.generation;
      client_id = dex_client_id cr.spec;
      dex_issuer_url = dex_issuer_url env.sum256 cr;
      dex_application = app_name;
    };
  }

  -- `ready`.
  unfoldable pub report_ready : ClusterDex → Str → Str → Exec ReconcileResult
  unfolding unchanged settled
  report_ready cr app_name message =
      if unchanged cr app_name
      then stop
      else save_status env (cluster_dex (settled cr app_name message)) stop

  -- `checkSecret`, with what follows where the Secret passes.
  missing :
      ClusterDex → SecretReference → Str → Exec ReconcileResult → Option Str → Exec ReconcileResult
  missing cr ref ns next none = next
  missing cr ref ns next (some k) = waiting cr (
      bytes "secret "
      ++ quote ref.name
      ++ bytes " in namespace "
      ++ quote ns
      ++ bytes " is missing key "
      ++ quote k)

  after_secret :
      ClusterDex
      → SecretReference
      → Str
      → List Str
      → Str
      → Exec ReconcileResult
      → Result SecretData
      → Exec ReconcileResult
  unfolding missing
  after_secret cr ref ns keys hint next (ok found) = missing cr ref ns next (missing_key found keys)
  after_secret cr ref ns keys hint next (err e) =
      if is_not_found e
      then waiting cr (
          bytes "waiting for secret "
          ++ quote ref.name
          ++ bytes " in namespace "
          ++ quote ns
          ++ bytes " ("
          ++ hint
          ++ bytes ")")
      else raise e

  unfoldable pub check_secret :
      ClusterDex → SecretReference → List Str → Str → Exec ReconcileResult → Exec ReconcileResult
  unfolding after_secret
  check_secret cr ref keys hint next = do
    let ns = secret_ref_namespace cr ref
    got ← attempt (fetch secrets (record { namespace = ns; name = ref.name }) env.get_secret)
    after_secret cr ref ns keys hint next got

  after_apply : ClusterDex → Child → Result (Unit {0}) → Exec ReconcileResult
  unfolding give_up
  after_apply cr app (err e) = give_up cr e
  after_apply cr app (ok u) = report_ready cr app.key.name (
      bytes "Dex baseline "
      ++ quote app.key.name
      ++ bytes " rendered for cluster "
      ++ quote cr.spec.cluster_id)

  apply_rendered : ClusterDex → Child → Child → Child → Exec ReconcileResult
  unfolding after_apply apply_all
  apply_rendered cr app cm rbac = do
    actor ← impersonating_client env cr.spec.tenant
    done ← attempt (apply_all actor cr (app ∷ cm ∷ rbac ∷ []))
    after_apply cr app done

  with_config_maps : ClusterDex → Child → Result (Child × Child) → Exec ReconcileResult
  unfolding apply_rendered
  with_config_maps cr app (err e) = give_up cr e
  with_config_maps cr app (ok (cm, rbac)) = apply_rendered cr app cm rbac

  with_application : ClusterDex → Result Child → Exec ReconcileResult
  unfolding with_config_maps
  with_application cr (err e) = give_up cr e
  with_application cr (ok app) = with_config_maps cr app (render_argocd_config_maps env cr)

  unfoldable pub render_and_apply : ClusterDex → Exec ReconcileResult
  unfolding with_application
  render_and_apply cr = with_application cr (render_dex_application env cr)

  abbrev oidc_ref : ClusterDex → Option SecretKeyReference
  oidc_ref cr = elim cr.spec.argocd [ none ↦ none | some a ↦ a.oidc_client_secret_ref ]

  abbrev config_ref : ClusterDex → Option SecretReference
  config_ref cr = elim cr.spec.dex [ none ↦ none | some d ↦ d.config_secret_ref ]

  require_oidc : ClusterDex → Option SecretKeyReference → Exec ReconcileResult
  require_oidc cr none = waiting cr (
      bytes
        "spec.argocd.oidcClientSecretRef is required: argocd-cm references the Dex static client secret by name/key")
  require_oidc cr (some _) = render_and_apply cr

  require_config : ClusterDex → Option SecretReference → Exec ReconcileResult
  unfolding require_oidc
  require_config cr none = waiting cr (
      bytes
        "spec.dex.configSecretRef is required: Dex config comes from an ESO/Vault-synced Secret (configSecret.create=false)")
  require_config cr (some ref) =
      check_secret cr ref (bytes "config.yaml" ∷ []) (bytes "ESO/Vault dex config sync")
        (require_oidc cr (oidc_ref cr))

  enabled : ClusterDex → Exec ReconcileResult
  unfolding require_config
  enabled cr =
      check_secret cr cr.spec.client_secret_ref (bytes "client-id" ∷ bytes "client-secret" ∷ [])
        (bytes "W2 cluster-<id>-dex provisioning") (require_config cr (config_ref cr))

  disabled : ClusterDex → Exec ReconcileResult
  disabled cr = do
    delete_children cr
    report_ready cr [] (bytes "Dex baseline disabled for cluster " ++ quote cr.spec.cluster_id)

  unfoldable pub provision : ClusterDex → Exec ReconcileResult
  unfolding enabled disabled
  provision cr = if is_enabled cr.spec then enabled cr else disabled cr

  announce : ClusterDex → Exec (Unit {0})
  announce cr = event env cluster_dexes (key_of cr) normal (bytes "Deleted") (
      bytes "Dex baseline deleted for tenant "
      ++ quote cr.spec.tenant.tenant_id
      ++ bytes " cluster "
      ++ quote cr.spec.cluster_id)

  unfoldable pub handler : Handler ClusterDexSpec ClusterDexStatus (Unit {0})
  unfolding announce provision
  handler = record {
    kind = cluster_dexes;
    get = env.get_cluster_dex;
    wrap_object = cluster_dex;
    prepare = λ cr. pure tt;
    cleanup = λ cr _. delete_children cr;
    announce = λ cr _. announce cr;
    provision = λ cr _. provision cr;
  }

  -- `ClusterDexReconciler.Reconcile`.
  unfoldable pub reconcile : Key → Exec ReconcileResult
  unfolding handler
  reconcile = Lifecycle.reconcile env handler

-- `SetupWithManager`.
unfoldable pub set_up_with_manager : Runtime → Process Done
set_up_with_manager rt = set_up_for rt cluster_dexes
