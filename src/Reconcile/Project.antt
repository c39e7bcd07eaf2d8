-- ===== src/Reconcile/Project.antt =====
-- internal/controller/argoproject_controller.go
pub mod Labels
pub mod Repos
use inari_operator.Process.{Runtime, Process, set_up_for}
use inari_operator.Cluster.Errors.{Done, Error, Result, ok, err, wrapped, error_text}
use inari_operator.Base.{
  ℕ, Bool, true, false, Option, none, some, List, [], ◌∷◌, ◌++◌, contains, if◌then◌else◌,
}
use inari_operator.Text.{Str, bytes, str_eq, is_empty}
use inari_operator.Text.Format.{quote}
use inari_operator.Names.{tenant_child_name}
use inari_operator.Api.{Key, Condition, key_of}
use inari_operator.Api.Conditions.{set_ready, set_failed, reason_ready}
use inari_operator.Api.Items.{ArgoProject, ArgoProjectSpec, ArgoProjectStatus, argo_project}
use inari_operator.Cluster.Children.{
  Child, Value, text, object_of, list_of, seq, seq_of, spec, app_project, named, with_label,
}
use inari_operator.Cluster.Env.{Env, operator, argo_projects, normal}
use inari_operator.Cluster.Exec.{Exec, pure, raise, attempt, ◌>>=◌, ◌>>◌}
use inari_operator.Cluster.Calls.{event, create_or_update}
use inari_operator.Common.{ReconcileResult, stop, tenant_label}
use inari_operator.Dex.Settings.{dex_chart_repo_url}
use inari_operator.Reconcile.Lifecycle.{Handler}
use inari_operator.Reconcile.Lifecycle
use inari_operator.Reconcile.Status.{try_status, save_status, delete_if_present}

abbrev with_conditions : ArgoProject → List Condition → ArgoProject
with_conditions ap cs = record ap { status = record ap.status { conditions = cs } }

-- `argoNS`, of the reconciler's `ArgoCDNamespace`.
unfoldable pub argo_ns : Str → Str
argo_ns configured = if is_empty configured then bytes "argocd" else configured

-- `destNS`.
unfoldable pub destination_namespaces : ArgoProject → List Str
destination_namespaces ap = elim ap.spec.destination_namespaces [
  | [] ↦ ap.spec.tenant.namespace ∷ []
  | ns ∷ rest ↦ ns ∷ rest
]

-- `repos`: the official chart repository is always allowed.
unfoldable pub repos : ArgoProject → List Str
repos ap =
    if contains ap.spec.source_repos dex_chart_repo_url
    then ap.spec.source_repos
    else ap.spec.source_repos ++ (dex_chart_repo_url ∷ [])

abbrev description : ArgoProject → Str
description ap =
    if is_empty ap.spec.description
    then bytes "Tenant " ++ ap.spec.tenant.tenant_id ++ bytes " project (managed by inari-operator)"
    else ap.spec.description

destination : Str → Value
destination ns = object_of (("server", text (bytes "*")) ∷ ("namespace", text ns) ∷ [])

abbrev everything : Value
everything =
    list_of (object_of (("group", text (bytes "*")) ∷ ("kind", text (bytes "*")) ∷ []) ∷ [])

pub project_value : ArgoProject → Value
project_value ap = object_of (
    ("description", text (description ap))
    ∷ ("sourceRepos", seq (seq_of text (repos ap)))
    ∷ ("destinations", seq (seq_of destination (destination_namespaces ap)))
    ∷ ("clusterResourceWhitelist", everything)
    ∷ ("namespaceResourceWhitelist", everything)
    ∷ [])

-- The mutate function of the AppProject.
unfoldable pub project_child : ArgoProject → Child → Result Child
project_child ap child = ok (record (with_label tenant_label ap.spec.tenant.tenant_id child) {
  content = spec (project_value ap);
})

module _ (env : Env) where
  -- `argoProjectName`.
  unfoldable pub argo_project_name : ArgoProject → Str
  argo_project_name cr =
      tenant_child_name env.sum256
        (bytes "tenant" ∷ cr.spec.tenant.tenant_id ∷ cr.metadata.name ∷ [])

  pub failed : ArgoProject → Str → ArgoProject
  failed ap message =
      with_conditions ap (set_failed env.meta ap.status.conditions ap.metadata.generation message)

  pub rendered : ArgoProject → ArgoProject
  rendered ap = record ap {
    status = record {
      conditions =
          set_ready env.meta ap.status.conditions ap.metadata.generation reason_ready
            (bytes "AppProject " ++ quote (argo_project_name ap) ++ bytes " rendered");
      observed_generation = ap.metadata.generation;
      project_name = argo_project_name ap;
    };
  }

  after_write : ArgoProject → Result Child → Exec ReconcileResult
  unfolding failed rendered
  after_write ap (err e) = do
    try_status env (argo_project (failed ap (error_text e)))
    raise (wrapped (bytes "render AppProject: ") e)
  after_write ap (ok _) = save_status env (argo_project (rendered ap)) (do
    event env argo_projects (key_of ap) normal (bytes "Rendered") (
        bytes "AppProject "
        ++ quote (argo_project_name ap)
        ++ bytes " rendered for tenant "
        ++ quote ap.spec.tenant.tenant_id)
    stop)

  -- `argocd_namespace` is the reconciler's `ArgoCDNamespace`.
  module _ (argocd_namespace : Str) where
    abbrev pub child_key : ArgoProject → Key
    child_key ap = record { namespace = argo_ns argocd_namespace; name = argo_project_name ap }

    unfoldable pub provision : ArgoProject → Exec ReconcileResult
    unfolding after_write
    provision ap = do
      written ←
          attempt
            (create_or_update env operator (named app_project (child_key ap)) (project_child ap))
      after_write ap written

    announce : ArgoProject → Exec (Unit {0})
    announce ap = event env argo_projects (key_of ap) normal (bytes "Deleted") (
        bytes "AppProject "
        ++ quote (argo_project_name ap)
        ++ bytes " deleted for tenant "
        ++ quote ap.spec.tenant.tenant_id)

    unfoldable pub handler : Handler ArgoProjectSpec ArgoProjectStatus (Unit {0})
    unfolding announce provision
    handler = record {
      kind = argo_projects;
      get = env.get_argo_project;
      wrap_object = argo_project;
      prepare = λ ap. pure tt;
      cleanup = λ ap _. delete_if_present env operator app_project (child_key ap);
      announce = λ ap _. announce ap;
      provision = λ ap _. provision ap;
    }

    -- `ArgoProjectReconciler.Reconcile`.
    unfoldable pub reconcile : Key → Exec ReconcileResult
    unfolding handler
    reconcile = Lifecycle.reconcile env handler

-- `SetupWithManager`.
unfoldable pub set_up_with_manager : Runtime → Process Done
set_up_with_manager rt = set_up_for rt argo_projects
