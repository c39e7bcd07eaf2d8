-- ===== src/Dex/Settings.antt =====
-- The constants and defaults of internal/controller/clusterdex_application.go.
use inari_operator.Base.{ℕ, Option, none, some, List, [], ◌∷◌, ◌++◌, if◌then◌else◌}
use inari_operator.Text.{Str, bytes, is_empty}
use inari_operator.Names.{tenant_child_name}
use inari_operator.Api.Items.{ClusterDex, SecretReference}

abbrev pub dex_chart_repo_url : Str
dex_chart_repo_url = bytes "https://charts.dexidp.io"

abbrev pub dex_chart_name : Str
dex_chart_name = bytes "dex"

abbrev pub default_dex_chart_version : Str
default_dex_chart_version = bytes "0.25.2"

abbrev pub dex_namespace : Str
dex_namespace = bytes "dex"

abbrev pub dex_service_port : ℕ
dex_service_port = 5556

abbrev pub argocd_config_map_name : Str
argocd_config_map_name = bytes "argocd-cm"

abbrev pub argocd_rbac_config_map_name : Str
argocd_rbac_config_map_name = bytes "argocd-rbac-cm"

-- A setting of an optional part, with the default where the part or the text is missing.
unfoldable pub setting {ℓ} : {A : Type ℓ} → Option A → (A → Str) → Str → Str
setting none field default = default
setting (some part) field default = if is_empty (field part) then default else field part

-- `dexChartVersion`.
unfoldable pub dex_chart_version : ClusterDex → Str
dex_chart_version cr = setting cr.spec.dex (λ d. d.chart_version) default_dex_chart_version

-- `argoCDNamespace`.
unfoldable pub argocd_namespace : ClusterDex → Str
argocd_namespace cr = setting cr.spec.argocd (λ a. a.namespace) (bytes "argocd")

-- `argoCDProject`.
unfoldable pub argocd_project : ClusterDex → Str
argocd_project cr = setting cr.spec.argocd (λ a. a.project) (bytes "default")

-- `secretRefNamespace`.
unfoldable pub secret_ref_namespace : ClusterDex → SecretReference → Str
secret_ref_namespace cr ref =
    if is_empty ref.namespace then cr.metadata.namespace else ref.namespace

module _ (sum256 : Str → List ℕ) where
  -- `defaultDexIssuerURL`.
  unfoldable pub default_dex_issuer_url : Str → Str
  default_dex_issuer_url cluster_id =
      bytes "http://"
      ++ tenant_child_name sum256 (bytes "dex" ∷ cluster_id ∷ [])
      ++ bytes ".dex.svc.cluster.local:5556/dex"

  -- `dexIssuerURL`.
  unfoldable pub dex_issuer_url : ClusterDex → Str
  dex_issuer_url cr =
      setting cr.spec.dex (λ d. d.issuer_url) (default_dex_issuer_url cr.spec.cluster_id)

  -- `dexApplicationName`.
  unfoldable pub dex_application_name : ClusterDex → Str
  dex_application_name cr = tenant_child_name sum256 (bytes "dex" ∷ cr.spec.cluster_id ∷ [])
