-- ===== src/Dex/Render.antt =====
-- `renderDexApplication` and `renderArgoCDConfigMaps` of
-- internal/controller/clusterdex_application.go.
pub mod Policy
use inari_operator.Base.{String, true, Option, none, some, List, [], ◌∷◌, ◌++◌, if◌then◌else◌}
use inari_operator.Text.{Str, bytes, is_empty, trim_right, contains_any, fields}
use inari_operator.Text.Format.{quote}
use inari_operator.Api.Items.{ClusterDex, ClusterDexArgoCd, SecretKeyReference}
use inari_operator.Cluster.Errors.{Result, ok, err, failure, wrap}
use inari_operator.Cluster.Children.{
  Child, Labels, Value, bool, text, seq, seq_of, object_of, list_of, application, config_map, spec,
  config,
}
use inari_operator.Cluster.Env.{Env}
use inari_operator.Common.{tenant_label}
use inari_operator.Dex.Settings.{
  dex_chart_repo_url, dex_chart_name, dex_namespace, dex_chart_version, argocd_namespace,
  argocd_project, argocd_config_map_name, argocd_rbac_config_map_name, dex_issuer_url,
  dex_application_name,
}
use inari_operator.Dex.HelmValues.{dex_helm_values}

abbrev oidc_scopes : Str
oidc_scopes = bytes "openid profile email groups organization"

abbrev tenant_labels : ClusterDex → Labels
tenant_labels cr = (tenant_label, cr.spec.tenant.tenant_id) ∷ []

application_spec : ClusterDex → Str → Value
application_spec cr values_yaml = object_of (
    ("project", text (argocd_project cr))
    ∷ (
      "source",
      object_of (
          ("repoURL", text dex_chart_repo_url)
          ∷ ("chart", text dex_chart_name)
          ∷ ("targetRevision", text (dex_chart_version cr))
          ∷ ("helm", object_of (("values", text values_yaml) ∷ []))
          ∷ []),
    )
    ∷ (
      "destination",
      object_of (
          ("server", text (bytes "https://kubernetes.default.svc"))
          ∷ ("namespace", text dex_namespace)
          ∷ []),
    )
    ∷ (
      "syncPolicy",
      object_of (
          ("automated", object_of (("prune", bool true) ∷ ("selfHeal", bool true) ∷ []))
          ∷ ("syncOptions", list_of (text (bytes "CreateNamespace=true") ∷ []))
          ∷ []),
    )
    ∷ [])

-- `fmt.Fprintf(&csv, "g, %s, role:…\n", g)` for each group.
unfoldable pub role_lines : String → List Str → Str
role_lines role [] = []
role_lines role (g ∷ gs) =
    (bytes "g, " ++ g ++ bytes ", role:" ++ bytes role ++ bytes "\n") ++ role_lines role gs

unfoldable pub extra_lines : List Str → Str
extra_lines [] = []
extra_lines (line ∷ rest) = (trim_right line (bytes "\n") ++ bytes "\n") ++ extra_lines rest

-- The first group that is not a single line.
unfoldable pub multiline_group : List Str → Option Str
multiline_group [] = none
multiline_group (g ∷ gs) = if contains_any g (bytes "\r\n") then some g else multiline_group gs

-- `csv.String()`.
unfoldable pub policy_csv : ClusterDexArgoCd → Str
policy_csv a =
    role_lines "admin" a.admin_groups
    ++ (role_lines "readonly" a.viewer_groups ++ extra_lines a.rbac_policy_extra)

module _ (env : Env) where
  app_child : ClusterDex → Result Str → Result Child
  unfolding application_spec
  app_child cr (err e) = err e
  app_child cr (ok values_yaml) = ok (record {
    kind = application;
    key = record { namespace = argocd_namespace cr; name = dex_application_name env.sum256 cr };
    labels = tenant_labels cr;
    owner = none;
    content = spec (application_spec cr values_yaml);
  })

  values_text : Result Value → Result Str
  values_text (err e) = err e
  values_text (ok values) = wrap (bytes "marshal dex helm values: ") (env.marshal_yaml values)

  -- `renderDexApplication`.
  unfoldable pub render_dex_application : ClusterDex → Result Child
  unfolding app_child values_text
  render_dex_application cr = app_child cr (values_text (dex_helm_values env.sum256 cr))

  abbrev client_secret_key : SecretKeyReference → Str
  client_secret_key ref = if is_empty ref.key then bytes "client-secret" else ref.key

  oidc_value : ClusterDex → SecretKeyReference → Value
  oidc_value cr ref = object_of (
      ("name", text (bytes "Inari SSO (Dex)"))
      ∷ ("issuer", text (dex_issuer_url env.sum256 cr))
      ∷ ("clientID", text (bytes "argocd"))
      ∷ ("clientSecret", text (bytes "$" ++ ref.name ++ bytes ":" ++ client_secret_key ref))
      ∷ ("requestedScopes", seq (seq_of text (fields oidc_scopes)))
      ∷ [])

  config_child : ClusterDex → Str → Labels → Child
  config_child cr name entries = record {
    kind = config_map;
    key = record { namespace = argocd_namespace cr; name = name };
    labels = tenant_labels cr;
    owner = none;
    content = config entries;
  }

  config_maps : ClusterDex → ClusterDexArgoCd → Result Str → Result (Child × Child)
  unfolding config_child
  config_maps cr a (err e) = err e
  config_maps cr a (ok oidc_config) = ok (
    config_child cr argocd_config_map_name (
        (bytes "admin.enabled", bytes "true")
        ∷ (bytes "accounts.inari-breakglass", bytes "apiKey, login")
        ∷ (bytes "oidc.config", oidc_config)
        ∷ []),
    config_child cr argocd_rbac_config_map_name
        ((bytes "policy.default", []) ∷ (bytes "policy.csv", policy_csv a) ∷ []),
  )

  with_ref : ClusterDex → ClusterDexArgoCd → Option SecretKeyReference → Result (Child × Child)
  unfolding config_maps oidc_value
  with_ref cr a none = err (failure (bytes "spec.argocd.oidcClientSecretRef is required"))
  with_ref cr a (some ref) = elim (multiline_group (a.admin_groups ++ a.viewer_groups)) [
    | some g ↦ err (failure (bytes "argocd group " ++ quote g ++ bytes " must be a single line"))
    | none ↦
        config_maps cr a
          (wrap (bytes "marshal argocd oidc config: ") (env.marshal_yaml (oidc_value cr ref)))
  ]

  with_argocd : ClusterDex → Option ClusterDexArgoCd → Result (Child × Child)
  unfolding with_ref
  with_argocd cr none = err (failure (bytes "spec.argocd.oidcClientSecretRef is required"))
  with_argocd cr (some a) = with_ref cr a a.oidc_client_secret_ref

  -- `renderArgoCDConfigMaps`: argocd-cm and argocd-rbac-cm.
  unfoldable pub render_argocd_config_maps : ClusterDex → Result (Child × Child)
  unfolding with_argocd
  render_argocd_config_maps cr = with_argocd cr cr.spec.argocd
