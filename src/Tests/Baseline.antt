-- ===== src/Tests/Baseline.antt =====
-- The theorems on the Dex baseline of a cluster.
use inari_operator.Base.{All, ◌≡◌, refl}
use inari_operator.Api.Items.{ClusterDex}
use inari_operator.Common.Actors.{actor_of}
use inari_operator.Reconcile.Baseline.{provision, reconcile, report_ready, settled}
use inari_operator.Reconcile.Baseline.Writes.{WritesAs, baseline_provision-WritesAs}
use inari_operator.Tests.Sample.{
  sample_tenant, sample_env-AppliesMutate, start_world, sample_env, sample_meta-IsLawful,
  sample_dex,
}
use inari_operator.Cluster.Errors.{err, ok}
use inari_operator.Text.{contains_any, Str, bytes}
use inari_operator.Cluster.Children.{Child, named, config_map}
use inari_operator.Dex.Render.{render_argocd_config_maps, multiline_group}
use inari_operator.Dex.Render.Policy.{Policy, render_argocd_config_maps-eq-ok}
use inari_operator.Api.{key_of}
use inari_operator.Common.{no_requeue}
use inari_operator.Reconcile.Baseline.Secrecy.{redacted, baseline_reconcile-redacted}
use inari_operator.Reconcile.Baseline.Settled.{report_ready-settled}

abbrev hidden : Str → Str
hidden v = bytes "hidden"

baseline_reconcile-redacted_example :
    reconcile (redacted hidden sample_env) (key_of sample_dex)
    ≡ reconcile sample_env (key_of sample_dex)
baseline_reconcile-redacted_example =
    baseline_reconcile-redacted sample_env hidden (key_of sample_dex)

report_ready-settled_example :
    report_ready sample_env
      (settled sample_env sample_dex (bytes "dex-edge-1") (bytes "first"))
      (bytes "dex-edge-1")
      (bytes "second")
      start_world
    ≡ (ok no_requeue, start_world)
report_ready-settled_example =
    report_ready-settled sample_env sample_meta-IsLawful sample_dex (bytes "dex-edge-1")
      (bytes "first") (bytes "second") start_world

abbrev maps : Child × Child
maps = elim (render_argocd_config_maps sample_env sample_dex) [
  | ok p ↦ p
  | err e ↦ (named config_map (key_of sample_dex), named config_map (key_of sample_dex))
]

rendered : render_argocd_config_maps sample_env sample_dex ≡ ok maps
unfolding render_argocd_config_maps multiline_group contains_any bytes
rendered = refl

render_argocd_config_maps-eq-ok_example : Policy sample_dex maps.1
render_argocd_config_maps-eq-ok_example =
    render_argocd_config_maps-eq-ok sample_env sample_dex maps.0 maps.1 rendered

-- The cluster of a tenant that names a service account.
abbrev delegated_dex : ClusterDex
delegated_dex = record sample_dex {
  spec = record sample_dex.spec {
    tenant = record sample_tenant { impersonate_service_account = bytes "deployer" };
  };
}

baseline_provision-WritesAs_example :
    All
      (WritesAs (actor_of delegated_dex.spec.tenant))
      (provision sample_env delegated_dex start_world).1.trace
baseline_provision-WritesAs_example =
    baseline_provision-WritesAs sample_env delegated_dex sample_env-AppliesMutate start_world tt
