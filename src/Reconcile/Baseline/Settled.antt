-- ===== src/Reconcile/Baseline/Settled.antt =====
-- A ClusterDex whose status is up to date is not written again.
use inari_operator.Base.{◌≡◌, ==_refl}
use inari_operator.Text.{Str}
use inari_operator.Api.Conditions.{IsLawful, reason_ready}
use inari_operator.Api.Conditions.Laws.{status_conditions_ready-set_ready}
use inari_operator.Api.Items.{ClusterDex, dex_client_id}
use inari_operator.Cluster.Errors.{ok}
use inari_operator.Cluster.Env.{Env}
use inari_operator.Cluster.Exec.{World}
use inari_operator.Common.{no_requeue}
use inari_operator.Dex.Settings.{dex_issuer_url}
use inari_operator.Reconcile.Baseline.{report_ready, settled, unchanged}

module _ (env : Env) (lawful : IsLawful env.meta) (cr : ClusterDex) (app_name : Str) where
  -- With condition functions that behave as documented, reporting a ClusterDex ready whose status is
  -- the one that an earlier report for the same application wrote makes no call, whatever the two
  -- messages.
  pub report_ready-settled :
      (message other : Str) (w : World)
      → report_ready env (settled env cr app_name message) app_name other w ≡ (ok no_requeue, w)
  unfolding report_ready settled unchanged dex_issuer_url
  report_ready-settled message other w = rw (
    status_conditions_ready-set_ready env.meta lawful cr.status.conditions cr.metadata.generation
        cr.metadata.generation reason_ready message,
    ==_refl cr.metadata.generation,
    ==_refl app_name,
    ==_refl (dex_issuer_url env.sum256 cr),
    ==_refl (dex_client_id cr.spec),
  )
