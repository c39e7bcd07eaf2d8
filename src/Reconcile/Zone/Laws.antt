-- ===== src/Reconcile/Zone/Laws.antt =====
-- A zone that is delegated is not written again.
use inari_operator.Base.{◌≡◌, ==_refl}
use inari_operator.Api.Conditions.{IsLawful, reason_ready}
use inari_operator.Api.Conditions.Laws.{status_conditions_ready-set_ready}
use inari_operator.Api.Items.{DnsZone}
use inari_operator.Cluster.Errors.{ok}
use inari_operator.Cluster.Env.{Env}
use inari_operator.Cluster.Exec.{World}
use inari_operator.Common.{no_requeue}
use inari_operator.Reconcile.Zone.{provision, delegated, is_settled}

module _ (env : Env) (lawful : IsLawful env.meta) (zone : DnsZone) (w : World) where
  -- With condition functions that behave as documented, a zone whose status is the one that
  -- provisioning writes is settled: provisioning it again makes no call.
  zone_provision_delegated : provision env (delegated env zone) w ≡ (ok no_requeue, w)
  unfolding provision is_settled delegated
  zone_provision_delegated = rw (
    status_conditions_ready-set_ready env.meta lawful zone.status.conditions
        zone.metadata.generation zone.metadata.generation reason_ready _,
    ==_refl zone.metadata.generation,
    ==_refl zone.spec.zone_name,
  )
