-- ===== src/Reconcile/Zone.antt =====
-- `DNSZoneReconciler` of internal/controller/dns_controller.go
pub mod Laws
pub mod Labels
pub mod Converges
use inari_operator.Process.{Runtime, Process, set_up_for}
use inari_operator.Cluster.Errors.{Done}
use inari_operator.Base.{ℕ, Bool, true, false, ◌&&◌, List, ◌++◌, ◌==◌, if◌then◌else◌}
use inari_operator.Text.{Str, bytes, str_eq}
use inari_operator.Text.Format.{quote}
use inari_operator.Api.{Key, key_of}
use inari_operator.Api.Conditions.{set_ready, reason_ready, status_conditions_ready}
use inari_operator.Api.Items.{DnsZone, DnsZoneSpec, DnsZoneStatus, dns_zone}
use inari_operator.Cluster.Env.{Env, dns_zones, normal}
use inari_operator.Cluster.Exec.{Exec, pure, ◌>>=◌, ◌>>◌}
use inari_operator.Cluster.Calls.{event}
use inari_operator.Common.{ReconcileResult, stop}
use inari_operator.Reconcile.Lifecycle.{Handler}
use inari_operator.Reconcile.Lifecycle
use inari_operator.Reconcile.Status.{save_status}

module _ (env : Env) where
  pub is_settled : DnsZone → Bool
  is_settled zone =
      status_conditions_ready env.meta zone.status.conditions zone.metadata.generation
      && zone.status.zone_name == zone.spec.zone_name

  abbrev delegation : DnsZone → Str
  delegation zone =
      quote zone.spec.zone_name ++ bytes " delegated to tenant " ++ quote zone.spec.tenant.tenant_id

  pub delegated : DnsZone → DnsZone
  delegated zone = record zone {
    status = record {
      conditions =
          set_ready env.meta zone.status.conditions zone.metadata.generation reason_ready
            (bytes "zone " ++ delegation zone);
      observed_generation = zone.metadata.generation;
      zone_name = zone.spec.zone_name;
    };
  }

  unfoldable pub provision : DnsZone → Exec ReconcileResult
  unfolding is_settled delegated
  provision zone =
      if is_settled zone
      then stop
      else save_status env (dns_zone (delegated zone)) (do
        event env dns_zones (key_of zone) normal (bytes "Ready")
            (bytes "DNS zone " ++ delegation zone)
        stop)

  unfoldable pub handler : Handler DnsZoneSpec DnsZoneStatus (Unit {0})
  unfolding provision
  handler = record {
    kind = dns_zones;
    get = env.get_dns_zone;
    wrap_object = dns_zone;
    prepare = λ zone. pure tt;
    cleanup = λ zone _. pure tt;
    announce = λ zone _. pure tt;
    provision = λ zone _. provision zone;
  }

  -- `DNSZoneReconciler.Reconcile`.
  unfoldable pub reconcile : Key → Exec ReconcileResult
  unfolding handler
  reconcile = Lifecycle.reconcile env handler

-- `SetupWithManager`.
unfoldable pub set_up_with_manager : Runtime → Process Done
set_up_with_manager rt = set_up_for rt dns_zones
