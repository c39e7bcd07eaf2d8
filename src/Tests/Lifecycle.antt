-- ===== src/Tests/Lifecycle.antt =====
-- The order of the lifecycle, for zones that are live, marked, deleted and released.
use inari_operator.Base.{◌≡◌, some, ◌⊎◌, false, true}
use inari_operator.Api.{key_of, is_deleting}
use inari_operator.Api.Items.{DnsZone, DnsZoneSpec, DnsZoneStatus, dns_zone}
use inari_operator.Cluster.Errors.{ok}
use inari_operator.Cluster.Env.{Env, read}
use inari_operator.Cluster.Exec.{World, log}
use inari_operator.Common.{has_finalizer}
use inari_operator.Reconcile.Lifecycle.{Handler, reconcile}
use inari_operator.Reconcile.Lifecycle.Updates.{Outcome, reconcile_updates}
use inari_operator.Cluster.Calls.Keeps.{Ignores-updates}
use inari_operator.Reconcile.Status.Keeps.{status_keeps_rules}
use inari_operator.Cluster.Exec.Keeps.{Keeps, updates, Keeps-pure, applications}
use inari_operator.Reconcile.Zone.{provision, handler}
use inari_operator.Reconcile.Lifecycle.Frame.{reconcile_frame}
use inari_operator.Tests.Sample.{sample_env, sample_zone, start_world}

abbrev dying : DnsZone → DnsZone
dying zone = record zone { metadata = record zone.metadata { deletion_timestamp = some 1 } }

abbrev finding : DnsZone → Env
finding zone = record sample_env { get_dns_zone = λ t key. ok zone }

abbrev zones : DnsZone → Handler DnsZoneSpec DnsZoneStatus (Unit {0})
zones zone = handler (finding zone)

abbrev dying_zone : DnsZone
dying_zone = dying sample_zone

-- Provisioning a zone calls no `Update`.
Keeps-provision : (env : Env) (zone : DnsZone) → Keeps updates (provision env zone)
unfolding provision
Keeps-provision env zone = search (status_keeps_rules, Ignores-updates)

reconcile_updates_example :
    Outcome
      (finding dying_zone)
      (zones dying_zone)
      (key_of dying_zone)
      start_world
      (reconcile (finding dying_zone) (zones dying_zone) (key_of dying_zone) start_world).1
unfolding handler
reconcile_updates_example =
    reconcile_updates (finding dying_zone) (zones dying_zone) (key_of dying_zone)
      (λ zone. Keeps-pure updates tt) (λ zone p. Keeps-pure updates tt)
      (λ zone p. Keeps-pure updates tt) (λ zone p. Keeps-provision (finding dying_zone) zone)
      start_world

reconcile_frame_example :
    (applications
        (reconcile
          (finding sample_zone)
          (zones sample_zone)
          (key_of sample_zone)
          start_world).1.trace
      ≡ applications start_world.trace)
    ⊎ ((obj : DnsZone) × (p : Unit {0}) × (w' : World) × ((zones sample_zone).get start_world.trace
            (key_of sample_zone)
          ≡ ok obj)
        × ((zones sample_zone).prepare obj
              (log (read (zones sample_zone).kind (key_of sample_zone)) start_world)
            ≡ (ok p, w'))
        × (is_deleting obj ≡ false)
        × (has_finalizer (finding sample_zone) dns_zone obj ≡ true)
        × (reconcile (finding sample_zone) (zones sample_zone) (key_of sample_zone) start_world
            ≡ (zones sample_zone).provision obj p w'))
unfolding handler
reconcile_frame_example =
    reconcile_frame (finding sample_zone) (zones sample_zone) (λ zone. Keeps-pure applications tt)
      (λ zone p. Keeps-pure applications tt) (λ zone p. Keeps-pure applications tt)
      (key_of sample_zone) start_world
