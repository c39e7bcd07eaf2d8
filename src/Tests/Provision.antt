-- ===== src/Tests/Provision.antt =====
-- The theorems on what the reconcilers write, on the objects of the sample cluster.
use inari_operator.Base.{pos, ◌≡◌, ◌⊎◌, refl, All, ◌∷◌, [], ◌++◌}
use inari_operator.Text.{bytes, str_eq}
use inari_operator.Cluster.Errors.{ok}
use inari_operator.Cluster.Exec.Keeps.{applications}
use inari_operator.Reconcile.Issuer
use inari_operator.Reconcile.Record
use inari_operator.Reconcile.TenantSpace
use inari_operator.Reconcile.Record.Safety.{InZone, record_reconcile_safe}
use inari_operator.Api.{key_of}
use inari_operator.Reconcile.TenantSpace.Quota.{Limits, hard_limits-eq-ok}
use inari_operator.Text.Format.{decimal}
use inari_operator.Cluster.Children.{Labels}
use inari_operator.Api.Items.{TenantResourceQuota, DnsRecord, DnsZone, CertIssuer}
use inari_operator.Cluster.Env.{read, dns_records}
use inari_operator.Reconcile.Issuer.Exclusive.{WritesExclusive, issuer_provision_exclusive}
use inari_operator.Reconcile.Issuer.Names.{dashed, issuer_names_collide}
use inari_operator.Tests.Sample.{
  sample_tenant, sample_metadata, sample_env, sample_env-AppliesMutate, start_world, sample_issuer,
  sample_record,
}

record_reconcile_safe_example :
    (applications (Record.reconcile sample_env (key_of sample_record) start_world).1.trace
      ≡ applications start_world.trace)
    ⊎ ((rec : DnsRecord) × (zone : DnsZone) × (sample_env.get_dns_record start_world.trace
            (key_of sample_record)
          ≡ ok rec)
        × (sample_env.get_dns_zone
              (read dns_records (key_of sample_record) ∷ start_world.trace)
              (Record.zone_key rec)
            ≡ ok zone)
        × All (InZone zone.spec.zone_name) rec.spec.endpoints)
record_reconcile_safe_example = record_reconcile_safe sample_env (key_of sample_record) start_world

issuer_provision_exclusive_example :
    All
      (WritesExclusive sample_issuer)
      (Issuer.provision sample_env sample_issuer start_world).1.trace
issuer_provision_exclusive_example =
    issuer_provision_exclusive sample_env sample_issuer sample_env-AppliesMutate start_world tt

abbrev dashed_tenant : CertIssuer
dashed_tenant = record sample_issuer {
  metadata = record sample_metadata { name = bytes "web" };
  spec = record sample_issuer.spec {
    tenant = record sample_tenant { tenant_id = dashed (bytes "acme") (bytes "eu") };
  };
}

abbrev dashed_name : CertIssuer
dashed_name = record sample_issuer {
  metadata = record sample_metadata { name = dashed (bytes "eu") (bytes "web") };
}

issuer_names_collide_example :
    Issuer.cluster_issuer_name sample_env dashed_tenant
    ≡ Issuer.cluster_issuer_name sample_env dashed_name
issuer_names_collide_example =
    issuer_names_collide sample_env dashed_tenant dashed_name (bytes "acme") (bytes "eu")
      (bytes "web") refl refl refl refl

abbrev small_quota : TenantResourceQuota
small_quota = record { cpu = b'4' ∷ []; memory = []; pods = pos 20 }

abbrev small_limits : Labels
small_limits =
    (bytes "requests." ++ bytes "cpu", b'4' ∷ [])
    ∷ (bytes "limits." ++ bytes "cpu", b'4' ∷ [])
    ∷ (bytes "pods", decimal 20)
    ∷ []

hard_limits-eq-ok_example : Limits sample_env small_quota small_limits
unfolding TenantSpace.hard_limits
hard_limits-eq-ok_example = hard_limits-eq-ok sample_env small_quota small_limits refl
