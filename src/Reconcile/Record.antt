-- ===== src/Reconcile/Record.antt =====
-- `DNSRecordReconciler` of internal/controller/dns_controller.go
pub mod Labels
pub mod Safety
use inari_operator.Process.{Runtime, Process, set_up_for}
use inari_operator.Cluster.Errors.{Done, Error, Result, ok, err, wrapped, error_text, is_not_found}
use inari_operator.Base.{
  ℕ, Bool, true, false, Option, none, some, List, [], ◌∷◌, ◌++◌, length, if◌then◌else◌,
}
use inari_operator.Text.{Str, bytes}
use inari_operator.Text.Format.{quote, decimal}
use inari_operator.Api.{Key, Condition, key_of}
use inari_operator.Api.Conditions.{set_ready, set_failed, reason_ready}
use inari_operator.Api.Items.{
  DnsRecord, DnsRecordSpec, DnsRecordStatus, DnsRecordEndpoint, DnsZone, dns_record,
}
use inari_operator.Cluster.Children.{
  Child, Content, Value, Values, num, text, seq, seq_of, object_of, dns_endpoint, named, with_label,
}
use inari_operator.Cluster.Env.{Env, operator, dns_records, dns_zones, normal, warning}
use inari_operator.Cluster.Exec.{Exec, pure, raise, attempt, ◌>>=◌, ◌>>◌}
use inari_operator.Cluster.Calls.{fetch, event, create_or_update}
use inari_operator.Common.{ReconcileResult, stop, requeue_in, tenant_label}
use inari_operator.Dns.{dns_names_in_zone}
use inari_operator.Reconcile.Lifecycle.{Handler}
use inari_operator.Reconcile.Lifecycle
use inari_operator.Reconcile.Status.{try_status, save_status}

abbrev with_conditions : DnsRecord → List Condition → DnsRecord
with_conditions rec cs = record rec { status = record rec.status { conditions = cs } }

abbrev pub zone_key : DnsRecord → Key
zone_key rec = record { namespace = rec.metadata.namespace; name = rec.spec.zone_ref }

-- The first endpoint outside the zone.
unfoldable pub first_outside : Str → List DnsRecordEndpoint → Option DnsRecordEndpoint
first_outside zone [] = none
first_outside zone (ep ∷ eps) =
    if dns_names_in_zone ep.dns_name zone then first_outside zone eps else some ep

endpoint_value : DnsRecordEndpoint → Value
endpoint_value e = object_of (
    ("dnsName", text e.dns_name)
    ∷ ("recordType", text e.record_type)
    ∷ ("targets", seq (seq_of text e.targets))
    ∷ ("recordTTL", num e.ttl)
    ∷ [])

-- `eps`.
unfoldable pub endpoint_values : List DnsRecordEndpoint → Values
unfolding endpoint_value
endpoint_values = seq_of endpoint_value

module _ (env : Env) where
  pub failed : DnsRecord → Str → DnsRecord
  failed rec message =
      with_conditions rec
        (set_failed env.meta rec.status.conditions rec.metadata.generation message)

  pub rendered : DnsRecord → Str → DnsRecord
  rendered rec zone_name = record rec {
    status = record {
      conditions = set_ready env.meta rec.status.conditions rec.metadata.generation reason_ready (
          decimal (length rec.spec.endpoints)
          ++ bytes " endpoint(s) rendered for zone "
          ++ quote zone_name);
      observed_generation = rec.metadata.generation;
    };
  }

  put_endpoints : DnsRecord → Result Child → Result Child
  put_endpoints rec (err e) = err e
  put_endpoints rec (ok child) =
      let labelled = with_label tenant_label rec.spec.tenant.tenant_id child in
      elim (env.set_endpoints child.content (endpoint_values rec.spec.endpoints)) [
        | err e ↦ err e
        | ok content ↦ ok (record labelled { content = content })
      ]

  -- The mutate function of the DNSEndpoint.
  unfoldable pub endpoint_child : DnsRecord → Child → Result Child
  unfolding put_endpoints
  endpoint_child rec child = put_endpoints rec (env.set_controller_reference (key_of rec) child)

  after_render : DnsRecord → DnsZone → Result Child → Exec ReconcileResult
  unfolding failed rendered
  after_render rec zone (err e) = do
    try_status env (dns_record (failed rec (error_text e)))
    raise (wrapped (bytes "render DNSEndpoint: ") e)
  after_render rec zone (ok _) = save_status env (dns_record (rendered rec zone.spec.zone_name)) (do
    event env dns_records (key_of rec) normal (bytes "Rendered") (
        bytes "DNSEndpoint "
        ++ quote rec.metadata.name
        ++ bytes " rendered for tenant "
        ++ quote rec.spec.tenant.tenant_id)
    stop)

  render : DnsRecord → DnsZone → Exec ReconcileResult
  unfolding after_render
  render rec zone = do
    written ←
        attempt
          (create_or_update env operator (named dns_endpoint (key_of rec)) (endpoint_child rec))
    after_render rec zone written

  refuse : DnsRecord → DnsZone → DnsRecordEndpoint → Exec ReconcileResult
  refuse rec zone ep = do
    let message =
        bytes "dnsName " ++ quote ep.dns_name ++ bytes " outside zone " ++ quote zone.spec.zone_name
    try_status env (dns_record (failed rec message))
    event env dns_records (key_of rec) warning (bytes "InvalidEndpoint") message
    stop

  checked : DnsRecord → DnsZone → Option DnsRecordEndpoint → Exec ReconcileResult
  unfolding render refuse
  checked rec zone none = render rec zone
  checked rec zone (some ep) = refuse rec zone ep

  after_zone : DnsRecord → Result DnsZone → Exec ReconcileResult
  unfolding checked
  after_zone rec (ok zone) = checked rec zone (first_outside zone.spec.zone_name rec.spec.endpoints)
  after_zone rec (err e) = do
    try_status env (dns_record (failed rec (bytes "referenced DNSZone not found")))
    if is_not_found e then pure (requeue_in 30) else raise e

  unfoldable pub provision : DnsRecord → Exec ReconcileResult
  unfolding after_zone
  provision rec = do
    got ← attempt (fetch dns_zones (zone_key rec) env.get_dns_zone)
    after_zone rec got

  unfoldable pub handler : Handler DnsRecordSpec DnsRecordStatus (Unit {0})
  unfolding provision
  handler = record {
    kind = dns_records;
    get = env.get_dns_record;
    wrap_object = dns_record;
    prepare = λ rec. pure tt;
    cleanup = λ rec _. pure tt;
    announce = λ rec _. pure tt;
    provision = λ rec _. provision rec;
  }

  -- `DNSRecordReconciler.Reconcile`.
  unfoldable pub reconcile : Key → Exec ReconcileResult
  unfolding handler
  reconcile = Lifecycle.reconcile env handler

-- `SetupWithManager`.
unfoldable pub set_up_with_manager : Runtime → Process Done
set_up_with_manager rt = set_up_for rt dns_records
