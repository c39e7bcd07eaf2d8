-- ===== src/Reconcile/Record/Labels.antt =====
-- The DNSEndpoint carries its tenant's label.
use inari_operator.Cluster.Env.{Trace, Env, operator}
use inari_operator.Api.{Key, key_of}
use inari_operator.Cluster.Exec.Emits.{Emits-pure, Emits, Emits-bind, Emits-attempt}
use inari_operator.Cluster.Calls.Writes.{OnlyWrites}
use inari_operator.Reconcile.Lifecycle.Writes.{Emits-reconcile}
use inari_operator.Reconcile.Status.Labels.{
  LabelsTenant-OnlyWrites, LabelsTenant, label_rules, Emits-labelled_write,
}
use inari_operator.Text.{Str}
use inari_operator.Reconcile.Record.{
  reconcile, handler, provision, after_render, after_zone, checked, render, endpoint_child,
  put_endpoints, endpoint_values, first_outside, Str,
}
use inari_operator.Base.{◌≡◌, some, inl, inr, Option, none, arith, All}
use inari_operator.Api.Items.{DnsRecord, DnsZone, DnsRecordEndpoint}
use inari_operator.Cluster.Errors.{Result, ok, err, Result-cases}
use inari_operator.Cluster.Children.{Child, get_label, named, dns_endpoint}
use inari_operator.Cluster.Children.Labelled.{AppliesMutate, get_label-with_label}
use inari_operator.Common.{tenant_label}
use inari_operator.Cluster.Exec.{World}

module _ (env : Env) (rec : DnsRecord) (tenants : Str → Type 0)
    (mine : tenants rec.spec.tenant.tenant_id) where
  put_endpoints-label :
      (r : Result Child) (left : Child)
      → put_endpoints env rec r ≡ ok left
      → get_label tenant_label left.labels ≡ some rec.spec.tenant.tenant_id
  unfolding put_endpoints
  put_endpoints-label (err e) left h = cc
  put_endpoints-label (ok child) left h =
      elim (Result-cases (env.set_endpoints child.content (endpoint_values rec.spec.endpoints))) [
        | inl (content, e) ↦
            ground (arith, get_label-with_label tenant_label rec.spec.tenant.tenant_id child)
        | inr (x, e) ↦ ground arith
      ]

  endpoint_child-label :
      (found left : Child)
      → endpoint_child env rec found ≡ ok left
      → get_label tenant_label left.labels ≡ some rec.spec.tenant.tenant_id
  unfolding endpoint_child
  endpoint_child-label found left h =
      put_endpoints-label (env.set_controller_reference (key_of rec) found) left h

  Emits-after_render :
      (zone : DnsZone) (r : Result Child)
      → Emits (LabelsTenant tenants) (after_render env rec zone r)
  unfolding after_render
  Emits-after_render zone (ok c) = search label_rules
  Emits-after_render zone (err e) = search label_rules

  Emits-render :
      AppliesMutate env → (zone : DnsZone) → Emits (LabelsTenant tenants) (render env rec zone)
  unfolding render
  Emits-render lawful zone =
      Emits-bind _ _ _
        (Emits-attempt _ _ (
          Emits-labelled_write env lawful {tenants = tenants} mine operator
            (named dns_endpoint (key_of rec)) (endpoint_child env rec) endpoint_child-label))
        (Emits-after_render zone)

  Emits-checked :
      AppliesMutate env
      → (zone : DnsZone) (o : Option DnsRecordEndpoint)
      → Emits (LabelsTenant tenants) (checked env rec zone o)
  unfolding checked
  Emits-checked lawful zone none = Emits-render lawful zone
  Emits-checked lawful zone (some ep) = search label_rules

  Emits-after_zone :
      AppliesMutate env → (r : Result DnsZone) → Emits (LabelsTenant tenants) (after_zone env rec r)
  unfolding after_zone
  Emits-after_zone lawful (ok zone) =
      Emits-checked lawful zone (first_outside zone.spec.zone_name rec.spec.endpoints)
  Emits-after_zone lawful (err e) = search label_rules

  Emits-provision : AppliesMutate env → Emits (LabelsTenant tenants) (provision env rec)
  unfolding provision
  Emits-provision lawful = search (label_rules, Emits-after_zone lawful)

  -- Where `CreateOrUpdate` leaves what the mutate function made, provisioning a DNSRecord labels
  -- what it writes: for a set of tenants with the object's tenant in it, if each child that was
  -- written before has the label `platform.inari.io/tenant` of one of them, so has each written
  -- after it.
  pub record_provision_labelled :
      AppliesMutate env
      → (w : World) → All (LabelsTenant tenants) w.trace
      → All (LabelsTenant tenants) (provision env rec w).1.trace
  record_provision_labelled lawful w = (Emits-provision lawful).all w

module _ (env : Env) (lawful : AppliesMutate env) (tenants : Str → Type 0)
    (mine : (t : Trace) (key : Key) (rec : DnsRecord)
      → env.get_dns_record t key ≡ ok rec
      → tenants rec.spec.tenant.tenant_id) where
  abbrev only : OnlyWrites (LabelsTenant tenants)
  only = LabelsTenant-OnlyWrites tenants

  pub LabelsTenant-reconcile : (key : Key) → Emits (LabelsTenant tenants) (reconcile env key)
  unfolding reconcile handler
  LabelsTenant-reconcile key =
      Emits-reconcile env only (handler env) (λ rec. Emits-pure _ _) (λ rec q. Emits-pure _ _)
        (λ rec q. Emits-pure _ _) key
        (λ rec q t got. record {
          all = record_provision_labelled env rec tenants (mine t key rec got) lawful;
        })
