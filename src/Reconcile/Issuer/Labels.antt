-- ===== src/Reconcile/Issuer/Labels.antt =====
-- The ClusterIssuer carries its tenant's label.
use inari_operator.Cluster.Env.{Trace, Env, operator}
use inari_operator.Api.{Key}
use inari_operator.Cluster.Exec.Emits.{Emits-pure, Emits, Emits-bind, Emits-attempt}
use inari_operator.Cluster.Calls.Writes.{OnlyWrites}
use inari_operator.Reconcile.Lifecycle.Writes.{Emits-reconcile}
use inari_operator.Reconcile.Status.Labels.{
  LabelsTenant-OnlyWrites, LabelsTenant, label_rules, Emits-labelled_write,
}
use inari_operator.Reconcile.Status.Writes.{write_rules}
use inari_operator.Text.{Str}
use inari_operator.Reconcile.Issuer.{
  reconcile, handler, announce, provision, after_write, issuer_child, put_spec, child_key,
  build_cluster_issuer_spec, Str,
}
use inari_operator.Base.{◌≡◌, some, arith, All}
use inari_operator.Api.Items.{CertIssuer}
use inari_operator.Cluster.Errors.{Result, ok, err}
use inari_operator.Cluster.Children.{Child, get_label, named, Value, cluster_issuer}
use inari_operator.Cluster.Children.Labelled.{AppliesMutate, get_label-with_label}
use inari_operator.Common.{tenant_label}
use inari_operator.Cluster.Exec.{World}

module _ (env : Env) (ci : CertIssuer) (tenants : Str → Type 0)
    (mine : tenants ci.spec.tenant.tenant_id) where
  put_spec-label :
      (found left : Child) (v : Result Value)
      → put_spec env ci found v ≡ ok left
      → get_label tenant_label left.labels ≡ some ci.spec.tenant.tenant_id
  unfolding put_spec
  put_spec-label found left (ok v) h =
      ground (arith, get_label-with_label tenant_label ci.spec.tenant.tenant_id found)
  put_spec-label found left (err e) h = cc

  pub issuer_child-label :
      (found left : Child)
      → issuer_child env ci found ≡ ok left
      → get_label tenant_label left.labels ≡ some ci.spec.tenant.tenant_id
  unfolding issuer_child
  issuer_child-label found left h = put_spec-label found left (build_cluster_issuer_spec env ci) h

  Emits-after_write : (r : Result Child) → Emits (LabelsTenant tenants) (after_write env ci r)
  unfolding after_write
  Emits-after_write (ok c) = search label_rules
  Emits-after_write (err e) = search label_rules

  Emits-provision : AppliesMutate env → Emits (LabelsTenant tenants) (provision env ci)
  unfolding provision
  Emits-provision lawful =
      Emits-bind _ _ _
        (Emits-attempt _ _ (
          Emits-labelled_write env lawful {tenants = tenants} mine operator
            (named cluster_issuer (child_key env ci)) (issuer_child env ci) issuer_child-label))
        Emits-after_write

  -- Where `CreateOrUpdate` leaves what the mutate function made, provisioning a CertIssuer labels
  -- what it writes: for a set of tenants with the object's tenant in it, if each child that was
  -- written before has the label `platform.inari.io/tenant` of one of them, so has each written
  -- after it.
  pub issuer_provision_labelled :
      AppliesMutate env
      → (w : World) → All (LabelsTenant tenants) w.trace
      → All (LabelsTenant tenants) (provision env ci w).1.trace
  issuer_provision_labelled lawful w = (Emits-provision lawful).all w

module _ (env : Env) (lawful : AppliesMutate env) (tenants : Str → Type 0)
    (mine : (t : Trace) (key : Key) (ci : CertIssuer)
      → env.get_cert_issuer t key ≡ ok ci
      → tenants ci.spec.tenant.tenant_id) where
  abbrev only : OnlyWrites (LabelsTenant tenants)
  only = LabelsTenant-OnlyWrites tenants

  pub LabelsTenant-reconcile : (key : Key) → Emits (LabelsTenant tenants) (reconcile env key)
  unfolding reconcile handler announce
  LabelsTenant-reconcile key =
      Emits-reconcile env only (handler env) (λ ci. Emits-pure _ _)
        (λ ci q. search (write_rules, only)) (λ ci q. search (write_rules, only)) key
        (λ ci q t got. record {
          all = issuer_provision_labelled env ci tenants (mine t key ci got) lawful;
        })
