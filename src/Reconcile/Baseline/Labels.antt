-- ===== src/Reconcile/Baseline/Labels.antt =====
-- The Application and the two ConfigMaps carry their tenant's label.
use inari_operator.Reconcile.Baseline.Writes.{Emits-provision}
use inari_operator.Cluster.Env.{Trace, Env}
use inari_operator.Api.{Key}
use inari_operator.Cluster.Exec.Emits.{Emits-pure, Emits}
use inari_operator.Cluster.Calls.Writes.{OnlyWrites}
use inari_operator.Reconcile.Lifecycle.Writes.{Emits-reconcile}
use inari_operator.Reconcile.Status.Labels.{LabelsTenant-OnlyWrites, LabelsTenant}
use inari_operator.Reconcile.Status.Writes.{write_rules}
use inari_operator.Text.{Str}
use inari_operator.Reconcile.Baseline.{
  reconcile, handler, announce, delete_children, provision, desired_child,
}
use inari_operator.Base.{◌≡◌, some, All, arith}
use inari_operator.Api.Items.{ClusterDex}
use inari_operator.Cluster.Errors.{ok}
use inari_operator.Cluster.Children.{Child, get_label}
use inari_operator.Cluster.Children.Labelled.{AppliesMutate, get_label-with_label}
use inari_operator.Cluster.Exec.{World}
use inari_operator.Common.{tenant_label}

module _ (env : Env) (cr : ClusterDex) (tenants : Str → Type 0)
    (mine : tenants cr.spec.tenant.tenant_id) where
  desired_child-label :
      (desired found left : Child)
      → desired_child cr desired found ≡ ok left
      → get_label tenant_label left.labels ≡ some cr.spec.tenant.tenant_id
  unfolding desired_child
  desired_child-label desired found left h =
      ground (arith, get_label-with_label tenant_label cr.spec.tenant.tenant_id found)

  -- Where `CreateOrUpdate` leaves what the mutate function made, provisioning a ClusterDex labels
  -- what it writes: for a set of tenants with the object's tenant in it, if each child that was
  -- written before has the label `platform.inari.io/tenant` of one of them, so has each written
  -- after it.
  pub baseline_provision_labelled :
      AppliesMutate env
      → (w : World) → All (LabelsTenant tenants) w.trace
      → All (LabelsTenant tenants) (provision env cr w).1.trace
  baseline_provision_labelled lawful w =
      (Emits-provision env cr (LabelsTenant-OnlyWrites tenants)
          (λ actor desired found left by_actor made.
            (cr.spec.tenant.tenant_id, desired_child-label desired found left made, mine))
          lawful).all
        w

module _ (env : Env) (lawful : AppliesMutate env) (tenants : Str → Type 0)
    (mine : (t : Trace) (key : Key) (cr : ClusterDex)
      → env.get_cluster_dex t key ≡ ok cr
      → tenants cr.spec.tenant.tenant_id) where
  abbrev only : OnlyWrites (LabelsTenant tenants)
  only = LabelsTenant-OnlyWrites tenants

  pub LabelsTenant-reconcile : (key : Key) → Emits (LabelsTenant tenants) (reconcile env key)
  unfolding reconcile handler announce delete_children
  LabelsTenant-reconcile key =
      Emits-reconcile env only (handler env) (λ cr. Emits-pure _ _)
        (λ cr q. search (write_rules, only)) (λ cr q. search (write_rules, only)) key
        (λ cr q t got. record {
          all = baseline_provision_labelled env cr tenants (mine t key cr got) lawful;
        })
