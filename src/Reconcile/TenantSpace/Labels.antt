-- ===== src/Reconcile/TenantSpace/Labels.antt =====
-- The children in a tenant's namespace carry its label.
use inari_operator.Cluster.Env.{Trace, Env, operator}
use inari_operator.Api.{Key}
use inari_operator.Cluster.Exec.Emits.{Emits-pure, Emits, Emits-bind, Emits-wrapping}
use inari_operator.Cluster.Calls.Writes.{OnlyWrites}
use inari_operator.Reconcile.Lifecycle.Writes.{Emits-reconcile}
use inari_operator.Reconcile.Status.Labels.{
  LabelsTenant-OnlyWrites, LabelsTenant, label_rules, Emits-labelled_write,
}
use inari_operator.Reconcile.Status.Writes.{write_rules}
use inari_operator.Text.{Str, bytes}
use inari_operator.Reconcile.TenantSpace.{
  reconcile, handler, announce, provision, after_materialize, materialize, namespace_child,
  binding_child, policy_child, quota_child, put_hard, hard_limits, reconcile_rbac,
  reconcile_network_policy, reconcile_quota, write_quota, Hard, namespace_key, inner_key, Str,
}
use inari_operator.Base.{◌≡◌, some, Option, none, arith, All}
use inari_operator.Api.Items.{TenantNamespace, TenantResourceQuota}
use inari_operator.Cluster.Errors.{Result, ok, err}
use inari_operator.Cluster.Children.{
  Child, get_label, named, namespace, role_binding, network_policy, resource_quota,
}
use inari_operator.Cluster.Children.Labelled.{AppliesMutate, get_label-with_label}
use inari_operator.Common.{tenant_label}
use inari_operator.Cluster.Exec.{World}

module _ (env : Env) (tn : TenantNamespace) (tenants : Str → Type 0)
    (mine : tenants tn.spec.tenant.tenant_id) where
  abbrev HasLabel : Child → Type 0
  HasLabel left = get_label tenant_label left.labels ≡ some tn.spec.tenant.tenant_id

  namespace_child-label : (found left : Child) → namespace_child tn found ≡ ok left → HasLabel left
  unfolding namespace_child
  namespace_child-label found left h =
      ground (arith, get_label-with_label tenant_label tn.spec.tenant.tenant_id found)

  binding_child-label : (found left : Child) → binding_child tn found ≡ ok left → HasLabel left
  unfolding binding_child
  binding_child-label found left h =
      ground (arith, get_label-with_label tenant_label tn.spec.tenant.tenant_id found)

  policy_child-label : (found left : Child) → policy_child tn found ≡ ok left → HasLabel left
  unfolding policy_child
  policy_child-label found left h =
      ground (arith, get_label-with_label tenant_label tn.spec.tenant.tenant_id found)

  put_hard-label :
      (found left : Child) (hard : Result Hard)
      → put_hard env tn found hard ≡ ok left
      → HasLabel left
  unfolding put_hard
  put_hard-label found left (ok hard) h =
      ground (arith, get_label-with_label tenant_label tn.spec.tenant.tenant_id found)
  put_hard-label found left (err e) h = cc

  quota_child-label :
      (q : TenantResourceQuota) (found left : Child)
      → quota_child env tn q found ≡ ok left
      → HasLabel left
  unfolding quota_child
  quota_child-label q found left h = put_hard-label found left (hard_limits env q) h

  Emits-after_materialize :
      (r : Result (Unit {0})) → Emits (LabelsTenant tenants) (after_materialize env tn r)
  unfolding after_materialize
  Emits-after_materialize (ok u) = search label_rules
  Emits-after_materialize (err e) = search label_rules

  module _ (lawful : AppliesMutate env) where
    Emits-reconcile_rbac : Emits (LabelsTenant tenants) (reconcile_rbac env tn)
    unfolding reconcile_rbac
    Emits-reconcile_rbac = search (
      label_rules,
      Emits-labelled_write env lawful {tenants = tenants} mine operator
          (named role_binding (inner_key tn (bytes "tenant-admin"))) (binding_child tn)
          binding_child-label,
    )

    Emits-reconcile_network_policy : Emits (LabelsTenant tenants) (reconcile_network_policy env tn)
    unfolding reconcile_network_policy
    Emits-reconcile_network_policy = search (
      label_rules,
      Emits-labelled_write env lawful {tenants = tenants} mine operator
          (named network_policy (inner_key tn (bytes "tenant-default-deny"))) (policy_child tn)
          policy_child-label,
    )

    Emits-write_quota :
        (q : Option TenantResourceQuota) → Emits (LabelsTenant tenants) (write_quota env tn q)
    unfolding write_quota
    Emits-write_quota none = search label_rules
    Emits-write_quota (some q) =
        Emits-bind _ _ _
          (Emits-wrapping _ _ _ (
            Emits-labelled_write env lawful {tenants = tenants} mine operator
              (named resource_quota (inner_key tn (bytes "tenant-quota"))) (quota_child env tn q)
              (quota_child-label q)))
          (λ _. Emits-pure _ _)

    Emits-materialize : Emits (LabelsTenant tenants) (materialize env tn)
    unfolding materialize reconcile_quota
    Emits-materialize =
        Emits-bind _ _ _
          (Emits-labelled_write env lawful {tenants = tenants} mine operator
            (named namespace (namespace_key tn)) (namespace_child tn) namespace_child-label)
          (λ _. Emits-bind _ _ _ Emits-reconcile_rbac (λ _.
            Emits-bind _ _ _ Emits-reconcile_network_policy
              (λ _. Emits-write_quota tn.spec.resource_quota)))

    Emits-provision : Emits (LabelsTenant tenants) (provision env tn)
    unfolding provision
    Emits-provision = search (label_rules, Emits-materialize, Emits-after_materialize)

  -- Where `CreateOrUpdate` leaves what the mutate function made, provisioning a TenantNamespace labels
  -- what it writes: for a set of tenants with the object's tenant in it, if each child that was
  -- written before has the label `platform.inari.io/tenant` of one of them, so has each written
  -- after it.
  pub space_provision_labelled :
      AppliesMutate env
      → (w : World) → All (LabelsTenant tenants) w.trace
      → All (LabelsTenant tenants) (provision env tn w).1.trace
  space_provision_labelled lawful w = (Emits-provision lawful).all w

module _ (env : Env) (lawful : AppliesMutate env) (tenants : Str → Type 0)
    (mine : (t : Trace) (key : Key) (tn : TenantNamespace)
      → env.get_tenant_namespace t key ≡ ok tn
      → tenants tn.spec.tenant.tenant_id) where
  abbrev only : OnlyWrites (LabelsTenant tenants)
  only = LabelsTenant-OnlyWrites tenants

  pub LabelsTenant-reconcile : (key : Key) → Emits (LabelsTenant tenants) (reconcile env key)
  unfolding reconcile handler announce
  LabelsTenant-reconcile key =
      Emits-reconcile env only (handler env) (λ tn. Emits-pure _ _)
        (λ tn q. search (write_rules, only)) (λ tn q. search (write_rules, only)) key
        (λ tn q t got. record {
          all = space_provision_labelled env tn tenants (mine t key tn got) lawful;
        })
