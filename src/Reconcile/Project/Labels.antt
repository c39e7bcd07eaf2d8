-- ===== src/Reconcile/Project/Labels.antt =====
-- The AppProject carries its tenant's label.
use inari_operator.Cluster.Env.{Trace, Env, operator}
use inari_operator.Api.{Key}
use inari_operator.Cluster.Exec.Emits.{Emits-pure, Emits, Emits-bind, Emits-attempt}
use inari_operator.Cluster.Calls.Writes.{OnlyWrites}
use inari_operator.Reconcile.Lifecycle.Writes.{Emits-reconcile}
use inari_operator.Reconcile.Status.Labels.{
  LabelsTenant-OnlyWrites, LabelsTenant, label_rules, Emits-labelled_write,
}
use inari_operator.Reconcile.Status.Writes.{write_rules}
use inari_operator.Text.{Str}
use inari_operator.Reconcile.Project.{
  reconcile, handler, announce, provision, after_write, project_child, child_key,
}
use inari_operator.Base.{◌≡◌, some, arith, All}
use inari_operator.Api.Items.{ArgoProject}
use inari_operator.Cluster.Errors.{Result, ok, err}
use inari_operator.Cluster.Children.{Child, get_label, named, app_project}
use inari_operator.Cluster.Children.Labelled.{AppliesMutate, get_label-with_label}
use inari_operator.Common.{tenant_label}
use inari_operator.Cluster.Exec.{World}

module _ (env : Env) (argocd_namespace : Str) (ap : ArgoProject) (tenants : Str → Type 0)
    (mine : tenants ap.spec.tenant.tenant_id) where
  project_child-label :
      (found left : Child)
      → project_child ap found ≡ ok left
      → get_label tenant_label left.labels ≡ some ap.spec.tenant.tenant_id
  unfolding project_child
  project_child-label found left h =
      ground (arith, get_label-with_label tenant_label ap.spec.tenant.tenant_id found)

  Emits-after_write : (r : Result Child) → Emits (LabelsTenant tenants) (after_write env ap r)
  unfolding after_write
  Emits-after_write (ok c) = search label_rules
  Emits-after_write (err e) = search label_rules

  Emits-provision :
      AppliesMutate env → Emits (LabelsTenant tenants) (provision env argocd_namespace ap)
  unfolding provision
  Emits-provision lawful =
      Emits-bind _ _ _
        (Emits-attempt _ _ (
          Emits-labelled_write env lawful {tenants = tenants} mine operator
            (named app_project (child_key env argocd_namespace ap)) (project_child ap)
            project_child-label))
        Emits-after_write

  -- Where `CreateOrUpdate` leaves what the mutate function made, provisioning an ArgoProject labels
  -- what it writes: for a set of tenants with the object's tenant in it, if each child that was
  -- written before has the label `platform.inari.io/tenant` of one of them, so has each written
  -- after it.
  pub project_provision_labelled :
      AppliesMutate env
      → (w : World) → All (LabelsTenant tenants) w.trace
      → All (LabelsTenant tenants) (provision env argocd_namespace ap w).1.trace
  project_provision_labelled lawful w = (Emits-provision lawful).all w

module _ (env : Env) (lawful : AppliesMutate env) (argocd_namespace : Str) (tenants : Str → Type 0)
    (mine : (t : Trace) (key : Key) (ap : ArgoProject)
      → env.get_argo_project t key ≡ ok ap
      → tenants ap.spec.tenant.tenant_id) where
  abbrev only : OnlyWrites (LabelsTenant tenants)
  only = LabelsTenant-OnlyWrites tenants

  pub LabelsTenant-reconcile :
      (key : Key) → Emits (LabelsTenant tenants) (reconcile env argocd_namespace key)
  unfolding reconcile handler announce
  LabelsTenant-reconcile key =
      Emits-reconcile env only (handler env argocd_namespace) (λ ap. Emits-pure _ _)
        (λ ap q. search (write_rules, only)) (λ ap q. search (write_rules, only)) key
        (λ ap q t got. record {
          all =
              project_provision_labelled env argocd_namespace ap tenants (mine t key ap got) lawful;
        })
