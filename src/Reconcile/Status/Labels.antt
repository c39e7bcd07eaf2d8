-- ===== src/Reconcile/Status/Labels.antt =====
-- The label as a predicate on what is written.
use inari_operator.Cluster.Calls.{create_or_update}
use inari_operator.Cluster.Exec.Emits.{Emits}
use inari_operator.Cluster.Errors.{ok, Result}
use inari_operator.Text.{Str}
use inari_operator.Cluster.Children.Labelled.{Labelled, AppliesMutate}
use inari_operator.Cluster.Env.{Call, Env, Actor}
use inari_operator.Common.{tenant_label}
use inari_operator.Cluster.Calls.Writes.{OnlyWrites, Emits-create_or_update}
use inari_operator.Reconcile.Status.Writes.{write_rules}
use inari_operator.Cluster.Children.{Child, get_label}
use inari_operator.Base.{◌≡◌, some}

-- Each child in the cluster that the action wrote has the label of one of these tenants.
abbrev pub LabelsTenant : (Str → Type 0) → Call → Type 0
LabelsTenant tenants = Labelled tenant_label tenants

pub LabelsTenant-OnlyWrites : (tenants : Str → Type 0) → OnlyWrites (LabelsTenant tenants)
LabelsTenant-OnlyWrites tenants = record {
  on_read = λ k n. tt;
  on_updated = λ o d. tt;
  on_status_updated = λ o d. tt;
  on_deleted = λ a k n d. tt;
  on_refused = λ a k n e. tt;
  on_connected = λ u d. tt;
  on_sent = λ r a. tt;
  on_emitted = λ k n t r m. tt;
}

pub ruleset label_rules = (write_rules, LabelsTenant-OnlyWrites)

module _ (env : Env) (lawful : AppliesMutate env) {tenants : Str → Type 0} {tenant : Str}
    (mine : tenants tenant) where
  pub Emits-labelled_write :
      (a : Actor) (child : Child) (mutate : Child → Result Child)
      → ((found left : Child)
          → mutate found ≡ ok left
          → get_label tenant_label left.labels ≡ some tenant)
      → Emits (LabelsTenant tenants) (create_or_update env a child mutate)
  Emits-labelled_write a child mutate labels =
      Emits-create_or_update env (LabelsTenant-OnlyWrites tenants) lawful a child mutate
        (λ found left made. (tenant, labels found left made, mine))
