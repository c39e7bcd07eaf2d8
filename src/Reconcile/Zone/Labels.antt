-- ===== src/Reconcile/Zone/Labels.antt =====
-- The reconciler of zones writes no child.
use inari_operator.Api.{Key}
use inari_operator.Cluster.Env.{Env, Call}
use inari_operator.Cluster.Exec.Emits.{Emits, Emits-pure}
use inari_operator.Cluster.Calls.Writes.{OnlyWrites}
use inari_operator.Reconcile.Status.Writes.{write_rules}
use inari_operator.Reconcile.Lifecycle.Writes.{Emits-reconcile}
use inari_operator.Reconcile.Zone.{reconcile, handler, provision}

module _ (env : Env) {P : Call → Type 0} (only : OnlyWrites P) where
  pub Emits-zone_reconcile : (key : Key) → Emits P (reconcile env key)
  unfolding reconcile handler provision
  Emits-zone_reconcile key =
      Emits-reconcile env only (handler env) (λ zone. Emits-pure _ _) (λ zone q. Emits-pure _ _)
        (λ zone q. Emits-pure _ _) key (λ zone q t got. search (write_rules, only))
