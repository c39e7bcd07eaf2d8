-- ===== src/Reconcile/Status/Keeps.antt =====
-- The shared status writes, for a view that does not show them.
use inari_operator.Api.Items.{Object}
use inari_operator.Cluster.Errors.{Result, ok, err}
use inari_operator.Cluster.Env.{Env, Trace}
use inari_operator.Cluster.Exec.{Exec}
use inari_operator.Cluster.Exec.Keeps.{Keeps}
use inari_operator.Cluster.Calls.Keeps.{Ignores, call_keeps_rules}
use inari_operator.Common.{ReconcileResult}
use inari_operator.Reconcile.Status.{try_status, save_status, after_save}

module _ (env : Env) {X : Type 0} {view : Trace → X} (ignores : Ignores view) where
  pub Keeps-try_status : (obj : Object) → Keeps view (try_status env obj)
  unfolding try_status
  Keeps-try_status obj = search (call_keeps_rules, ignores)

  Keeps-after_save :
      (next : Exec ReconcileResult) (r : Result (Unit {0}))
      → Keeps view next
      → Keeps view (after_save env next r)
  unfolding after_save
  Keeps-after_save next (ok u) h = h
  Keeps-after_save next (err e) h = search call_keeps_rules

  pub Keeps-save_status :
      (obj : Object) (next : Exec ReconcileResult)
      → Keeps view next
      → Keeps view (save_status env obj next)
  unfolding save_status
  Keeps-save_status obj next h = search (call_keeps_rules, ignores, Keeps-after_save)

pub ruleset status_keeps_rules = (call_keeps_rules, Keeps-try_status, Keeps-save_status)
