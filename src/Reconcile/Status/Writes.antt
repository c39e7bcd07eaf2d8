-- ===== src/Reconcile/Status/Writes.antt =====
-- The shared writes of the reconcilers, for a predicate that only restricts what is written.
use inari_operator.Api.{TenantReference, Key}
use inari_operator.Api.Items.{Object}
use inari_operator.Cluster.Errors.{Result, ok, err}
use inari_operator.Cluster.Children.{ChildKind}
use inari_operator.Cluster.Env.{Env, Call, Actor}
use inari_operator.Cluster.Exec.{Exec}
use inari_operator.Cluster.Exec.Emits.{Emits}
use inari_operator.Cluster.Calls.Writes.{OnlyWrites, call_rules}
use inari_operator.Common.{ReconcileResult, impersonating_client}
use inari_operator.Reconcile.Status.{try_status, save_status, delete_if_present, after_save}

module _ (env : Env) {P : Call → Type 0} (only : OnlyWrites P) where
  pub Emits-try_status : (obj : Object) → Emits P (try_status env obj)
  unfolding try_status
  Emits-try_status obj = search (call_rules, only)

  Emits-after_save :
      (next : Exec ReconcileResult) (r : Result (Unit {0}))
      → Emits P next
      → Emits P (after_save env next r)
  unfolding after_save
  Emits-after_save next (ok u) h = h
  Emits-after_save next (err e) h = search call_rules

  pub Emits-save_status :
      (obj : Object) (next : Exec ReconcileResult)
      → Emits P next
      → Emits P (save_status env obj next)
  unfolding save_status
  Emits-save_status obj next h = search (call_rules, only, Emits-after_save)

  pub Emits-delete_if_present :
      (a : Actor) (k : ChildKind) (n : Key) → Emits P (delete_if_present env a k n)
  unfolding delete_if_present
  Emits-delete_if_present a k n = search (call_rules, only)

  pub Emits-impersonating_client : (t : TenantReference) → Emits P (impersonating_client env t)
  unfolding impersonating_client
  Emits-impersonating_client t = search (call_rules, only)

pub ruleset write_rules = (
  call_rules, Emits-try_status, Emits-save_status, Emits-delete_if_present,
  Emits-impersonating_client,
)
