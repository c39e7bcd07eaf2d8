-- ===== src/Reconcile/Status.antt =====
-- Status writes that the reconcilers share, and deletes that a missing object does not fail.
pub mod Writes
pub mod Keeps
pub mod Labels
use inari_operator.Base.{ℕ}
use inari_operator.Text.{Str}
use inari_operator.Api.{Key}
use inari_operator.Api.Items.{Object}
use inari_operator.Cluster.Errors.{Error, Result, ok, err, ignore_not_found}
use inari_operator.Cluster.Children.{ChildKind}
use inari_operator.Cluster.Env.{Env, Actor}
use inari_operator.Cluster.Exec.{Exec, pure, raise, attempt, lift, ◌>>=◌, ◌>>◌}
use inari_operator.Cluster.Calls.{update_status, delete_child}
use inari_operator.Common.{ReconcileResult, stop_unless}

module _ (env : Env) where
  -- `_ = r.Status().Update(ctx, obj)`.
  unfoldable pub try_status : Object → Exec (Unit {0})
  try_status obj = attempt (update_status env obj) >> pure tt

  after_save : Exec ReconcileResult → Result (Unit {0}) → Exec ReconcileResult
  after_save next (ok u) = next
  after_save next (err e) = stop_unless e

  -- `if err := r.Status().Update(ctx, obj); err != nil { return ctrl.Result{}, IgnoreNotFound(err) }`.
  unfoldable pub save_status : Object → Exec ReconcileResult → Exec ReconcileResult
  unfolding after_save
  save_status obj next = do saved ← attempt (update_status env obj); after_save next saved

  -- `client.IgnoreNotFound(c.Delete(ctx, child))`.
  unfoldable pub delete_if_present : Actor → ChildKind → Key → Exec (Unit {0})
  delete_if_present actor kind key = do
    done ← attempt (delete_child env actor kind key)
    lift (ignore_not_found done)
