-- ===== src/Reconcile/Lifecycle.antt =====
-- The frame that every `Reconcile` of internal/controller has: Get, the deletion branch with
-- `finalize`, `ensureFinalizer`, and only then the work on a live object.
pub mod Laws
pub mod Frame
pub mod Updates
pub mod Writes
use inari_operator.Base.{Bool, true, false, if◌then◌else◌}
use inari_operator.Api.{Key, Resource, is_deleting}
use inari_operator.Api.Items.{Object}
use inari_operator.Cluster.Errors.{Result, ok, err}
use inari_operator.Cluster.Env.{Env, Trace, Kind}
use inari_operator.Cluster.Exec.{Exec, pure, attempt, ◌>>=◌, ◌>>◌}
use inari_operator.Cluster.Calls.{fetch}
use inari_operator.Common.{ReconcileResult, stop, stop_unless, ensure_finalizer, finalize}

-- What is particular to a kind. `prepare` runs between Get and the deletion branch, `cleanup` is the
-- function that `finalize` is given, `announce` the event after it.
pub record Handler (S T P : Type 0) : Type 0 where
  pub kind : Kind
  pub get : Trace → Key → Result (Resource S T)
  pub wrap_object : Resource S T → Object
  pub prepare : Resource S T → Exec P
  pub cleanup : Resource S T → P → Exec (Unit {0})
  pub announce : Resource S T → P → Exec (Unit {0})
  pub provision : Resource S T → P → Exec ReconcileResult

module _ (env : Env) {S T P : Type 0} (h : Handler S T P) where
  after_finalize : Resource S T → P → Bool → Exec ReconcileResult
  after_finalize obj p deleted = if deleted then (h.announce obj p >> stop) else stop

  tear_down : Resource S T → P → Exec ReconcileResult
  unfolding after_finalize
  tear_down obj p = do
    deleted ← finalize env h.wrap_object obj (h.cleanup obj p)
    after_finalize obj p deleted

  after_ensure : Resource S T → P → Bool → Exec ReconcileResult
  after_ensure obj p added = if added then stop else h.provision obj p

  bring_up : Resource S T → P → Exec ReconcileResult
  unfolding after_ensure
  bring_up obj p = do added ← ensure_finalizer env h.wrap_object obj; after_ensure obj p added

  dispatch : Result (Resource S T) → Exec ReconcileResult
  unfolding tear_down bring_up
  dispatch (err e) = stop_unless e
  dispatch (ok obj) = do
    p ← h.prepare obj
    if is_deleting obj then tear_down obj p else bring_up obj p

  unfoldable pub reconcile : Key → Exec ReconcileResult
  unfolding dispatch
  reconcile key = do got ← attempt (fetch h.kind key h.get); dispatch got
