-- ===== src/Reconcile/Lifecycle/Writes.antt =====
-- The calls of a reconcile, for a predicate that only restricts what is written.
use inari_operator.Base.{◌≡◌, refl}
use inari_operator.Api.{Key, Resource}
use inari_operator.Api.Items.{Object}
use inari_operator.Cluster.Errors.{Result, ok, err}
use inari_operator.Cluster.Env.{Env, Trace, Call, read}
use inari_operator.Cluster.Exec.{Exec, log, attempt, ◌>>=◌}
use inari_operator.Cluster.Exec.Emits.{Emits, Emits-if, Emits-bind, Emits-pure}
use inari_operator.Cluster.Calls.{update}
use inari_operator.Cluster.Calls.Writes.{OnlyWrites, call_rules}
use inari_operator.Common.{ensure_finalizer, finalize}
use inari_operator.Reconcile.Lifecycle.{
  Handler, reconcile, dispatch, tear_down, bring_up, after_finalize, after_ensure,
}

module _ (env : Env) {P : Call → Type 0} (only : OnlyWrites P) where
  Emits-update : (obj : Object) → Emits P (update env obj)
  unfolding update
  Emits-update obj = record { all = λ w h. (only.on_updated obj _, h) }

  module _ {S T : Type 0} (wrap_object : Resource S T → Object) (obj : Resource S T) where
    Emits-ensure_finalizer : Emits P (ensure_finalizer env wrap_object obj)
    unfolding ensure_finalizer
    Emits-ensure_finalizer = search (call_rules, Emits-update)

    Emits-finalize :
        (cleanup : Exec (Unit {0}))
        → Emits P cleanup
        → Emits P (finalize env wrap_object obj cleanup)
    unfolding finalize
    Emits-finalize cleanup h = search (call_rules, Emits-update)

module _ (env : Env) {P : Call → Type 0} (only : OnlyWrites P) {S T Q : Type 0} (h : Handler S T Q)
    (prepares : (obj : Resource S T) → Emits P (h.prepare obj))
    (cleans : (obj : Resource S T) (q : Q) → Emits P (h.cleanup obj q))
    (announces : (obj : Resource S T) (q : Q) → Emits P (h.announce obj q)) where
  Emits-tear_down : (obj : Resource S T) (q : Q) → Emits P (tear_down env h obj q)
  unfolding tear_down after_finalize
  Emits-tear_down obj q =
      search (call_rules, Emits-finalize env only h.wrap_object obj, cleans, announces)

  Emits-bring_up :
      (obj : Resource S T) (q : Q) → Emits P (h.provision obj q) → Emits P (bring_up env h obj q)
  unfolding bring_up after_ensure
  Emits-bring_up obj q works =
      Emits-bind _ _ _ (Emits-ensure_finalizer env only h.wrap_object obj)
        (λ added. Emits-if _ _ _ _ (Emits-pure _ _) works)

  Emits-dispatch :
      (got : Result (Resource S T))
      → ((obj : Resource S T) (q : Q) → got ≡ ok obj → Emits P (h.provision obj q))
      → Emits P (dispatch env h got)
  unfolding dispatch
  Emits-dispatch (err e) works = search call_rules
  Emits-dispatch (ok obj) works =
      Emits-bind _ _ _ (prepares obj)
        (λ q. Emits-if _ _ _ _ (Emits-tear_down obj q) (Emits-bring_up obj q (works obj q refl)))

  -- What a reconcile writes is what `provision` writes for an object that Get returns.
  pub Emits-reconcile :
      (key : Key)
      → ((obj : Resource S T) (q : Q) (t : Trace)
          → h.get t key ≡ ok obj
          → Emits P (h.provision obj q))
      → Emits P (reconcile env h key)
  unfolding reconcile attempt ◌>>=◌
  Emits-reconcile key works = record {
    all = λ w sofar.
        (Emits-dispatch (h.get w.trace key) (λ obj q got. works obj q w.trace got)).all
          (log (read h.kind key) w) (only.on_read h.kind key, sofar);
  }
