-- ===== src/Reconcile/Lifecycle/Laws.antt =====
-- The order of the lifecycle, for every kind: what a reconcile does before its object holds the
-- finalizer, and what it does before the finalizer goes.
use inari_operator.Base.{◌≡◌, true, false, if◌then◌else◌, inl, inr}
use inari_operator.Text.{bytes}
use inari_operator.Api.{Key, Resource, is_deleting}
use inari_operator.Cluster.Errors.{Error, Result, ok, err, Done, wrapped, Result-cases}
use inari_operator.Cluster.Env.{Env, read, updated}
use inari_operator.Cluster.Exec.{World, Exec, log, attempt, ◌>>=◌, raise, ◌>>◌}
use inari_operator.Cluster.Calls.{update}
use inari_operator.Common.{
  ReconcileResult, no_requeue, has_finalizer, with_finalizers, ensure_finalizer, finalize,
  finalizer, stop,
}
use inari_operator.Reconcile.Lifecycle.{Handler, reconcile, bring_up, tear_down}

abbrev pub settle : Done → Result ReconcileResult
settle (ok u) = ok no_requeue
settle (err e) = err (wrapped (bytes "add finalizer: ") e)

abbrev pub after_release : Done → Exec ReconcileResult → Exec ReconcileResult
after_release (ok u) next = next
after_release (err e) next = raise (wrapped (bytes "remove finalizer: ") e)

module _ (env : Env) {S T P : Type 0} (h : Handler S T P) (key : Key) (w : World) where
  abbrev pub fetched : World
  fetched = log (read h.kind key) w

  abbrev pub marked : Resource S T → Resource S T
  marked obj =
      with_finalizers env h.wrap_object obj
        (env.finalizer_list.add_finalizer obj.metadata.finalizers finalizer)

  abbrev pub released : Resource S T → Resource S T
  released obj =
      with_finalizers env h.wrap_object obj
        (env.finalizer_list.remove_finalizer obj.metadata.finalizers finalizer)

  module _ (obj : Resource S T) (p : P) (w' : World) (got : h.get w.trace key ≡ ok obj)
      (prepared : h.prepare obj fetched ≡ (ok p, w')) where
    reconcile_got :
        reconcile env h key w
        ≡ (if is_deleting obj then tear_down env h obj p else bring_up env h obj p) w'
    unfolding reconcile ◌>>=◌ attempt
    reconcile_got = rw (got, prepared)

    -- Where Get returns a live object without the finalizer, and `prepare` succeeds: beyond these two,
    -- the only call is the update that adds the finalizer, whose error is returned; nothing is
    -- provisioned.
    pub reconcile_unmarked :
        is_deleting obj ≡ false
        → has_finalizer env h.wrap_object obj ≡ false
        → let done = env.update w'.trace (h.wrap_object (marked obj)) in
          reconcile env h key w ≡ (settle done, log (updated (h.wrap_object (marked obj)) done) w')
    unfolding bring_up ensure_finalizer update ◌>>=◌
    reconcile_unmarked live unmarked =
        rw (reconcile_got, live, unmarked)
          (elim (Result-cases (env.update w'.trace (h.wrap_object (marked obj)))) [
            | inl (u, e) ↦ rw e
            | inr (x, e) ↦ rw e
          ])

    -- Where Get returns a live object with the finalizer, and `prepare` succeeds, the object is
    -- provisioned, with no other call.
    pub reconcile_marked :
        is_deleting obj ≡ false
        → has_finalizer env h.wrap_object obj ≡ true
        → reconcile env h key w ≡ h.provision obj p w'
    unfolding bring_up ensure_finalizer ◌>>=◌
    reconcile_marked live has = rw (reconcile_got, live, has)

    -- Where Get returns a deleted object whose finalizer is gone, and `prepare` succeeds, nothing more
    -- is called and nothing is asked for.
    pub reconcile_released :
        is_deleting obj ≡ true
        → has_finalizer env h.wrap_object obj ≡ false
        → reconcile env h key w ≡ (ok no_requeue, w')
    unfolding tear_down finalize ◌>>=◌
    reconcile_released dying has = rw (reconcile_got, dying, has)

    -- Where Get returns a deleted object with the finalizer, `prepare` succeeds and the cleanup fails,
    -- the error of the cleanup is returned and nothing is called after it: the object keeps its
    -- finalizer.
    pub reconcile_cleanup_failed :
        {e : Error} {v : World}
        → is_deleting obj ≡ true
        → has_finalizer env h.wrap_object obj ≡ true
        → h.cleanup obj p w' ≡ (err e, v)
        → reconcile env h key w ≡ (err e, v)
    unfolding tear_down finalize ◌>>=◌
    reconcile_cleanup_failed dying has failed = rw (reconcile_got, dying, has, failed)

    -- Where Get returns a deleted object with the finalizer, `prepare` and the cleanup succeed, the next
    -- call is the update that removes the finalizer, whose error is returned, and the event follows
    -- where that succeeds.
    pub reconcile_cleaned :
        {v : World}
        → is_deleting obj ≡ true
        → has_finalizer env h.wrap_object obj ≡ true
        → h.cleanup obj p w' ≡ (ok tt, v)
        → let done = env.update v.trace (h.wrap_object (released obj)) in
          reconcile env h key w
          ≡ after_release done
              (h.announce obj p >> stop)
              (log (updated (h.wrap_object (released obj)) done) v)
    unfolding tear_down finalize update ◌>>=◌
    reconcile_cleaned {v} dying has cleaned =
        rw (reconcile_got, dying, has, cleaned)
          (elim (Result-cases (env.update v.trace (h.wrap_object (released obj)))) [
            | inl (u, e) ↦ rw e
            | inr (x, e) ↦ rw e
          ])
