-- ===== src/Reconcile/Lifecycle/Frame.antt =====
-- Outside `provision`, a reconcile writes nothing by `CreateOrUpdate`.
use inari_operator.Base.{true, false, ◌≡◌, ◌⊎◌, inl, inr, refl, ap, ◌∙◌, Bool-cases}
use inari_operator.Api.{Key, Resource, is_deleting}
use inari_operator.Cluster.Errors.{Error, ok, err, Result-cases}
use inari_operator.Cluster.Env.{Env, read}
use inari_operator.Cluster.Exec.{World, log, attempt, ◌>>=◌}
use inari_operator.Cluster.Exec.Keeps.{Keeps, applications, keeps_rules}
use inari_operator.Cluster.Calls.Keeps.{IgnoresUpdated-applications, call_keeps_rules}
use inari_operator.Cluster.Calls.{update}
use inari_operator.Common.{has_finalizer, ensure_finalizer, finalize, with_finalizers, finalizer}
use inari_operator.Reconcile.Lifecycle.{
  Handler, reconcile, dispatch, tear_down, bring_up, after_finalize, after_ensure,
}

module _ (env : Env) {S T P : Type 0} (h : Handler S T P)
    (prepare_keeps : (obj : Resource S T) → Keeps applications (h.prepare obj))
    (cleanup_keeps : (obj : Resource S T) (p : P) → Keeps applications (h.cleanup obj p))
    (announce_keeps : (obj : Resource S T) (p : P) → Keeps applications (h.announce obj p)) where
  Keeps-finalize :
      (obj : Resource S T) (p : P)
      → Keeps applications (finalize env h.wrap_object obj (h.cleanup obj p))
  unfolding finalize
  Keeps-finalize obj p =
      search (call_keeps_rules, IgnoresUpdated-applications, cleanup_keeps) depth 8

  Keeps-tear_down : (obj : Resource S T) (p : P) → Keeps applications (tear_down env h obj p)
  unfolding tear_down after_finalize
  Keeps-tear_down obj p = search (keeps_rules, Keeps-finalize, announce_keeps)

  abbrev Unchanged : World → World → Type 0
  Unchanged w v = applications v.trace ≡ applications w.trace

  bring_up_frame :
      (obj : Resource S T) (p : P) (w : World)
      → Unchanged w (bring_up env h obj p w).1
        ⊎ ((has_finalizer env h.wrap_object obj ≡ true)
            × (bring_up env h obj p w ≡ h.provision obj p w))
  unfolding bring_up ensure_finalizer after_ensure update ◌>>=◌
  bring_up_frame obj p w = elim (Bool-cases (has_finalizer env h.wrap_object obj)) [
    | inl has ↦ inr (has, rw has refl)
    | inr lacks ↦
        let added =
          with_finalizers env h.wrap_object obj
            (env.finalizer_list.add_finalizer obj.metadata.finalizers finalizer) in
        inl (
          rw lacks (elim (Result-cases (env.update w.trace (h.wrap_object added))) [
            | inl (u, e) ↦ rw e refl
            | inr (x, e) ↦ rw e refl
          ]))
  ]

  Keeps-absent : (e : Error) → Keeps applications (dispatch env h (err e))
  unfolding dispatch
  Keeps-absent e = search keeps_rules

  dispatch_frame :
      (obj : Resource S T) (w : World)
      → Unchanged w (dispatch env h (ok obj) w).1
        ⊎ ((p : P) × (w' : World) × (h.prepare obj w ≡ (ok p, w'))
            × (is_deleting obj ≡ false)
            × (has_finalizer env h.wrap_object obj ≡ true)
            × (dispatch env h (ok obj) w ≡ h.provision obj p w'))
  unfolding dispatch ◌>>=◌
  dispatch_frame obj w = elim (Result-cases (h.prepare obj w).0) [
    | inr (x, e) ↦ inl (rw e ((prepare_keeps obj).same w))
    | inl (p, e) ↦ elim (Bool-cases (is_deleting obj)) [
      | inl dying ↦ inl (
          rw (e, dying)
            ((Keeps-tear_down obj p).same (h.prepare obj w).1 ∙ (prepare_keeps obj).same w))
      | inr live ↦ elim (bring_up_frame obj p (h.prepare obj w).1) [
        | inl same ↦ inl (rw (e, live) (same ∙ (prepare_keeps obj).same w))
        | inr (has, work) ↦ inr (
          p,
          (h.prepare obj w).1,
          ap (λ r. (r, (h.prepare obj w).1)) e,
          live,
          has,
          rw (e, live) work,
        )
      ]
    ]
  ]

  -- For a kind whose `prepare`, `cleanup` and `announce` write nothing by `CreateOrUpdate`: a
  -- reconcile writes nothing so either, or Get returned a live object that holds the finalizer,
  -- `prepare` succeeded, and the reconcile does from there what `provision` does.
  pub reconcile_frame :
      (key : Key) (w : World)
      → (applications (reconcile env h key w).1.trace ≡ applications w.trace)
        ⊎ ((obj : Resource S T) × (p : P) × (w' : World) × (h.get w.trace key ≡ ok obj)
            × (h.prepare obj (log (read h.kind key) w) ≡ (ok p, w'))
            × (is_deleting obj ≡ false)
            × (has_finalizer env h.wrap_object obj ≡ true)
            × (reconcile env h key w ≡ h.provision obj p w'))
  unfolding reconcile attempt ◌>>=◌
  reconcile_frame key w = elim (Result-cases (h.get w.trace key)) [
    | inr (x, e) ↦ inl (rw e ((Keeps-absent x).same (log (read h.kind key) w)))
    | inl (obj, e) ↦ elim (dispatch_frame obj (log (read h.kind key) w)) [
      | inl same ↦ inl (rw e same)
      | inr (p, w', prepared, live, has, work) ↦ inr (obj, p, w', e, prepared, live, has, rw e work)
    ]
  ]
