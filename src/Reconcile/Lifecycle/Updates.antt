-- ===== src/Reconcile/Lifecycle/Updates.antt =====
-- The calls of `Update` of a reconcile, for every kind.
use inari_operator.Base.{◌≡◌, ◌⊎◌, inl, inr, refl, ap, sym, ◌∙◌, true, false, Bool-cases, ◌∷◌}
use inari_operator.Api.{Key, Resource, is_deleting}
use inari_operator.Cluster.Errors.{Error, Done, ok, err, Result-cases}
use inari_operator.Cluster.Env.{Env, Call, updated, read}
use inari_operator.Cluster.Exec.{World, Exec, log, attempt, ◌>>=◌, ◌>>◌}
use inari_operator.Cluster.Exec.Keeps.{Keeps, updates, keeps_rules}
use inari_operator.Common.{ReconcileResult, has_finalizer, stop}
use inari_operator.Reconcile.Lifecycle.{Handler, reconcile, dispatch}
use inari_operator.Reconcile.Lifecycle.Laws.{
  marked, released, after_release, reconcile_marked, reconcile_unmarked, reconcile_released,
  reconcile_cleanup_failed, reconcile_cleaned,
}

module _ (env : Env) {S T P : Type 0} (h : Handler S T P) (key : Key) where
  -- Get returned the object, and `prepare` succeeded.
  pub record Reached (w : World) : Type 0 where
    pub obj : Resource S T
    pub prepared : P
    pub world : World
    pub got : h.get w.trace key ≡ ok obj
    pub prepares : h.prepare obj (log (read h.kind key) w) ≡ (ok prepared, world)

  -- Why nothing is updated: Get or `prepare` failed, the object was live with the finalizer and was
  -- provisioned, or it was deleted and its finalizer gone or its cleanup failed.
  pub data Quiet (w : World) : Type 0 where
    absent : (e : Error) → h.get w.trace key ≡ err e → Quiet w
    unprepared :
        (obj : Resource S T) (e : Error)
        → h.get w.trace key ≡ ok obj
        → (h.prepare obj (log (read h.kind key) w)).0 ≡ err e
        → Quiet w
    provisioned :
        (r : Reached w)
        → is_deleting r.obj ≡ false
        → has_finalizer env h.wrap_object r.obj ≡ true
        → reconcile env h key w ≡ h.provision r.obj r.prepared r.world
        → Quiet w
    gone :
        (r : Reached w)
        → is_deleting r.obj ≡ true
        → has_finalizer env h.wrap_object r.obj ≡ false
        → Quiet w
    uncleaned :
        (r : Reached w) (e : Error)
        → is_deleting r.obj ≡ true
        → has_finalizer env h.wrap_object r.obj ≡ true
        → (h.cleanup r.obj r.prepared r.world).0 ≡ err e
        → Quiet w

  abbrev pub marking : (w : World) → Reached w → Call
  marking w r =
      let object = h.wrap_object (marked env h key w r.obj) in
      updated object (env.update r.world.trace object)

  -- The object was live and lacked the finalizer: the one `Update` adds it, and nothing is called
  -- after it.
  pub record Marks (w v : World) : Type 0 where
    pub at : Reached w
    pub live : is_deleting at.obj ≡ false
    pub lacked : has_finalizer env h.wrap_object at.obj ≡ false
    pub last : v ≡ log (marking w at) at.world
    pub only : updates v.trace ≡ marking w at ∷ updates w.trace

  -- The object was deleted and had the finalizer: the one `Update` removes it, and was sent from a
  -- world in which the cleanup had succeeded.
  pub record Releases (w v : World) : Type 0 where
    pub at : Reached w
    pub deleted : is_deleting at.obj ≡ true
    pub had : has_finalizer env h.wrap_object at.obj ≡ true
    pub cleaned : World
    pub cleans : h.cleanup at.obj at.prepared at.world ≡ (ok tt, cleaned)
    pub only :
        updates v.trace
        ≡ updated
            (h.wrap_object (released env h key w at.obj))
            (env.update cleaned.trace (h.wrap_object (released env h key w at.obj)))
          ∷ updates w.trace

  abbrev pub Outcome : World → World → Type 0
  Outcome w v = ((updates v.trace ≡ updates w.trace) × Quiet w) ⊎ (Marks w v ⊎ Releases w v)

  module _ (prepare_keeps : (obj : Resource S T) → Keeps updates (h.prepare obj))
      (cleanup_keeps : (obj : Resource S T) (p : P) → Keeps updates (h.cleanup obj p))
      (announce_keeps : (obj : Resource S T) (p : P) → Keeps updates (h.announce obj p))
      (provision_keeps : (obj : Resource S T) (p : P) → Keeps updates (h.provision obj p)) where
    updates-after_release :
        (d : Done) (next : Exec ReconcileResult) (u : World)
        → Keeps updates next
        → updates (after_release d next u).1.trace ≡ updates u.trace
    updates-after_release (ok x) next u keeps = keeps.same u
    updates-after_release (err e) next u keeps = refl

    Keeps-announced : (obj : Resource S T) (p : P) → Keeps updates (h.announce obj p >> stop)
    Keeps-announced obj p = search (keeps_rules, announce_keeps)

    module _ (w : World) where
      same-Reached : (r : Reached w) → updates r.world.trace ≡ updates w.trace
      same-Reached r =
          ap (λ q. updates q.1.trace) (sym r.prepares)
          ∙ (prepare_keeps r.obj).same (log (read h.kind key) w)

      abbrev end : World
      end = (reconcile env h key w).1

      live-Outcome : (r : Reached w) → is_deleting r.obj ≡ false → Outcome w end
      live-Outcome r live = elim (Bool-cases (has_finalizer env h.wrap_object r.obj)) [
        | inl has ↦ inl (
          ap (λ q. updates q.1.trace)
                (reconcile_marked env h key w r.obj r.prepared r.world r.got r.prepares live has)
              ∙ (provision_keeps r.obj r.prepared).same r.world
              ∙ same-Reached r,
          provisioned r live has
              (reconcile_marked env h key w r.obj r.prepared r.world r.got r.prepares live has),
        )
        | inr lacks ↦
            let object = h.wrap_object (marked env h key w r.obj) in
            let done =
              reconcile_unmarked env h key w r.obj r.prepared r.world r.got r.prepares live lacks in
            inr (
              inl (record {
                at = r;
                live = live;
                lacked = lacks;
                last = ap (λ q. q.1) done;
                only =
                    ap (λ q. updates q.1.trace) done
                    ∙ ap (λ t. updated object (env.update r.world.trace object) ∷ t)
                        (same-Reached r);
              }))
      ]

      cleaned-Outcome :
          (r : Reached w)
          → is_deleting r.obj ≡ true
          → has_finalizer env h.wrap_object r.obj ≡ true
          → Outcome w end
      cleaned-Outcome r dying has =
          let cleanup = h.cleanup r.obj r.prepared r.world in
          let kept = (cleanup_keeps r.obj r.prepared).same r.world ∙ same-Reached r in
          elim (Result-cases cleanup.0) [
            | inr (e, failed) ↦ inl (
              ap (λ q. updates q.1.trace)
                    (reconcile_cleanup_failed env h key w r.obj r.prepared r.world r.got r.prepares
                      dying has (ap (λ q. (q, cleanup.1)) failed))
                  ∙ kept,
              uncleaned r e dying has failed,
            )
            | inl (u, went) ↦
                let object = h.wrap_object (released env h key w r.obj) in
                let answer = env.update cleanup.1.trace object in
                let cleans = ap (λ q. (q, cleanup.1)) went in
                inr (
                  inr (record {
                    at = r;
                    deleted = dying;
                    had = has;
                    cleaned = cleanup.1;
                    cleans = cleans;
                    only =
                        ap (λ q. updates q.1.trace)
                          (reconcile_cleaned env h key w r.obj r.prepared r.world r.got r.prepares
                            dying has cleans)
                        ∙ updates-after_release answer (h.announce r.obj r.prepared >> stop)
                            (log (updated object answer) cleanup.1)
                            (Keeps-announced r.obj r.prepared)
                        ∙ ap (λ t. updated object answer ∷ t) kept;
                  }))
          ]

      dying-Outcome : (r : Reached w) → is_deleting r.obj ≡ true → Outcome w end
      dying-Outcome r dying = elim (Bool-cases (has_finalizer env h.wrap_object r.obj)) [
        | inl has ↦ cleaned-Outcome r dying has
        | inr lacks ↦ inl (
          ap (λ q. updates q.1.trace)
                (reconcile_released env h key w r.obj r.prepared r.world r.got r.prepares dying
                  lacks)
              ∙ same-Reached r,
          gone r dying lacks,
        )
      ]

      Keeps-absent : (e : Error) → Keeps updates (dispatch env h (err e))
      unfolding dispatch
      Keeps-absent e = search keeps_rules

      same_unprepared :
          (obj : Resource S T) (e : Error)
          → h.get w.trace key ≡ ok obj
          → (h.prepare obj (log (read h.kind key) w)).0 ≡ err e
          → updates end.trace ≡ updates w.trace
      unfolding reconcile dispatch attempt ◌>>=◌
      same_unprepared obj e got failed =
          rw (got, failed) ((prepare_keeps obj).same (log (read h.kind key) w))

      same_absent : (e : Error) → h.get w.trace key ≡ err e → updates end.trace ≡ updates w.trace
      unfolding reconcile attempt ◌>>=◌
      same_absent e failed = rw failed ((Keeps-absent e).same (log (read h.kind key) w))

      -- For a kind whose own steps call no `Update`, a reconcile calls it at most once. Where Get
      -- returned the object and `prepare` succeeded: for a live object without the finalizer the
      -- `Update` adds it, and is the last call; for a deleted object with the finalizer an `Update`
      -- that removes it is sent if and only if its cleanup succeeded, and after the cleanup; for any
      -- other object none is sent, and of these a live one with the finalizer is provisioned.
      pub reconcile_updates : Outcome w (reconcile env h key w).1
      reconcile_updates = elim (Result-cases (h.get w.trace key)) [
        | inr (e, failed) ↦ inl (same_absent e failed, absent e failed)
        | inl (obj, got) ↦
            let before = h.prepare obj (log (read h.kind key) w) in
            elim (Result-cases before.0) [
              | inr (e, failed) ↦
                  inl (same_unprepared obj e got failed, unprepared obj e got failed)
              | inl (p, went) ↦
                  let r : Reached w = record {
                    obj = obj;
                    prepared = p;
                    world = before.1;
                    got = got;
                    prepares = ap (λ q. (q, before.1)) went;
                  } in
                  elim (Bool-cases (is_deleting obj)) [
                    | inl dying ↦ dying-Outcome r dying
                    | inr live ↦ live-Outcome r live
                  ]
            ]
      ]
