-- ===== src/Reconcile/Zone/Converges.antt =====
-- A zone becomes ready, and is then left alone.
use inari_operator.Base.{
  ℕ, zero, suc, ◌≡◌, refl, ap, sym, ◌∙◌, inl, inr, true, false, Bool-cases, ==_refl, subst, List,
  ◌∷◌,
}
use inari_operator.Text.{Str, str_eq}
use inari_operator.Api.{Key, is_deleting}
use inari_operator.Api.Conditions.{IsLawful, reason_ready}
use inari_operator.Api.Conditions.Laws.{status_conditions_ready-set_ready}
use inari_operator.Api.Items.{DnsZone, dns_zone, Object}
use inari_operator.Cluster.Errors.{ok}
use inari_operator.Cluster.Env.{
  Env, Trace, Kind, EventType, read, updated, status_updated, emitted, dns_zones,
}
use inari_operator.Cluster.Exec.{World, log, ◌>>=◌, attempt}
use inari_operator.Cluster.Calls.{event, update_status}
use inari_operator.Common.{has_finalizer, no_requeue, finalizer}
use inari_operator.Reconcile.Lifecycle.Laws.{reconcile_marked, reconcile_unmarked, marked}
use inari_operator.Reconcile.Status.{save_status}
use inari_operator.Reconcile.Zone.{reconcile, handler, provision, is_settled, delegated}

module _ (env : Env) (key : Key) (current : Trace → DnsZone) where
  -- An API server that keeps one zone, without other writers and without failures, as documented: an
  -- update leaves the status alone, a status update leaves all else.
  pub record IsStore : Type 0 where
    pub found : (t : Trace) → env.get_dns_zone t key ≡ ok (current t)
    pub updates : (t : Trace) (o : Object) → env.update t o ≡ ok tt
    pub updates_status : (t : Trace) (o : Object) → env.update_status t o ≡ ok tt
    pub on_updated :
        (t : Trace) (z : DnsZone)
        → current (updated (dns_zone z) (ok tt) ∷ t) ≡ record z { status = (current t).status }
    pub on_status_updated :
        (t : Trace) (z : DnsZone)
        → current (status_updated (dns_zone z) (ok tt) ∷ t)
          ≡ record (current t) { status = z.status }
    pub on_read : (t : Trace) (k : Kind) (n : Key) → current (read k n ∷ t) ≡ current t
    pub on_emitted :
        (t : Trace) (k : Kind) (n : Key) (e : EventType) (r m : Str)
        → current (emitted k n e r m ∷ t) ≡ current t
    -- `AddFinalizer`
    pub adds :
        (l : List Str)
        → env.finalizer_list.contains_finalizer
            (env.finalizer_list.add_finalizer l finalizer)
            finalizer
          ≡ true

  -- The zone is live and holds the finalizer.
  abbrev pub IsMarked : DnsZone → Type 0
  IsMarked z = (is_deleting z ≡ false) × (has_finalizer env dns_zone z ≡ true)

  abbrev pub IsReady : DnsZone → Type 0
  IsReady z = IsMarked z × (is_settled env z ≡ true)

  module _ (store : IsStore) (lawful : IsLawful env.meta) where
    is_settled-delegated : (z : DnsZone) → is_settled env (delegated env z) ≡ true
    unfolding is_settled delegated
    is_settled-delegated z =
        rw
          (
            status_conditions_ready-set_ready env.meta lawful z.status.conditions
                z.metadata.generation z.metadata.generation reason_ready _,
            ==_refl z.metadata.generation,
            ==_refl z.spec.zone_name,
          )
          refl

    seen : (w : World) → current (log (read dns_zones key) w).trace ≡ current w.trace
    seen w = store.on_read w.trace dns_zones key

    provisions :
        (w : World)
        → IsMarked (current w.trace)
        → reconcile env key w ≡ provision env (current w.trace) (log (read dns_zones key) w)
    unfolding reconcile handler
    provisions w (live, has) =
        reconcile_marked env (handler env) key w (current w.trace) tt (log (read dns_zones key) w)
          (store.found w.trace) refl live has

    -- A ready zone is only read.
    idle :
        (w : World)
        → IsReady (current w.trace)
        → reconcile env key w ≡ (ok no_requeue, log (read dns_zones key) w)
    unfolding provision
    idle w (is_marked, settled) = provisions w is_marked ∙ rw settled refl

    stored :
        (z : DnsZone) (w : World)
        → current w.trace ≡ z
        → current (status_updated (dns_zone (delegated env z)) (ok tt) ∷ w.trace) ≡ delegated env z
    unfolding delegated
    stored z w is =
        store.on_status_updated w.trace (delegated env z)
        ∙ ap {A = DnsZone} (λ o. record o { status = (delegated env z).status }) is

    written :
        (z : DnsZone) (w : World)
        → current w.trace ≡ z
        → is_settled env z ≡ false
        → current (provision env z w).1.trace ≡ delegated env z
    unfolding provision save_status event update_status attempt ◌>>=◌
    written z w is unsettled = elim (Bool-cases env.has_recorder) [
      | inl recording ↦
          rw (unsettled, store.updates_status w.trace (dns_zone (delegated env z)), recording)
            (store.on_emitted _ _ _ _ _ _ ∙ stored z w is)
      | inr silent ↦
          rw (unsettled, store.updates_status w.trace (dns_zone (delegated env z)), silent)
            (stored z w is)
    ]

    -- A marked zone is ready after one reconcile.
    becomes-IsReady :
        (w : World) → IsMarked (current w.trace) → IsReady (current (reconcile env key w).1.trace)
    unfolding delegated
    becomes-IsReady w is_marked = elim (Bool-cases (is_settled env (current w.trace))) [
      | inl settled ↦
          subst IsReady (sym (ap (λ r. current r.1.trace) (idle w (is_marked, settled)) ∙ seen w))
            (is_marked, settled)
      | inr unsettled ↦
          subst IsReady
            (sym (
              ap (λ r. current r.1.trace) (provisions w is_marked)
              ∙ written (current w.trace) (log (read dns_zones key) w) (seen w) unsettled))
            (is_marked, is_settled-delegated (current w.trace))
    ]

    -- A live zone without the finalizer gets it in one reconcile.
    becomes-IsMarked :
        (w : World)
        → is_deleting (current w.trace) ≡ false
        → has_finalizer env dns_zone (current w.trace) ≡ false
        → IsMarked (current (reconcile env key w).1.trace)
    unfolding reconcile handler
    becomes-IsMarked w live unmarked =
        let z = current w.trace in
        let z' = marked env (handler env) key w z in
        let w' = log (read dns_zones key) w in
        let done =
          reconcile_unmarked env (handler env) key w z tt w' (store.found w.trace) refl live
            unmarked in
        let same : current
              (log (updated (dns_zone z') (env.update w'.trace (dns_zone z'))) w').trace
            ≡ z' =
          ap (λ d. current (updated (dns_zone z') d ∷ w'.trace))
            (store.updates w'.trace (dns_zone z'))
          ∙ store.on_updated w'.trace z'
          ∙ ap {A = DnsZone} (λ o. record z' { status = o.status }) (seen w) in
        subst IsMarked (sym (ap (λ r. current r.1.trace) done ∙ same))
          (live, store.adds z.metadata.finalizers)

    -- The world after a number of reconciles of the zone.
    unfoldable pub rounds : ℕ → World → World
    rounds zero w = w
    rounds (suc n) w = (reconcile env key (rounds n w)).1

    -- The server holds the zone ready, and a reconcile would only read it.
    abbrev pub IsSettled : World → Type 0
    IsSettled w =
        IsReady (current w.trace)
        × (reconcile env key w ≡ (ok no_requeue, log (read dns_zones key) w))

    settles :
        (w : World) → is_deleting (current w.trace) ≡ false → IsReady (current (rounds 2 w).trace)
    unfolding rounds
    settles w live = elim (Bool-cases (has_finalizer env dns_zone (current w.trace))) [
      | inl has ↦ becomes-IsReady (rounds 1 w) (becomes-IsReady w (live, has)).0
      | inr unmarked ↦ becomes-IsReady (rounds 1 w) (becomes-IsMarked w live unmarked)
    ]

    stays :
        (n : ℕ) (w : World)
        → is_deleting (current w.trace) ≡ false
        → IsReady (current (rounds (suc (suc n)) w).trace)
    unfolding rounds
    stays zero w live = settles w live
    stays (suc n) w live = becomes-IsReady (rounds (suc (suc n)) w) (stays n w live).0

    -- Where the API server keeps the zone, writes succeed and nobody else writes: after the first two
    -- of any number of reconciles of a live zone, it is live, holds the finalizer and is ready for its
    -- generation, and each further reconcile makes no call but the Get of the zone.
    pub zone_converges :
        (n : ℕ) (w : World)
        → is_deleting (current w.trace) ≡ false
        → IsSettled (rounds (suc (suc n)) w)
    zone_converges n w live = (stays n w live, idle (rounds (suc (suc n)) w) (stays n w live))
