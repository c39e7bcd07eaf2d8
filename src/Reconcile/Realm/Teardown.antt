-- ===== src/Reconcile/Realm/Teardown.antt =====
-- A KeycloakRealm goes only when Keycloak has confirmed that its realm is gone.
use inari_operator.Base.{◌≡◌, refl, ap, ◌⊎◌, inl, inr, true, some}
use inari_operator.Api.{Key, is_deleting}
use inari_operator.Api.Items.{KeycloakRealm, keycloak_realm}
use inari_operator.Cluster.Errors.{Error, ok, err, Result-cases}
use inari_operator.Cluster.Env.{Env, read, updated, keycloak_realms}
use inari_operator.Cluster.Exec.{World, log, ◌>>◌}
use inari_operator.Cluster.Exec.Foreign.{ReturnsForeign}
use inari_operator.Common.{has_finalizer, stop}
use inari_operator.Keycloak.Token.{Client}
use inari_operator.Keycloak.Admin.{delete_realm}
use inari_operator.Keycloak.Admin.Deletes.{IsConfirmed, delete_realm-eq-ok}
use inari_operator.Reconcile.Lifecycle.Laws.{
  released, after_release, reconcile_cleaned, reconcile_cleanup_failed,
}
use inari_operator.Reconcile.Realm.{reconcile, handler, cleanup, announce, realm_name}

module _ (env : Env) (foreign : ReturnsForeign env) (c : Client) (key : Key) (w : World)
    (obj : KeycloakRealm) where
  abbrev pub gone : KeycloakRealm
  gone = released env (handler env (some c)) key w obj

  -- A reconcile of a deleted KeycloakRealm that holds the finalizer either returns an error of
  -- `DeleteRealm` and calls nothing after it, or the DELETE of the realm was answered with a 2xx
  -- status or with 404, and the next call is the update that removes the finalizer.
  pub realm_reconcile-IsConfirmed :
      env.get_keycloak_realm w.trace key ≡ ok obj
      → is_deleting obj ≡ true
      → has_finalizer env keycloak_realm obj ≡ true
      → ((e : Error) × (v : World) × (delete_realm env c
              (realm_name obj)
              (log (read keycloak_realms key) w)
            ≡ (err e, v))
          × (reconcile env (some c) key w ≡ (err e, v)))
        ⊎ ((v : World) × IsConfirmed env foreign c (realm_name obj) v
            × (let done = env.update v.trace (keycloak_realm gone) in
                reconcile env (some c) key w
                ≡ after_release done
                    (announce env (some c) obj >> stop)
                    (log (updated (keycloak_realm gone) done) v)))
  unfolding reconcile handler cleanup
  realm_reconcile-IsConfirmed got dying has =
      let w' = log (read keycloak_realms key) w in
      let deleted = delete_realm env c (realm_name obj) w' in
      elim (Result-cases deleted.0) [
        | inr (e, failed) ↦
            let failed' : deleted ≡ (err e, deleted.1) = ap (λ r. (r, deleted.1)) failed in
            inl (
              e,
              deleted.1,
              failed',
              reconcile_cleanup_failed env (handler env (some c)) key w obj tt w' got refl dying has
                  failed',
            )
        | inl (u, went) ↦
            let went' : deleted ≡ (ok tt, deleted.1) = ap (λ r. (r, deleted.1)) went in
            inr (
              deleted.1,
              delete_realm-eq-ok env foreign c (realm_name obj) w' deleted.1 tt went',
              reconcile_cleaned env (handler env (some c)) key w obj tt w' got refl dying has went',
            )
      ]
