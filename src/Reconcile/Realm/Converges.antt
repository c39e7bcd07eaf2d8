-- ===== src/Reconcile/Realm/Converges.antt =====
-- A reconcile of a KeycloakRealm puts the realm into Keycloak.
use inari_operator.Base.{◌≡◌, ap, refl, ◌∙◌, Bool, true, false, Option, some}
use inari_operator.Text.{Str}
use inari_operator.Api.{Key, is_deleting}
use inari_operator.Api.Items.{KeycloakRealm, keycloak_realm}
use inari_operator.Cluster.Errors.{ok}
use inari_operator.Cluster.Env.{Env, Trace, RealmRepresentation, keycloak_realms, read}
use inari_operator.Cluster.Exec.{World, log, attempt, ◌>>=◌}
use inari_operator.Cluster.Exec.Keeps.{Keeps}
use inari_operator.Cluster.Calls.Keeps.{Ignores}
use inari_operator.Common.{has_finalizer}
use inari_operator.Keycloak.Token.{Client}
use inari_operator.Keycloak.Server.{IsServer}
use inari_operator.Keycloak.Server.Refinement.{upsert, ensure_realm-upsert}
use inari_operator.Reconcile.Lifecycle.Laws.{reconcile_marked}
use inari_operator.Reconcile.Status.Keeps.{status_keeps_rules}
use inari_operator.Reconcile.Realm.{
  reconcile, handler, provision, with_client, after_ensure, announce_created, representation,
}

module _ (env : Env) (c : Client) (realm : Trace → Option RealmRepresentation)
    (ignores : Ignores realm) (accepts : Trace → Str → Bool) (obj : KeycloakRealm)
    (server : IsServer env c realm accepts (representation obj).realm) where
  abbrev Provided : World → World → Type 0
  Provided w v = realm v.trace ≡ some (upsert (representation obj) (realm w.trace)).1

  Keeps-announce_created :
      (created : Bool) → Keeps realm (announce_created env (some c) obj created)
  unfolding announce_created
  Keeps-announce_created created = search (status_keeps_rules, ignores)

  Keeps-after_ensure : (created : Bool) → Keeps realm (after_ensure env (some c) c obj (ok created))
  unfolding after_ensure
  Keeps-after_ensure created = search (status_keeps_rules, ignores, Keeps-announce_created)

  provision_upserts : (w : World) → Provided w (provision env (some c) obj w).1
  unfolding provision with_client attempt ◌>>=◌
  provision_upserts w =
      let (v, ensured, there) =
        ensure_realm-upsert env c realm accepts (representation obj) server w in
      rw ensured
        ((Keeps-after_ensure (upsert (representation obj) (realm w.trace)).0).same v ∙ there)

  -- Against a Keycloak server that behaves as documented, and whose realm no call to the cluster
  -- changes: a reconcile of a live KeycloakRealm that holds the finalizer leaves the realm in Keycloak
  -- as `EnsureRealm` promises, whatever the status update answers.
  pub realm_reconcile-upsert :
      (key : Key) (w : World)
      → env.get_keycloak_realm w.trace key ≡ ok obj
      → is_deleting obj ≡ false
      → has_finalizer env keycloak_realm obj ≡ true
      → Provided w (reconcile env (some c) key w).1
  unfolding reconcile handler
  realm_reconcile-upsert key w got live has =
      rw
        (reconcile_marked env (handler env (some c)) key w obj tt (log (read keycloak_realms key) w)
          got refl live has)
        (provision_upserts (log (read keycloak_realms key) w)
          ∙ ap (λ o. some (upsert (representation obj) o).1)
              (ignores.on_read keycloak_realms key w.trace))
