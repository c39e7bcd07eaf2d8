-- ===== src/Reconcile/Realm/Labels.antt =====
-- The reconciler of realms writes no child.
use inari_operator.Base.{Option, none, some, Bool}
use inari_operator.Api.{Key}
use inari_operator.Api.Items.{KeycloakRealm}
use inari_operator.Cluster.Errors.{Result, ok, err}
use inari_operator.Cluster.Env.{Env, Call}
use inari_operator.Cluster.Exec.Emits.{Emits, Emits-pure}
use inari_operator.Cluster.Calls.Writes.{OnlyWrites}
use inari_operator.Keycloak.Token.{Client}
use inari_operator.Keycloak.Admin.Writes.{Emits-ensure_realm, Emits-delete_realm}
use inari_operator.Reconcile.Status.Writes.{write_rules}
use inari_operator.Reconcile.Lifecycle.Writes.{Emits-reconcile}
use inari_operator.Reconcile.Realm.{
  reconcile, handler, announce, cleanup, provision, with_client, after_ensure, announce_created,
}

module _ (env : Env) {P : Call → Type 0} (only : OnlyWrites P) where
  Emits-cleanup :
      (keycloak : Option Client) (realm : KeycloakRealm) → Emits P (cleanup env keycloak realm)
  unfolding cleanup
  Emits-cleanup none realm = search write_rules
  Emits-cleanup (some c) realm = search (write_rules, Emits-delete_realm env c only)

  module _ (keycloak : Option Client) where
    Emits-announce_created :
        (realm : KeycloakRealm) (created : Bool)
        → Emits P (announce_created env keycloak realm created)
    unfolding announce_created
    Emits-announce_created realm created = search (write_rules, only)

    Emits-after_ensure :
        (c : Client) (realm : KeycloakRealm) (r : Result Bool)
        → Emits P (after_ensure env keycloak c realm r)
    unfolding after_ensure
    Emits-after_ensure c realm (ok created) = search (write_rules, only, Emits-announce_created)
    Emits-after_ensure c realm (err e) = search (write_rules, only)

    Emits-with_client :
        (realm : KeycloakRealm) (o : Option Client) → Emits P (with_client env keycloak realm o)
    unfolding with_client
    Emits-with_client realm none = search write_rules
    Emits-with_client realm (some c) =
        search (write_rules, Emits-ensure_realm env c only, Emits-after_ensure)

    pub Emits-realm_reconcile : (key : Key) → Emits P (reconcile env keycloak key)
    unfolding reconcile handler announce provision
    Emits-realm_reconcile key =
        Emits-reconcile env only (handler env keycloak) (λ realm. Emits-pure _ _)
          (λ realm q. Emits-cleanup keycloak realm) (λ realm q. search (write_rules, only)) key
          (λ realm q t got. Emits-with_client realm keycloak)
