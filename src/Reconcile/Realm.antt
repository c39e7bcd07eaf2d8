-- ===== src/Reconcile/Realm.antt =====
-- internal/controller/keycloakrealm_controller.go
pub mod Labels
pub mod Converges
pub mod Teardown
use inari_operator.Process.{Runtime, Process, set_up_for}
use inari_operator.Cluster.Errors.{Done, Result, ok, err, failure, error_text}
use inari_operator.Base.{Bool, Option, none, some, List, ◌++◌, if◌then◌else◌}
use inari_operator.Text.{Str, bytes, is_empty}
use inari_operator.Text.Format.{quote}
use inari_operator.Api.{Key, Condition, key_of}
use inari_operator.Api.Conditions.{set_ready, set_failed, reason_ready}
use inari_operator.Api.Items.{KeycloakRealm, KeycloakRealmSpec, KeycloakRealmStatus, keycloak_realm}
use inari_operator.Cluster.Env.{Env, keycloak_realms, normal, warning, RealmRepresentation}
use inari_operator.Cluster.Exec.{Exec, pure, raise, attempt, ◌>>=◌, ◌>>◌}
use inari_operator.Cluster.Calls.{event}
use inari_operator.Common.{ReconcileResult, stop}
use inari_operator.Keycloak.Token.{Client, issuer_url}
use inari_operator.Keycloak.Admin.{ensure_realm, delete_realm}
use inari_operator.Reconcile.Lifecycle.{Handler}
use inari_operator.Reconcile.Lifecycle
use inari_operator.Reconcile.Status.{try_status, save_status}

-- `realmName`.
unfoldable pub realm_name : KeycloakRealm → Str
realm_name realm =
    if is_empty realm.spec.realm then realm.spec.tenant.tenant_id else realm.spec.realm

unfoldable pub representation : KeycloakRealm → RealmRepresentation
unfolding realm_name
representation realm = record {
  realm = realm_name realm;
  display_name = realm.spec.display_name;
  enabled = realm.spec.enabled;
}

abbrev with_conditions : KeycloakRealm → List Condition → KeycloakRealm
with_conditions realm cs = record realm { status = record realm.status { conditions = cs } }

-- `keycloak` is nil where the operator runs without Keycloak.
module _ (env : Env) (keycloak : Option Client) where
  cleanup : KeycloakRealm → Exec (Unit {0})
  cleanup realm = elim keycloak [ none ↦ pure tt | some c ↦ delete_realm env c (realm_name realm) ]

  pub announce : KeycloakRealm → Exec (Unit {0})
  announce realm = event env keycloak_realms (key_of realm) normal (bytes "Deleted") (
      bytes "Keycloak realm "
      ++ quote (realm_name realm)
      ++ bytes " deleted for tenant "
      ++ quote realm.spec.tenant.tenant_id)

  pub failed : KeycloakRealm → Str → KeycloakRealm
  failed realm message =
      with_conditions realm
        (set_failed env.meta realm.status.conditions realm.metadata.generation message)

  pub provisioned : Client → KeycloakRealm → KeycloakRealm
  provisioned c realm = record realm {
    status = record {
      conditions =
          set_ready env.meta realm.status.conditions realm.metadata.generation reason_ready
            (bytes "realm " ++ quote (realm_name realm) ++ bytes " provisioned");
      observed_generation = realm.metadata.generation;
      realm = realm_name realm;
      issuer_url = issuer_url c (realm_name realm);
    };
  }

  announce_created : KeycloakRealm → Bool → Exec ReconcileResult
  announce_created realm created =
      if created
      then (do
        event env keycloak_realms (key_of realm) normal (bytes "Created") (
            bytes "Keycloak realm "
            ++ quote (realm_name realm)
            ++ bytes " created for tenant "
            ++ quote realm.spec.tenant.tenant_id)
        stop)
      else stop

  after_ensure : Client → KeycloakRealm → Result Bool → Exec ReconcileResult
  unfolding announce_created failed provisioned
  after_ensure c realm (err e) = do
    try_status env (keycloak_realm (failed realm (error_text e)))
    event env keycloak_realms (key_of realm) warning (bytes "ReconcileError") (error_text e)
    raise e
  after_ensure c realm (ok created) =
      save_status env (keycloak_realm (provisioned c realm)) (announce_created realm created)

  with_client : KeycloakRealm → Option Client → Exec ReconcileResult
  unfolding after_ensure
  with_client realm none = raise (failure (bytes "keycloak client not configured"))
  with_client realm (some c) = do
    done ← attempt (ensure_realm env c (representation realm))
    after_ensure c realm done

  unfoldable pub provision : KeycloakRealm → Exec ReconcileResult
  unfolding with_client
  provision realm = with_client realm keycloak

  unfoldable pub handler : Handler KeycloakRealmSpec KeycloakRealmStatus (Unit {0})
  unfolding cleanup announce provision
  handler = record {
    kind = keycloak_realms;
    get = env.get_keycloak_realm;
    wrap_object = keycloak_realm;
    prepare = λ realm. pure tt;
    cleanup = λ realm _. cleanup realm;
    announce = λ realm _. announce realm;
    provision = λ realm _. provision realm;
  }

  -- `KeycloakRealmReconciler.Reconcile`.
  unfoldable pub reconcile : Key → Exec ReconcileResult
  unfolding handler
  reconcile = Lifecycle.reconcile env handler

-- `SetupWithManager`.
unfoldable pub set_up_with_manager : Runtime → Process Done
set_up_with_manager rt = set_up_for rt keycloak_realms
