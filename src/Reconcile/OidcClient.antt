-- ===== src/Reconcile/OidcClient.antt =====
-- internal/controller/keycloakclient_controller.go
pub mod Calls
pub mod Credentials
pub mod Writes
pub mod Converges
use inari_operator.Process.{Runtime, Process, set_up_for}
use inari_operator.Cluster.Errors.{
  Done, Error, Result, ok, err, failure, wrapped, error_text, is_not_found,
}
use inari_operator.Base.{
  ℕ, Bool, true, false, not, ◌&&◌, Option, none, some, List, [], ◌∷◌, ◌++◌, if◌then◌else◌,
}
use inari_operator.Text.{Str, bytes, is_empty}
use inari_operator.Text.Format.{quote}
use inari_operator.Api.{Key, Condition, key_of}
use inari_operator.Api.Conditions.{
  set_ready, set_failed, set_reconciling, reason_ready, type_name, ready,
}
use inari_operator.Api.Items.{
  KeycloakClient, KeycloakClientSpec, KeycloakClientStatus, KeycloakRealm, keycloak_client,
}
use inari_operator.Cluster.Children.{Child, Labels, secret, credentials, named, with_label}
use inari_operator.Cluster.Env.{
  Env, Actor, keycloak_clients, keycloak_realms, normal, warning, ClientRepresentation,
}
use inari_operator.Cluster.Exec.{Exec, pure, raise, attempt, ◌>>=◌, ◌>>◌}
use inari_operator.Cluster.Calls.{fetch, event, create_or_update}
use inari_operator.Common.{ReconcileResult, stop, requeue_in, impersonating_client, tenant_label}
use inari_operator.Keycloak.Token.{Client, issuer_url}
use inari_operator.Keycloak.Admin.{ClientResult, ensure_client, delete_client}
use inari_operator.Reconcile.Lifecycle.{Handler}
use inari_operator.Reconcile.Lifecycle
use inari_operator.Reconcile.Realm.{realm_name}
use inari_operator.Reconcile.Status.{try_status, save_status, delete_if_present}

-- `realmName` and `realmReady`.
pub record Target : Type 0 where
  pub realm : Str
  pub ready : Bool

-- `clientID` and `secretName`.
unfoldable pub client_id_of : KeycloakClient → Str
client_id_of kc = if is_empty kc.spec.client_id then kc.metadata.name else kc.spec.client_id

unfoldable pub secret_name_of : KeycloakClient → Str
secret_name_of kc =
    if is_empty kc.spec.secret_name
    then kc.metadata.name ++ bytes "-keycloak-client"
    else kc.spec.secret_name

abbrev pub realm_key : KeycloakClient → Key
realm_key kc = record { namespace = kc.metadata.namespace; name = kc.spec.realm_ref }

abbrev pub secret_key : KeycloakClient → Key
secret_key kc = record { namespace = kc.spec.tenant.namespace; name = secret_name_of kc }

unfoldable pub representation : KeycloakClient → ClientRepresentation
unfolding client_id_of
representation kc = record {
  id = [];
  client_id = client_id_of kc;
  public_client = kc.spec.public;
  service_accounts_enabled = kc.spec.service_accounts_enabled;
  standard_flow_enabled = false;
  redirect_uris = kc.spec.redirect_uris;
}

abbrev with_conditions : KeycloakClient → List Condition → KeycloakClient
with_conditions kc cs = record kc { status = record kc.status { conditions = cs } }

module _ (env : Env) where
  -- The recorded realm first, then the one that the referenced KeycloakRealm names.
  resolved : KeycloakClient → Result KeycloakRealm → Exec Target
  resolved kc (ok realm) = pure (record {
    realm = if is_empty kc.status.realm then realm_name realm else kc.status.realm;
    ready = env.meta.is_status_condition_true realm.status.conditions (type_name ready);
  })
  resolved kc (err e) =
      if is_not_found e then pure (record { realm = kc.status.realm; ready = false }) else raise e

  unfoldable pub resolve : KeycloakClient → Exec Target
  unfolding resolved
  resolve kc = do
    got ← attempt (fetch keycloak_realms (realm_key kc) env.get_keycloak_realm)
    resolved kc got

  pub failed : KeycloakClient → Str → KeycloakClient
  failed kc message =
      with_conditions kc (set_failed env.meta kc.status.conditions kc.metadata.generation message)

  pub waiting : KeycloakClient → Str → KeycloakClient
  waiting kc message =
      with_conditions kc
        (set_reconciling env.meta kc.status.conditions kc.metadata.generation message)

  pub provisioned : KeycloakClient → Str → KeycloakClient
  provisioned kc realm = record kc {
    status = record {
      conditions = set_ready env.meta kc.status.conditions kc.metadata.generation reason_ready (
          bytes "client "
          ++ quote (client_id_of kc)
          ++ bytes " provisioned in realm "
          ++ quote realm);
      observed_generation = kc.metadata.generation;
      client_id = client_id_of kc;
      realm = realm;
      secret_name = secret_name_of kc;
    };
  }

  -- The mutate function of the Secret.
  pub credentials_secret : KeycloakClient → Labels → Child → Result Child
  credentials_secret kc entries child =
      ok (record (with_label tenant_label kc.spec.tenant.tenant_id child) {
        content = credentials (bytes "Opaque") entries;
      })

  announce_created : KeycloakClient → Str → Bool → Exec ReconcileResult
  announce_created kc realm created =
      if created
      then (do
        event env keycloak_clients (key_of kc) normal (bytes "Created") (
            bytes "Keycloak client "
            ++ quote (client_id_of kc)
            ++ bytes " created in realm "
            ++ quote realm
            ++ bytes " for tenant "
            ++ quote kc.spec.tenant.tenant_id)
        stop)
      else stop

  after_write : KeycloakClient → Str → ClientResult → Result Child → Exec ReconcileResult
  unfolding failed provisioned announce_created
  after_write kc realm res (err e) = do
    try_status env (keycloak_client (failed kc (error_text e)))
    raise (wrapped (bytes "write client secret: ") e)
  after_write kc realm res (ok _) =
      save_status env (keycloak_client (provisioned kc realm))
        (announce_created kc realm res.created)

  -- `data`: the secret of a confidential client only.
  pub credentials_data : Client → KeycloakClient → Str → ClientResult → Labels
  credentials_data c kc realm res =
      (bytes "client-id", client_id_of kc)
      ∷ (bytes "issuer", issuer_url c realm)
      ∷ (if kc.spec.public then [] else (bytes "client-secret", res.secret) ∷ [])

  pub write_secret : Client → KeycloakClient → Str → ClientResult → Exec ReconcileResult
  unfolding after_write credentials_secret credentials_data
  write_secret c kc realm res = do
    actor ← impersonating_client env kc.spec.tenant
    written ← attempt (
        create_or_update env actor (named secret (secret_key kc))
          (credentials_secret kc (credentials_data c kc realm res)))
    after_write kc realm res written

  pub after_ensure : Client → KeycloakClient → Str → Result ClientResult → Exec ReconcileResult
  unfolding write_secret
  after_ensure c kc realm (err e) = do
    try_status env (keycloak_client (failed kc (error_text e)))
    event env keycloak_clients (key_of kc) warning (bytes "ReconcileError") (error_text e)
    raise e
  after_ensure c kc realm (ok res) = write_secret c kc realm res

  pub with_client : KeycloakClient → Target → Option Client → Exec ReconcileResult
  unfolding after_ensure waiting
  with_client kc target none = raise (failure (bytes "keycloak client not configured"))
  with_client kc target (some c) =
      if is_empty target.realm
      then (do
        try_status env (
            keycloak_client (
              failed kc (
                bytes "referenced KeycloakRealm "
                ++ quote kc.spec.realm_ref
                ++ bytes " not found")))
        pure (requeue_in 30))
      else if not target.ready && is_empty kc.status.realm
      then (do
        try_status env (
            keycloak_client (
              waiting kc (
                bytes "waiting for KeycloakRealm "
                ++ quote kc.spec.realm_ref
                ++ bytes " to become ready")))
        pure (requeue_in 15))
      else (do
        done ← attempt (ensure_client env c target.realm (representation kc))
        after_ensure c kc target.realm done)

  module _ (keycloak : Option Client) where
    delete_in_realm : KeycloakClient → Target → Exec (Unit {0})
    delete_in_realm kc target = elim keycloak [
      | none ↦ pure tt
      | some c ↦
          if is_empty target.realm
          then pure tt
          else delete_client env c target.realm (client_id_of kc)
    ]

    unfoldable pub cleanup : KeycloakClient → Target → Exec (Unit {0})
    unfolding delete_in_realm
    cleanup kc target = do
      delete_in_realm kc target
      actor ← impersonating_client env kc.spec.tenant
      delete_if_present env actor secret (secret_key kc)

    announce : KeycloakClient → Exec (Unit {0})
    announce kc = event env keycloak_clients (key_of kc) normal (bytes "Deleted") (
        bytes "Keycloak client "
        ++ quote (client_id_of kc)
        ++ bytes " deleted for tenant "
        ++ quote kc.spec.tenant.tenant_id)

    unfoldable pub provision : KeycloakClient → Target → Exec ReconcileResult
    unfolding with_client
    provision kc target = with_client kc target keycloak

    unfoldable pub handler : Handler KeycloakClientSpec KeycloakClientStatus Target
    unfolding cleanup announce provision
    handler = record {
      kind = keycloak_clients;
      get = env.get_keycloak_client;
      wrap_object = keycloak_client;
      prepare = resolve;
      cleanup = cleanup;
      announce = λ kc _. announce kc;
      provision = provision;
    }

    -- `KeycloakClientReconciler.Reconcile`.
    unfoldable pub reconcile : Key → Exec ReconcileResult
    unfolding handler
    reconcile = Lifecycle.reconcile env handler

-- `SetupWithManager`.
unfoldable pub set_up_with_manager : Runtime → Process Done
set_up_with_manager rt = set_up_for rt keycloak_clients
