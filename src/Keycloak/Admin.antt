-- ===== src/Keycloak/Admin.antt =====
-- Realms and clients of internal/keycloak/client.go.
pub mod Laws
pub mod Deletes
pub mod Paths
pub mod Writes
use inari_operator.Base.{
  ℕ, Bool, true, false, not, ◌&&◌, ◌||◌, Option, none, some, List, [], ◌∷◌, ◌++◌, length, nat_beq,
  ◌==◌, if◌then◌else◌,
}
use inari_operator.Text.{Str, bytes, str_eq, is_empty}
use inari_operator.Text.Format.{quote}
use inari_operator.Text.Url.{path_escape, encode_values}
use inari_operator.Cluster.Errors.{Result, ok, err, Error, failure, wrapped, is_keycloak_not_found}
use inari_operator.Cluster.Env.{
  Env, Method, get, post, put, delete, RealmRepresentation, ClientRepresentation,
}
use inari_operator.Cluster.Exec.{Exec, pure, raise, lift, wrapping, attempt, ◌>>=◌, ◌>>◌}
use inari_operator.Keycloak.Token.{Client}
use inari_operator.Keycloak.Transport.{Output, no_output, request}

-- `ClientResult`.
pub record ClientResult : Type 0 where
  pub id : Str
  pub secret : Str
  pub created : Bool

pub bool_beq : Bool → Bool → Bool
bool_beq true b = b
bool_beq false b = not b

-- The loop of `clientDrifted` over `RedirectURIs`, of equal length.
uris_differ : List Str → List Str → Bool
uris_differ (x ∷ xs) (y ∷ ys) = not (x == y) || uris_differ xs ys
uris_differ _ [] = false
uris_differ [] (y ∷ ys) = false

-- `clientDrifted`.
unfoldable pub client_drifted : ClientRepresentation → ClientRepresentation → Bool
unfolding bool_beq uris_differ
client_drifted existing rep =
    if not (bool_beq existing.public_client rep.public_client)
      || not (bool_beq existing.service_accounts_enabled rep.service_accounts_enabled)
      || not (bool_beq existing.standard_flow_enabled rep.standard_flow_enabled)
    then true
    else if not (nat_beq (length existing.redirect_uris) (length rep.redirect_uris))
    then true
    else uris_differ existing.redirect_uris rep.redirect_uris

-- The loop of `findClient`.
unfoldable pub first_with_id : Str → List ClientRepresentation → Option ClientRepresentation
first_with_id client_id [] = none
first_with_id client_id (c ∷ rest) =
    if c.client_id == client_id then some c else first_with_id client_id rest

abbrev pub realm_path : Str → Str
realm_path realm = bytes "/admin/realms/" ++ path_escape realm

abbrev pub clients_path : Str → Str
clients_path realm = realm_path realm ++ bytes "/clients"

abbrev pub client_path : Str → Str → Str
client_path realm id = clients_path realm ++ bytes "/" ++ id

module _ (env : Env) (c : Client) where
  abbrev pub realm_output : Output RealmRepresentation
  realm_output = record {
    zero_value = record { realm = []; display_name = []; enabled = false };
    decode = env.json.decode_realm;
  }

  abbrev pub clients_output : Output (List ClientRepresentation)
  clients_output = record { zero_value = []; decode = env.json.decode_clients }

  abbrev pub secret_output : Output Str
  secret_output = record { zero_value = []; decode = env.json.decode_secret }

  -- A request whose response body is not read.
  abbrev command : Method → Str → Option Str → Exec (Unit {0})
  command method path input = request env c method path input no_output

  unfoldable pub update_realm : RealmRepresentation → RealmRepresentation → Exec Bool
  unfolding bool_beq
  update_realm rep existing =
      if existing.display_name == rep.display_name && bool_beq existing.enabled rep.enabled
      then pure false
      else do
        let rep' = record rep { realm = existing.realm }
        wrapping (bytes "update realm " ++ quote rep'.realm ++ bytes ": ")
            (command put (realm_path rep'.realm) (some (env.json.encode_realm rep')))
        pure false

  unfoldable pub create_realm : RealmRepresentation → Exec Bool
  create_realm rep = do
    wrapping (bytes "create realm " ++ quote rep.realm ++ bytes ": ")
        (command post (bytes "/admin/realms") (some (env.json.encode_realm rep)))
    pure true

  unfoldable pub after_get_realm : RealmRepresentation → Result RealmRepresentation → Exec Bool
  unfolding update_realm create_realm
  after_get_realm rep (ok existing) = update_realm rep existing
  after_get_realm rep (err e) =
      if is_keycloak_not_found e
      then create_realm rep
      else raise (wrapped (bytes "get realm " ++ quote rep.realm ++ bytes ": ") e)

  -- `EnsureRealm`.
  unfoldable pub ensure_realm : RealmRepresentation → Exec Bool
  unfolding after_get_realm
  ensure_realm rep = do
    found ← attempt (request env c get (realm_path rep.realm) none realm_output)
    after_get_realm rep found

  after_delete_realm : Str → Result (Unit {0}) → Exec (Unit {0})
  after_delete_realm realm (ok u) = pure tt
  after_delete_realm realm (err e) =
      if is_keycloak_not_found e
      then pure tt
      else raise (wrapped (bytes "delete realm " ++ quote realm ++ bytes ": ") e)

  -- `DeleteRealm`.
  unfoldable pub delete_realm : Str → Exec (Unit {0})
  unfolding after_delete_realm
  delete_realm realm = do
    done ← attempt (command delete (realm_path realm) none)
    after_delete_realm realm done

  -- `findClient`.
  unfoldable pub find_client : Str → Str → Exec (Option ClientRepresentation)
  find_client realm client_id = do
    clients ← wrapping (bytes "list clients in realm " ++ quote realm ++ bytes ": ") (
        request env c get
          (clients_path realm ++ bytes "?" ++ encode_values ((bytes "clientId", client_id) ∷ []))
          none clients_output)
    pure (first_with_id client_id clients)

  -- `getClientSecret`.
  unfoldable pub get_client_secret : Str → Str → Exec Str
  get_client_secret realm id =
      wrapping (bytes "get client secret: ")
        (request env c get (client_path realm id ++ bytes "/client-secret") none secret_output)

  unfoldable pub created_client :
      ClientRepresentation → Option ClientRepresentation → Exec (Str × Bool)
  created_client rep none =
      raise (failure (bytes "client " ++ quote rep.client_id ++ bytes " not found after create"))
  created_client rep (some existing) = pure (existing.id, true)

  -- Create or update the client: its identifier, and whether it was created.
  unfoldable pub settle_client :
      Str → ClientRepresentation → Option ClientRepresentation → Exec (Str × Bool)
  unfolding created_client
  settle_client realm rep none = do
    wrapping (bytes "create client " ++ quote rep.client_id ++ bytes ": ")
        (command post (clients_path realm) (some (env.json.encode_client rep)))
    existing ← find_client realm rep.client_id
    created_client rep existing
  settle_client realm rep (some existing) =
      if client_drifted existing rep
      then (do
        let rep' = record rep { id = existing.id }
        wrapping (bytes "update client " ++ quote rep.client_id ++ bytes ": ")
            (command put (client_path realm existing.id) (some (env.json.encode_client rep')))
        pure (existing.id, false))
      else pure (existing.id, false)

  unfoldable pub secret_for : Str → ClientRepresentation → Str → Exec Str
  secret_for realm rep id = if rep.public_client then pure [] else get_client_secret realm id

  -- `rep.StandardFlowEnabled = len(rep.RedirectURIs) > 0`.
  abbrev pub with_standard_flow : ClientRepresentation → ClientRepresentation
  with_standard_flow rep = record rep {
    standard_flow_enabled = elim rep.redirect_uris [ [] ↦ false | _ ↦ true ];
  }

  -- `EnsureClient`.
  unfoldable pub ensure_client : Str → ClientRepresentation → Exec ClientResult
  unfolding settle_client secret_for
  ensure_client realm desired = do
    let rep = with_standard_flow desired
    existing ← find_client realm rep.client_id
    settled ← settle_client realm rep existing
    secret ← secret_for realm rep settled.0
    pure (record { id = settled.0; secret = secret; created = settled.1 })

  -- `DeleteClient`.
  remove_found : Str → Str → Option ClientRepresentation → Exec (Unit {0})
  remove_found realm client_id none = pure tt
  remove_found realm client_id (some existing) =
      wrapping (bytes "delete client " ++ quote client_id ++ bytes ": ")
        (command delete (client_path realm existing.id) none)

  unfoldable pub delete_client : Str → Str → Exec (Unit {0})
  unfolding remove_found
  delete_client realm client_id = do
    existing ← find_client realm client_id
    remove_found realm client_id existing
