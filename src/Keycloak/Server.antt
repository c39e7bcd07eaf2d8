-- ===== src/Keycloak/Server.antt =====
-- A Keycloak server as its documentation describes it: the tokens that it accepts, and what it keeps,
-- of which a theorem looks at one realm or at the clients of one.
pub mod Requests
pub mod Realms
pub mod Refinement
pub mod Clients
pub mod Ensured
use inari_operator.Base.{
  List, [], ◌∷◌, ◌≡◌, Bool, true, false, Option, none, some, ◌++◌, nat_beq, if◌then◌else◌, ℕ,
}
use inari_operator.Cluster.Env.{
  ClientRepresentation, Env, Trace, Request, Response, sent, get, put, post, Method,
  RealmRepresentation, TokenResponse,
}
use inari_operator.Cluster.Errors.{Result, ok, Done}
use inari_operator.Text.Url.{encode_values}
use inari_operator.Keycloak.Admin.{
  clients_path, client_path, clients_output, secret_output, realm_path, realm_output,
}
use inari_operator.Text.{Str, bytes, is_empty}
use inari_operator.Keycloak.Token.{Client, token_request}
use inari_operator.Keycloak.Transport.{Output, request_with, is_success, no_output}

-- A PUT changes the fields that its body has. `DisplayName` is marked `omitempty`: the body leaves an
-- empty one out.
abbrev pub merged : RealmRepresentation → RealmRepresentation → RealmRepresentation
merged existing rep = record {
  realm = existing.realm;
  display_name = if is_empty rep.display_name then existing.display_name else rep.display_name;
  enabled = rep.enabled;
}

abbrev pub HasStatus : ℕ → Response → Type 0
HasStatus n response = response.status ≡ n

module _ (env : Env) (c : Client) {S : Type 0} (state : Trace → S) where
  -- The server answers the request with a response of this kind, and its state is then this one.
  pub record Replies (t : Trace) (request : Request) (Answer : Response → Type 0) (next : S)
      : Type 0 where
    pub response : Response
    pub answered : env.send t request ≡ ok response
    pub fits : Answer response
    pub becomes : state (sent request (ok response) ∷ t) ≡ next

  -- A token that the server then accepts.
  pub record Grants (accepts : Trace → Str → Bool) (t : Trace) (response : Response) : Type 0 where
    pub granted : response.status ≡ 200
    pub token : TokenResponse
    pub decoded : env.json.decode_token response.body ≡ ok token
    pub full : is_empty token.access_token ≡ false
    pub accepted : accepts (sent (token_request env c) (ok response) ∷ t) token.access_token ≡ true

  -- `accepts`: whether the server takes a token for valid. A request with one that it does not accept
  -- is refused with 401.
  pub record IsAuthority (accepts : Trace → Str → Bool) : Type 0 where
    pub parses : (url : Str) → env.parse_url url ≡ ok tt
    pub grants : (t : Trace) → Replies t (token_request env c) (Grants accepts t) (state t)
    pub refuses :
        (t : Trace) (request : Request) (token : Str)
        → request.authorization ≡ bytes "Bearer " ++ token
        → accepts t token ≡ false
        → Replies t request (HasStatus 401) (state t)

module _ (env : Env) (c : Client) (realm : Trace → Option RealmRepresentation) where
  pub record Finds (existing : RealmRepresentation) (response : Response) : Type 0 where
    pub found : response.status ≡ 200
    pub full : is_empty response.body ≡ false
    pub decoded : env.json.decode_realm response.body ≡ ok existing

  -- What the server does with one realm.
  pub record IsServer (accepts : Trace → Str → Bool) (name : Str) : Type 0 where
    pub authority : IsAuthority env c realm accepts
    pub finds :
        (t : Trace) (token : Str) (existing : RealmRepresentation)
        → accepts t token ≡ true
        → realm t ≡ some existing
        → Replies env c realm t
            (request_with env c get (realm_path name) none (realm_output env c) token)
            (Finds existing)
            (some existing)
    pub misses :
        (t : Trace) (token : Str)
        → accepts t token ≡ true
        → realm t ≡ none
        → Replies env c realm t
            (request_with env c get (realm_path name) none (realm_output env c) token)
            (HasStatus 404)
            none
    pub updates :
        (t : Trace) (token : Str) (existing rep : RealmRepresentation)
        → accepts t token ≡ true
        → realm t ≡ some existing
        → Replies env c realm t
            (request_with env c put
              (realm_path name)
              (some (env.json.encode_realm rep))
              no_output
              token)
            (HasStatus 204)
            (some (merged existing rep))
    pub creates :
        (t : Trace) (token : Str) (rep : RealmRepresentation)
        → accepts t token ≡ true
        → realm t ≡ none
        → rep.realm ≡ name
        → Replies env c realm t
            (request_with env c post
              (bytes "/admin/realms")
              (some (env.json.encode_realm rep))
              no_output
              token)
            (HasStatus 201)
            (some rep)
    -- The realm that is found under a name has that name.
    pub named :
        (t : Trace) (existing : RealmRepresentation)
        → realm t ≡ some existing
        → existing.realm ≡ name

-- A PUT of a client, likewise: `RedirectURIs` is marked `omitempty`.
abbrev pub merged_client : ClientRepresentation → ClientRepresentation → ClientRepresentation
merged_client existing rep = record {
  id = existing.id;
  client_id = existing.client_id;
  public_client = rep.public_client;
  service_accounts_enabled = rep.service_accounts_enabled;
  standard_flow_enabled = rep.standard_flow_enabled;
  redirect_uris = elim rep.redirect_uris [ [] ↦ existing.redirect_uris | u ∷ us ↦ u ∷ us ];
}

-- The clients that a query for a client identifier returns.
abbrev pub listed : Option ClientRepresentation → List ClientRepresentation
listed none = []
listed (some existing) = existing ∷ []

module _ (env : Env) (c : Client) (client : Trace → Option ClientRepresentation) where
  abbrev pub client_query : Str → Str → Str
  client_query realm client_id =
      clients_path realm ++ bytes "?" ++ encode_values ((bytes "clientId", client_id) ∷ [])

  pub record Returns {A : Type 0} (decode : Str → Result A) (value : A) (response : Response)
      : Type 0 where
    pub found : response.status ≡ 200
    pub full : is_empty response.body ≡ false
    pub decoded : decode response.body ≡ ok value

  -- What the server does with the client of this identifier in a realm: `new_id` is the one that it
  -- gives to a new client, `secret` the client secret.
  pub record IsClientServer (accepts : Trace → Str → Bool) (realm client_id new_id secret : Str)
      : Type 0 where
    pub authority : IsAuthority env c client accepts
    pub lists :
        (t : Trace) (token : Str) (o : Option ClientRepresentation)
        → accepts t token ≡ true
        → client t ≡ o
        → Replies env c client t
            (request_with env c get
              (client_query realm client_id)
              none
              (clients_output env c)
              token)
            (Returns env.json.decode_clients (listed o))
            o
    pub updates :
        (t : Trace) (token : Str) (existing rep : ClientRepresentation)
        → accepts t token ≡ true
        → client t ≡ some existing
        → Replies env c client t
            (request_with env c put
              (client_path realm existing.id)
              (some (env.json.encode_client rep))
              no_output
              token)
            (HasStatus 204)
            (some (merged_client existing rep))
    pub creates :
        (t : Trace) (token : Str) (rep : ClientRepresentation)
        → accepts t token ≡ true
        → client t ≡ none
        → rep.client_id ≡ client_id
        → Replies env c client t
            (request_with env c post
              (clients_path realm)
              (some (env.json.encode_client rep))
              no_output
              token)
            (HasStatus 201)
            (some (record rep { id = new_id }))
    pub reveals :
        (t : Trace) (token : Str) (existing : ClientRepresentation)
        → accepts t token ≡ true
        → client t ≡ some existing
        → Replies env c client t
            (request_with env c get
              (client_path realm existing.id ++ bytes "/client-secret")
              none
              (secret_output env c)
              token)
            (Returns env.json.decode_secret secret)
            (some existing)
    pub named :
        (t : Trace) (existing : ClientRepresentation)
        → client t ≡ some existing
        → existing.client_id ≡ client_id
