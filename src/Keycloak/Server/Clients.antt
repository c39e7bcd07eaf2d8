-- ===== src/Keycloak/Server/Clients.antt =====
-- The requests that `EnsureClient` makes, against such a server.
use inari_operator.Base.{◌≡◌, refl, Bool, Option, none, some, ◌++◌, ==_iff}
use inari_operator.Text.{Str, bytes, str_eq}
use inari_operator.Cluster.Errors.{ok}
use inari_operator.Cluster.Env.{Env, Trace, get, put, post, ClientRepresentation}
use inari_operator.Cluster.Exec.{World, ◌>>=◌}
use inari_operator.Keycloak.Token.{Client}
use inari_operator.Keycloak.Transport.{no_output, request}
use inari_operator.Keycloak.Admin.{
  clients_path, client_path, clients_output, secret_output, first_with_id, find_client,
  get_client_secret,
}
use inari_operator.Keycloak.Server.{IsClientServer, merged_client, listed, client_query}
use inari_operator.Keycloak.Server.Requests.{
  Yields-done, Yields-decoded, Replies-map, request_served,
}

module _ (env : Env) (c : Client) (client : Trace → Option ClientRepresentation)
    (accepts : Trace → Str → Bool) (realm client_id new_id secret : Str)
    (server : IsClientServer env c client accepts realm client_id new_id secret) where
  queried :
      (o : Option ClientRepresentation) (w : World)
      → client w.trace ≡ o
      → (u : World) × (request env c get
            (client_query env c client realm client_id)
            none
            (clients_output env c)
            w
          ≡ (ok (listed o), u))
        × (client u.trace ≡ o)
  queried o =
      request_served env c client accepts server.authority get
        (client_query env c client realm client_id) none (clients_output env c) o o (ok (listed o))
        (λ t token accepted here.
          Replies-map env c client
            (λ response r.
              Yields-decoded env c client accepts server.authority get
                (client_query env c client realm client_id) none (clients_output env c) o o
                (listed o) response r.found r.full r.decoded)
            (server.lists t token o accepted here))

  first_listed :
      (t : Trace) (o : Option ClientRepresentation)
      → client t ≡ o
      → first_with_id client_id (listed o) ≡ o
  unfolding first_with_id
  first_listed t none is = refl
  first_listed t (some existing) is =
      rw ((==_iff existing.client_id client_id).1 (server.named t existing is)) refl

  pub find_done :
      (o : Option ClientRepresentation) (w : World)
      → client w.trace ≡ o
      → (u : World) × (find_client env c realm client_id w ≡ (ok o, u)) × (client u.trace ≡ o)
  unfolding find_client ◌>>=◌
  find_done o w is =
      let (u, asked, still) = queried o w is in
      (u, rw (asked, first_listed w.trace o is) refl, still)

  pub put_client_done :
      (existing rep : ClientRepresentation) (w : World)
      → client w.trace ≡ some existing
      → (u : World) × (request env c put
            (client_path realm existing.id)
            (some (env.json.encode_client rep))
            no_output
            w
          ≡ (ok tt, u))
        × (client u.trace ≡ some (merged_client existing rep))
  put_client_done existing rep =
      request_served env c client accepts server.authority put (client_path realm existing.id)
        (some (env.json.encode_client rep)) no_output (some existing)
        (some (merged_client existing rep)) (ok tt)
        (λ t token accepted here.
          Replies-map env c client
            (λ response.
              Yields-done env c client accepts server.authority put (client_path realm existing.id)
                (some (env.json.encode_client rep)) (some existing)
                (some (merged_client existing rep)) 204 response refl refl refl)
            (server.updates t token existing rep accepted here))

  pub post_client_done :
      (rep : ClientRepresentation) (w : World)
      → rep.client_id ≡ client_id
      → client w.trace ≡ none
      → (u : World) × (request env c post
            (clients_path realm)
            (some (env.json.encode_client rep))
            no_output
            w
          ≡ (ok tt, u))
        × (client u.trace ≡ some (record rep { id = new_id }))
  post_client_done rep w is =
      request_served env c client accepts server.authority post (clients_path realm)
        (some (env.json.encode_client rep)) no_output none (some (record rep { id = new_id }))
        (ok tt)
        (λ t token accepted here.
          Replies-map env c client
            (λ response.
              Yields-done env c client accepts server.authority post (clients_path realm)
                (some (env.json.encode_client rep)) none (some (record rep { id = new_id })) 201
                response refl refl refl)
            (server.creates t token rep accepted here is))
        w

  pub secret_done :
      (existing : ClientRepresentation) (w : World)
      → client w.trace ≡ some existing
      → (u : World) × (get_client_secret env c realm existing.id w ≡ (ok secret, u))
        × (client u.trace ≡ some existing)
  unfolding get_client_secret
  secret_done existing w is =
      let path = client_path realm existing.id ++ bytes "/client-secret" in
      let (u, asked, still) =
        request_served env c client accepts server.authority get path none (secret_output env c)
          (some existing) (some existing) (ok secret)
          (λ t token accepted here.
            Replies-map env c client
              (λ response r.
                Yields-decoded env c client accepts server.authority get path none
                  (secret_output env c) (some existing) (some existing) secret response r.found
                  r.full r.decoded)
              (server.reveals t token existing accepted here))
          w is in
      (u, rw asked refl, still)
