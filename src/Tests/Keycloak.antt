-- ===== src/Tests/Keycloak.antt =====
-- The theorems on the Keycloak client, against a server that answers its second request with 401.
use inari_operator.Base.{◌≡◌, ◌↔◌, refl, true, false, none, [], ◌∷◌}
use inari_operator.Text.{Str, bytes}
use inari_operator.Cluster.Errors.{ok}
use inari_operator.Cluster.Env.{Response, RealmRepresentation, get, sent}
use inari_operator.Cluster.Exec.{World, ◌>>=◌}
use inari_operator.Cluster.Exec.Sends.{Sends}
use inari_operator.Keycloak.Token.{get_token, token_request, invalidate_token, is_fresh}
use inari_operator.Keycloak.Token.Laws.{get_token_again}
use inari_operator.Keycloak.Transport.{request, do_once, Reply, request_with}
use inari_operator.Keycloak.Transport.Laws.{
  EndsInSuccess, request-eq-ok, request_retried, Sends-request,
}
use inari_operator.Keycloak.Admin.{client_drifted, realm_output, realm_path}
use inari_operator.Keycloak.Admin.Laws.{SameManaged, client_drifted_iff}
use inari_operator.Tests.Sample.{sample_env, sample_client, sample_realm, sample_rep, start_world}
use inari_operator.Cluster.Calls.{send}

abbrev token_world : World
token_world = (get_token sample_env sample_client start_world).1

token_got : get_token sample_env sample_client start_world ≡ (ok (bytes "tok"), token_world)
unfolding get_token ◌>>=◌ send bytes
token_got = refl

token_fresh : is_fresh (sample_env.now token_world.trace) token_world.token_exp ≡ true
unfolding get_token ◌>>=◌ send bytes
token_fresh = refl

get_token_again_example :
    get_token sample_env sample_client token_world ≡ (ok (bytes "tok"), token_world)
get_token_again_example =
    get_token_again sample_env sample_client start_world token_world (bytes "tok") token_got
      token_fresh

abbrev path : Str
path = realm_path (bytes "acme")

abbrev first_world : World
first_world =
    (do_once sample_env sample_client get path none (realm_output sample_env sample_client)
      start_world).1

abbrev last_world : World
last_world =
    (request sample_env sample_client get path none (realm_output sample_env sample_client)
      start_world).1

abbrev refused : Reply RealmRepresentation
refused = record {
  status = 401;
  raw = bytes "body";
  out = record { realm = []; display_name = []; enabled = false };
}

got_401 :
    do_once sample_env sample_client get path none
      (realm_output sample_env sample_client)
      start_world
    ≡ (ok refused, first_world)
unfolding do_once ◌>>=◌ get_token send bytes
got_401 = refl

got_realm :
    request sample_env sample_client get path none
      (realm_output sample_env sample_client)
      start_world
    ≡ (ok sample_realm, last_world)
unfolding request ◌>>=◌ do_once get_token send bytes invalidate_token
got_realm = refl

request-eq-ok_example :
    EndsInSuccess sample_env sample_client get path none
      (realm_output sample_env sample_client)
      last_world
request-eq-ok_example =
    request-eq-ok sample_env sample_client get path none (realm_output sample_env sample_client)
      start_world last_world sample_realm got_realm

request_retried_example :
    (token : Str) × (answer granted : Response) × (last_world.trace
      ≡ sent
          (request_with sample_env sample_client get path none
            (realm_output sample_env sample_client)
            token)
          (ok answer)
        ∷ sent (token_request sample_env sample_client) (ok granted)
        ∷ first_world.trace)
request_retried_example =
    request_retried sample_env sample_client get path none (realm_output sample_env sample_client)
      start_world first_world last_world refused sample_realm got_401 refl got_realm

Sends-request_example :
    Sends 4 (request sample_env sample_client get path none (realm_output sample_env sample_client))
Sends-request_example =
    Sends-request sample_env sample_client get path none (realm_output sample_env sample_client)

client_drifted_iff_example :
    (client_drifted sample_rep sample_rep ≡ false) ↔ SameManaged sample_rep sample_rep
client_drifted_iff_example = client_drifted_iff sample_rep sample_rep
