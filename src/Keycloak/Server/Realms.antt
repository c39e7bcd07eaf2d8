-- ===== src/Keycloak/Server/Realms.antt =====
-- The requests that `EnsureRealm` makes, against such a server.
use inari_operator.Base.{◌≡◌, refl, ap, Bool, Option, none, some, nat_beq, Bool-cases, inl, inr}
use inari_operator.Text.{Str, bytes, is_empty}
use inari_operator.Cluster.Errors.{ok, err, keycloak_not_found}
use inari_operator.Cluster.Env.{Env, Trace, Response, get, put, post, RealmRepresentation}
use inari_operator.Cluster.Exec.{World, ◌>>=◌}
use inari_operator.Keycloak.Token.{Client}
use inari_operator.Keycloak.Transport.{no_output, read_reply, judge, request, is_success}
use inari_operator.Keycloak.Admin.{realm_path, realm_output}
use inari_operator.Keycloak.Server.{IsServer, merged}
use inari_operator.Keycloak.Server.Requests.{
  Yields, Yields-done, Yields-decoded, Replies-map, request_served,
}

module _ (env : Env) (c : Client) (realm : Trace → Option RealmRepresentation)
    (accepts : Trace → Str → Bool) (name : Str) (server : IsServer env c realm accepts name) where
  Yields-missing :
      (before next : Option RealmRepresentation) (response : Response)
      → response.status ≡ 404
      → Yields env c realm accepts server.authority get
          (realm_path name)
          none
          (realm_output env c)
          before
          next
          (err keycloak_not_found)
          response
  unfolding read_reply judge ◌>>=◌
  Yields-missing before next response has = record {
    reply = record {
      status = response.status;
      raw = response.body;
      out = (realm_output env c).zero_value;
    };
    read = λ w. rw (ap is_success has) refl;
    other = ap (λ n. nat_beq n 401) has;
    judged = λ w. rw (ap (λ n. nat_beq n 404) has) refl;
  }

  pub get_found :
      (existing : RealmRepresentation) (w : World)
      → realm w.trace ≡ some existing
      → (u : World) × (request env c get (realm_path name) none (realm_output env c) w
          ≡ (ok existing, u))
        × (realm u.trace ≡ some existing)
  get_found existing =
      request_served env c realm accepts server.authority get (realm_path name) none
        (realm_output env c) (some existing) (some existing) (ok existing)
        (λ t token accepted here.
          Replies-map env c realm
            (λ response finds.
              Yields-decoded env c realm accepts server.authority get (realm_path name) none
                (realm_output env c) (some existing) (some existing) existing response finds.found
                finds.full finds.decoded)
            (server.finds t token existing accepted here))

  pub get_missing :
      (w : World)
      → realm w.trace ≡ none
      → (u : World) × (request env c get (realm_path name) none (realm_output env c) w
          ≡ (err keycloak_not_found, u))
        × (realm u.trace ≡ none)
  get_missing =
      request_served env c realm accepts server.authority get (realm_path name) none
        (realm_output env c) none none (err keycloak_not_found)
        (λ t token accepted here.
          Replies-map env c realm (Yields-missing none none) (server.misses t token accepted here))

  pub put_done :
      (existing rep : RealmRepresentation) (w : World)
      → realm w.trace ≡ some existing
      → (u : World) × (request env c put
            (realm_path name)
            (some (env.json.encode_realm rep))
            no_output
            w
          ≡ (ok tt, u))
        × (realm u.trace ≡ some (merged existing rep))
  put_done existing rep =
      request_served env c realm accepts server.authority put (realm_path name)
        (some (env.json.encode_realm rep)) no_output (some existing) (some (merged existing rep))
        (ok tt)
        (λ t token accepted here.
          Replies-map env c realm
            (λ response.
              Yields-done env c realm accepts server.authority put (realm_path name)
                (some (env.json.encode_realm rep)) (some existing) (some (merged existing rep)) 204
                response refl refl refl)
            (server.updates t token existing rep accepted here))

  pub post_done :
      (rep : RealmRepresentation) (w : World)
      → rep.realm ≡ name
      → realm w.trace ≡ none
      → (u : World) × (request env c post
            (bytes "/admin/realms")
            (some (env.json.encode_realm rep))
            no_output
            w
          ≡ (ok tt, u))
        × (realm u.trace ≡ some rep)
  post_done rep w is =
      request_served env c realm accepts server.authority post (bytes "/admin/realms")
        (some (env.json.encode_realm rep)) no_output none (some rep) (ok tt)
        (λ t token accepted here.
          Replies-map env c realm
            (λ response.
              Yields-done env c realm accepts server.authority post (bytes "/admin/realms")
                (some (env.json.encode_realm rep)) none (some rep) 201 response refl refl refl)
            (server.creates t token rep accepted here is))
        w

pub merged_same :
    (existing rep : RealmRepresentation)
    → existing.display_name ≡ rep.display_name
    → existing.enabled ≡ rep.enabled
    → existing ≡ merged existing rep
merged_same existing rep same_name same_state = elim (Bool-cases (is_empty rep.display_name)) [
  | inl empty ↦ rw empty (λ i. record {
    realm = existing.realm;
    display_name = existing.display_name;
    enabled = same_state i;
  })
  | inr full ↦
      rw full
        (λ i. record { realm = existing.realm; display_name = same_name i; enabled = same_state i })
]
