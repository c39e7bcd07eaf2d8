-- ===== src/Keycloak/Server/Ensured.antt =====
-- `EnsureClient` against such a server is an update or an insertion of the client.
use inari_operator.Base.{
  ◌≡◌, refl, ap, ◌∙◌, Bool, true, false, Option, none, some, List, [], ◌∷◌, Bool-cases, inl, inr,
  if◌then◌else◌,
}
use inari_operator.Text.{Str}
use inari_operator.Cluster.Errors.{ok}
use inari_operator.Cluster.Env.{Env, Trace, ClientRepresentation}
use inari_operator.Cluster.Exec.{World, ◌>>=◌}
use inari_operator.Keycloak.Token.{Client}
use inari_operator.Keycloak.Admin.{
  ClientResult, client_drifted, ensure_client, settle_client, secret_for, created_client,
  with_standard_flow,
}
use inari_operator.Keycloak.Admin.Laws.{SameManaged, client_drifted_iff}
use inari_operator.Keycloak.Server.{IsClientServer, merged_client}
use inari_operator.Keycloak.Server.Clients.{
  find_done, put_client_done, post_client_done, secret_done,
}

-- The specification: the client afterwards, and what is reported of it.
unfoldable pub provided :
    Str → ClientRepresentation → Option ClientRepresentation → ClientRepresentation
provided new_id rep none = record rep { id = new_id }
provided new_id rep (some existing) = merged_client existing rep

abbrev pub is_new : Option ClientRepresentation → Bool
is_new none = true
is_new (some existing) = false

abbrev pub reported : Str → Str → ClientRepresentation → Option ClientRepresentation → ClientResult
reported new_id secret rep before = record {
  id = (provided new_id rep before).id;
  secret = if rep.public_client then [] else secret;
  created = is_new before;
}

kept_uris : (xs ys : List Str) → xs ≡ ys → xs ≡ (elim ys [ [] ↦ xs | u ∷ us ↦ u ∷ us ])
kept_uris xs [] h = refl
kept_uris xs (u ∷ us) h = h

merged_client_same :
    (existing rep : ClientRepresentation)
    → SameManaged existing rep
    → existing ≡ merged_client existing rep
merged_client_same existing rep same = λ i. record {
  id = existing.id;
  client_id = existing.client_id;
  public_client = same.public_client i;
  service_accounts_enabled = same.service_accounts_enabled i;
  standard_flow_enabled = same.standard_flow_enabled i;
  redirect_uris = kept_uris existing.redirect_uris rep.redirect_uris same.redirect_uris i;
}

module _ (env : Env) (c : Client) (client : Trace → Option ClientRepresentation)
    (accepts : Trace → Str → Bool) (realm : Str) (rep : ClientRepresentation) (new_id secret : Str)
    (server : IsClientServer env c client accepts realm rep.client_id new_id secret) where
  abbrev Settled : Option ClientRepresentation → World → Type 0
  Settled before w =
      (v : World) × (settle_client env c realm rep before w
        ≡ (ok ((provided new_id rep before).id, is_new before), v))
      × (client v.trace ≡ some (provided new_id rep before))

  settles_new : (w : World) → client w.trace ≡ none → Settled none w
  unfolding settle_client created_client provided ◌>>=◌
  settles_new w absent =
      let (u, made, there) =
        post_client_done env c client accepts realm rep.client_id new_id secret server rep w refl
          absent in
      let (v, found, still) =
        find_done env c client accepts realm rep.client_id new_id secret server
          (some (record rep { id = new_id })) u there in
      (v, rw (made, found) refl, still)

  settles_drifted :
      (existing : ClientRepresentation) (w : World)
      → client w.trace ≡ some existing
      → client_drifted existing rep ≡ true
      → Settled (some existing) w
  unfolding settle_client provided ◌>>=◌
  settles_drifted existing w there drifted =
      let (v, changed, after) =
        put_client_done env c client accepts realm rep.client_id new_id secret server existing
          (record rep { id = existing.id }) w there in
      (v, rw (drifted, changed) refl, after)

  settles_same :
      (existing : ClientRepresentation) (w : World)
      → client w.trace ≡ some existing
      → client_drifted existing rep ≡ false
      → Settled (some existing) w
  unfolding settle_client provided
  settles_same existing w there same = (
    w,
    rw same refl,
    there ∙ ap some (merged_client_same existing rep ((client_drifted_iff existing rep).0 same)),
  )

  settles :
      (before : Option ClientRepresentation) (w : World)
      → client w.trace ≡ before
      → Settled before w
  settles none w is = settles_new w is
  settles (some existing) w is = elim (Bool-cases (client_drifted existing rep)) [
    | inl drifted ↦ settles_drifted existing w is drifted
    | inr same ↦ settles_same existing w is same
  ]

  reads_secret :
      (existing : ClientRepresentation) (w : World)
      → client w.trace ≡ some existing
      → (v : World) × (secret_for env c realm rep existing.id w
          ≡ (ok (if rep.public_client then [] else secret), v))
        × (client v.trace ≡ some existing)
  unfolding secret_for
  reads_secret existing w there = elim (Bool-cases rep.public_client) [
    | inl public ↦ (w, rw public refl, there)
    | inr confidential ↦
        let (v, asked, still) =
          secret_done env c client accepts realm rep.client_id new_id secret server existing w
            there in
        (v, rw confidential asked, still)
  ]

module _ (env : Env) (c : Client) (client : Trace → Option ClientRepresentation)
    (accepts : Trace → Str → Bool) (realm : Str) (desired : ClientRepresentation)
    (new_id secret : Str)
    (server : IsClientServer env c client accepts realm desired.client_id new_id secret) where
  abbrev pub Provided : Option ClientRepresentation → World → Type 0
  Provided before w =
      (v : World) × (ensure_client env c realm desired w
        ≡ (ok (reported new_id secret (with_standard_flow env c desired) before), v))
      × (client v.trace ≡ some (provided new_id (with_standard_flow env c desired) before))

  ensures :
      (before : Option ClientRepresentation) (w : World)
      → client w.trace ≡ before
      → Provided before w
  unfolding ensure_client ◌>>=◌
  ensures before w is =
      let rep = with_standard_flow env c desired in
      let (w1, found, still) =
        find_done env c client accepts realm desired.client_id new_id secret server before w is in
      let (w2, settled, there) =
        settles env c client accepts realm rep new_id secret server before w1 still in
      let (w3, read, last) =
        reads_secret env c client accepts realm rep new_id secret server
          (provided new_id rep before) w2 there in
      (w3, rw (found, settled, read) refl, last)

  -- Against a server that behaves as documented, `EnsureClient` succeeds, whatever token is cached, and
  -- is an update or an insertion: it reports the identifier of the client, whether it was missing, and
  -- its secret unless it is public; and the client then has the wanted settings, with the standard
  -- flow exactly where redirect URIs are wanted, but for redirect URIs that it had where none are
  -- wanted.
  pub ensure_client-reported : (w : World) → Provided (client w.trace) w
  ensure_client-reported w = ensures (client w.trace) w refl
