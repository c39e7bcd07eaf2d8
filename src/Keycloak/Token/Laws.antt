-- ===== src/Keycloak/Token/Laws.antt =====
-- The cached token.
use inari_operator.Base.{
  ◌∷◌, sym, ap, ◌∙◌, ◌≡◌, true, false, not, ◌&&◌, arith, Bool-cases, inl, inr,
}
use inari_operator.Text.{Str, is_empty, bytes}
use inari_operator.Cluster.Errors.{ok}
use inari_operator.Cluster.Env.{Env, sent, Response, TokenResponse}
use inari_operator.Cluster.Exec.{World, ◌>>=◌, lift}
use inari_operator.Cluster.Exec.Inversion.{>>=-eq-ok, wrapping-eq-ok, lift-eq-ok, send-eq-ok}
use inari_operator.Cluster.Calls.{send}
use inari_operator.Cluster.Exec.Sends.{
  requests, Sends, Sends-lift, Sends-bind, Sends-wrapping, Sends-send,
}
use inari_operator.Keycloak.Token.{
  Client, is_fresh, get_token, request_token, accept_token, store_token, token_request, bytes,
}

module _ (env : Env) (c : Client) where
  store_token-eq-ok :
      (tok : TokenResponse) (w v : World) (t : Str)
      → store_token env c tok w ≡ (ok t, v)
      → (is_empty t ≡ false) × (v.token ≡ t)
  unfolding store_token
  store_token-eq-ok tok w v t h = ground arith

  accept_token-eq-ok :
      (resp : Response) (w v : World) (t : Str)
      → accept_token env c resp w ≡ (ok t, v)
      → (is_empty t ≡ false) × (v.token ≡ t)
  unfolding accept_token ◌>>=◌
  accept_token-eq-ok resp w v t h = ground arith

  request_token-eq-ok :
      (w v : World) (t : Str)
      → request_token env c w ≡ (ok t, v)
      → (is_empty t ≡ false) × (v.token ≡ t)
  unfolding request_token
  request_token-eq-ok w v t h =
      let (_, u, _, h') = >>=-eq-ok (lift (env.parse_url c.token_url)) _ w h in
      let (resp, u', _, h'') = >>=-eq-ok _ (accept_token env c) u h' in
      accept_token-eq-ok resp u' v t h''

  -- A token that is returned is not empty, and it is the one that the client has cached.
  pub get_token-eq-ok :
      (w v : World) (t : Str) → get_token env c w ≡ (ok t, v) → (is_empty t ≡ false) × (v.token ≡ t)
  unfolding get_token
  get_token-eq-ok w v t h =
      elim (Bool-cases (not (is_empty w.token) && is_fresh (env.now w.trace) w.token_exp)) [
        | inl cached ↦ ground arith
        | inr stale ↦ request_token-eq-ok w v t (rw stale at h)
      ]

  -- Where a token was returned and is still fresh, a further call returns it and sends nothing.
  pub get_token_again :
      (w v : World) (t : Str)
      → get_token env c w ≡ (ok t, v)
      → is_fresh (env.now v.trace) v.token_exp ≡ true
      → get_token env c v ≡ (ok t, v)
  get_token_again w v t h fresh =
      let (full, same) = get_token-eq-ok w v t h in unfold get_token in rw (same, full, fresh)

  store_token_trace :
      (tok : TokenResponse) (w : World) → (store_token env c tok w).1.trace ≡ w.trace
  unfolding store_token
  store_token_trace tok w = ground arith

  accept_token_trace : (resp : Response) (w : World) → (accept_token env c resp w).1.trace ≡ w.trace
  unfolding accept_token ◌>>=◌
  accept_token_trace resp w = ground arith

  -- Without a cached token, a token that is returned was requested just now.
  pub get_token_anew :
      (w v : World) (t : Str)
      → is_empty w.token ≡ true
      → get_token env c w ≡ (ok t, v)
      → (resp : Response) × (v.trace ≡ sent (token_request env c) (ok resp) ∷ w.trace)
  unfolding get_token request_token
  get_token_anew w v t absent h =
      let h1 : request_token env c w ≡ (ok t, v) = rw absent at h in
      let (_, u, lifted, h2) = >>=-eq-ok (lift (env.parse_url c.token_url)) _ w h1 in
      let (resp, u', sent_at, h3) = >>=-eq-ok _ (accept_token env c) u h2 in
      let same : u ≡ w = lift-eq-ok (env.parse_url c.token_url) w lifted in
      let more =
        send-eq-ok env (token_request env c) u
          (wrapping-eq-ok (bytes "token request: ") (send env (token_request env c)) u sent_at) in
      (
        resp,
        sym (ap (λ p. p.1.trace) h3)
            ∙ accept_token_trace resp u'
            ∙ more
            ∙ ap (λ x. sent (token_request env c) (ok resp) ∷ x.trace) same,
      )

module _ (env : Env) (c : Client) where
  Sends-store_token : (tok : TokenResponse) → Sends 0 (store_token env c tok)
  Sends-store_token tok = record {
    at_most = λ w. omega (arith, ap requests (store_token_trace env c tok w));
  }

  Sends-accept_token : (resp : Response) → Sends 0 (accept_token env c resp)
  Sends-accept_token resp = record {
    at_most = λ w. omega (arith, ap requests (accept_token_trace env c resp w));
  }

  Sends-request_token : Sends 1 (request_token env c)
  unfolding request_token
  Sends-request_token = Sends-bind _ _ (Sends-lift _) (λ _.
      Sends-bind _ _ (Sends-wrapping _ _ (Sends-send env (token_request env c))) Sends-accept_token)

  -- At most one request for a token.
  pub Sends-get_token : Sends 1 (get_token env c)
  unfolding get_token
  Sends-get_token = record { at_most = λ w. ground (arith, Sends-request_token.at_most w) }
