-- ===== src/Keycloak/Server/Requests.antt =====
-- An authenticated request against such a server: whatever token is cached, it gets the answer to a
-- request with a token that the server accepts.
use inari_operator.Keycloak.Transport.{
  no_output, Output, Reply, request_with, do_once, read_reply, judge, request, after_first,
  is_success,
}
use inari_operator.Cluster.Env.{Request, Env, Trace, Response, sent, Method, TokenResponse}
use inari_operator.Base.{
  ◌≡◌, inl, inr, refl, ap, ◌∙◌, Bool, true, false, not, ◌&&◌, Option, nat_beq, Bool-cases, [], ℕ,
}
use inari_operator.Text.{Str, is_empty}
use inari_operator.Cluster.Errors.{Result, ok}
use inari_operator.Cluster.Exec.{World, log, ◌>>=◌}
use inari_operator.Cluster.Calls.{send}
use inari_operator.Keycloak.Token.{
  Client, is_fresh, get_token, request_token, accept_token, store_token, token_request,
  invalidate_token,
}
use inari_operator.Keycloak.Server.{IsAuthority, Replies}

module _ (env : Env) (c : Client) {S : Type 0} (state : Trace → S) (accepts : Trace → Str → Bool)
    (server : IsAuthority env c state accepts) where
  store_token_full :
      (tok : TokenResponse) (w : World)
      → is_empty tok.access_token ≡ false
      → (v : World) × (store_token env c tok w ≡ (ok tok.access_token, v)) × (v.trace ≡ w.trace)
  unfolding store_token
  store_token_full tok w full = ((store_token env c tok w).1, rw full refl, rw full refl)

  request_token_granted :
      (w : World)
      → (token : Str) × (v : World) × (request_token env c w ≡ (ok token, v))
        × (state v.trace ≡ state w.trace)
        × (accepts v.trace token ≡ true)
  unfolding request_token accept_token send ◌>>=◌
  request_token_granted w =
      let g = server.grants w.trace in
      let (v, stored, same) =
        store_token_full g.fits.token (log (sent (token_request env c) (ok g.response)) w)
          g.fits.full in
      (
        g.fits.token.access_token,
        v,
        rw
            (
              server.parses c.token_url,
              g.answered,
              ap (λ n. nat_beq n 200) g.fits.granted,
              g.fits.decoded,
            )
            stored,
        ap state same ∙ g.becomes,
        rw same g.fits.accepted,
      )

  -- A token that may be an old one, which the server need not accept.
  get_token_served :
      (w : World)
      → (token : Str) × (v : World) × (get_token env c w ≡ (ok token, v))
        × (state v.trace ≡ state w.trace)
  unfolding get_token
  get_token_served w =
      elim (Bool-cases (not (is_empty w.token) && is_fresh (env.now w.trace) w.token_exp)) [
        | inl cached ↦ (w.token, w, rw cached refl, refl)
        | inr stale ↦
            let (token, v, got, kept, accepted) = request_token_granted w in
            (token, v, rw stale got, kept)
      ]

  get_token_anew_served :
      (w : World)
      → is_empty w.token ≡ true
      → (token : Str) × (v : World) × (get_token env c w ≡ (ok token, v))
        × (state v.trace ≡ state w.trace)
        × (accepts v.trace token ≡ true)
  unfolding get_token
  get_token_anew_served w none_cached =
      let (token, v, got, kept, accepted) = request_token_granted w in
      (token, v, rw none_cached got, kept, accepted)

  do_once_sends :
      {A : Type 0} (method : Method) (path : Str) (input : Option Str) (output : Output A)
      (w : World) (token : Str) (v : World) (response : Response)
      → get_token env c w ≡ (ok token, v)
      → env.send v.trace (request_with env c method path input output token) ≡ ok response
      → do_once env c method path input output w
        ≡ read_reply env c method path input output response
            (log (sent (request_with env c method path input output token) (ok response)) v)
  unfolding do_once send ◌>>=◌
  do_once_sends method path input output w token v response got answered =
      rw (server.parses _, got, answered)

  module _ {A : Type 0} (method : Method) (path : Str) (input : Option Str) (output : Output A)
      (before next : S) (result : Result A) where
    -- What the response becomes, where the request is not refused.
    pub record Yields (response : Response) : Type 0 where
      pub reply : Reply A
      pub read : (w : World) → read_reply env c method path input output response w ≡ (ok reply, w)
      pub other : nat_beq reply.status 401 ≡ false
      pub judged : (w : World) → judge env c method path input output reply w ≡ (result, w)

    module _
        (serves : (t : Trace) (token : Str)
          → accepts t token ≡ true
          → state t ≡ before
          → Replies env c state t
              (request_with env c method path input output token)
              Yields
              next) where
      -- One attempt, with a token that the server accepts.
      served_once :
          (w : World) (token : Str) (v : World)
          → get_token env c w ≡ (ok token, v)
          → accepts v.trace token ≡ true
          → state v.trace ≡ before
          → (reply : Reply A) × (u : World) × (do_once env c method path input output w
              ≡ (ok reply, u))
            × (nat_beq reply.status 401 ≡ false)
            × (judge env c method path input output reply u ≡ (result, u))
            × (state u.trace ≡ next)
      served_once w token v got accepted is =
          let r = serves v.trace token accepted is in
          let u =
            log (sent (request_with env c method path input output token) (ok r.response)) v in
          (
            r.fits.reply,
            u,
            do_once_sends method path input output w token v r.response got r.answered
                ∙ r.fits.read u,
            r.fits.other,
            r.fits.judged u,
            r.becomes,
          )

      -- From a world without a cached token.
      served_anew :
          (w : World)
          → is_empty w.token ≡ true
          → state w.trace ≡ before
          → (reply : Reply A) × (u : World) × (do_once env c method path input output w
              ≡ (ok reply, u))
            × (nat_beq reply.status 401 ≡ false)
            × (judge env c method path input output reply u ≡ (result, u))
            × (state u.trace ≡ next)
      served_anew w none_cached is =
          let (token, v, got, kept, accepted) = get_token_anew_served w none_cached in
          served_once w token v got accepted (kept ∙ is)

      refused_once :
          (w : World) (token : Str) (v : World)
          → get_token env c w ≡ (ok token, v)
          → accepts v.trace token ≡ false
          → (reply : Reply A) × (u : World) × (do_once env c method path input output w
              ≡ (ok reply, u))
            × (reply.status ≡ 401)
            × (state u.trace ≡ state v.trace)
      unfolding read_reply
      refused_once w token v got refused =
          let r =
            server.refuses v.trace (request_with env c method path input output token) token refl
              refused in
          let status = r.fits in
          (
            record { status = r.response.status; raw = r.response.body; out = output.zero_value },
            log (sent (request_with env c method path input output token) (ok r.response)) v,
            do_once_sends method path input output w token v r.response got r.answered
                ∙ rw (ap is_success status) refl,
            status,
            r.becomes,
          )

      retried :
          (w u : World) (first : Reply A)
          → do_once env c method path input output w ≡ (ok first, u)
          → first.status ≡ 401
          → state u.trace ≡ before
          → (v : World) × (request env c method path input output w ≡ (result, v))
            × (state v.trace ≡ next)
      unfolding request after_first invalidate_token ◌>>=◌
      retried w u first once unauthorized is =
          let (reply, v, again, other, judged, after) =
            served_anew (record u { token = []; token_exp = 0 }) refl is in
          (v, rw (once, unauthorized, again) judged, after)

      at_once :
          (w : World) (token : Str) (v : World)
          → get_token env c w ≡ (ok token, v)
          → accepts v.trace token ≡ true
          → state v.trace ≡ before
          → (u : World) × (request env c method path input output w ≡ (result, u))
            × (state u.trace ≡ next)
      unfolding request after_first ◌>>=◌
      at_once w token v got accepted is =
          let (reply, u, once, other, judged, after) = served_once w token v got accepted is in
          (u, rw (once, other) judged, after)

      -- Whatever token is cached, the request has this result and leaves this state: one that is
      -- refused is sent once more with a new token.
      pub request_served :
          (w : World)
          → state w.trace ≡ before
          → (u : World) × (request env c method path input output w ≡ (result, u))
            × (state u.trace ≡ next)
      request_served w is =
          let (token, v, got, kept) = get_token_served w in
          elim (Bool-cases (accepts v.trace token)) [
            | inl accepted ↦ at_once w token v got accepted (kept ∙ is)
            | inr refused ↦
                let (first, u, once, unauthorized, same) = refused_once w token v got refused in
                retried w u first once unauthorized (same ∙ kept ∙ is)
          ]

module _ (env : Env) (c : Client) {S : Type 0} (state : Trace → S) where
  pub Replies-map :
      {t : Trace} {request : Request} {P Q : Response → Type 0} {next : S}
      → ((response : Response) → P response → Q response)
      → Replies env c state t request P next
      → Replies env c state t request Q next
  Replies-map f r = record {
    response = r.response;
    answered = r.answered;
    fits = f r.response r.fits;
    becomes = r.becomes;
  }

module _ (env : Env) (c : Client) {S : Type 0} (state : Trace → S) (accepts : Trace → Str → Bool)
    (server : IsAuthority env c state accepts) where
  -- A command, answered with a status that is a success.
  pub Yields-done :
      (method : Method) (path : Str) (input : Option Str) (before next : S) (status : ℕ)
      (response : Response)
      → is_success status ≡ true
      → nat_beq status 401 ≡ false
      → nat_beq status 404 ≡ false
      → response.status ≡ status
      → Yields env c state accepts server method path input no_output before next (ok tt) response
  unfolding read_reply judge ◌>>=◌
  Yields-done method path input before next status response good known there has = record {
    reply = record { status = response.status; raw = response.body; out = tt };
    read = λ w. elim (Bool-cases (is_empty response.body)) [
      | inl empty ↦ rw (ap is_success has, good, empty) refl
      | inr full ↦ rw (ap is_success has, good, full) refl
    ];
    other = ap (λ n. nat_beq n 401) has ∙ known;
    judged = λ w. rw (ap is_success has, good, ap (λ n. nat_beq n 404) has, there) refl;
  }

  -- A query, answered with 200 and a body that is decoded.
  pub Yields-decoded :
      {A : Type 0} (method : Method) (path : Str) (input : Option Str) (output : Output A)
      (before next : S) (value : A) (response : Response)
      → response.status ≡ 200
      → is_empty response.body ≡ false
      → output.decode response.body ≡ ok value
      → Yields env c state accepts server method path input output before next (ok value) response
  unfolding read_reply judge ◌>>=◌
  Yields-decoded method path input output before next value response has full decoded = record {
    reply = record { status = response.status; raw = response.body; out = value };
    read = λ w. rw (ap is_success has, full, decoded) refl;
    other = ap (λ n. nat_beq n 401) has;
    judged = λ w. rw (ap (λ n. nat_beq n 404) has, ap is_success has) refl;
  }
