-- ===== src/Keycloak/Transport/Laws.antt =====
-- The authenticated request: what a success and a failure say, and how often it calls.
use inari_operator.Base.{
  ◌≡◌, sym, ap, ◌∙◌, true, Option, ◌∷◌, arith, nat_beq, Bool-cases, inl, inr, subst,
}
use inari_operator.Text.{Str, is_empty}
use inari_operator.Cluster.Errors.{ok}
use inari_operator.Cluster.Env.{Env, Trace, sent, Method, Response}
use inari_operator.Cluster.Exec.{World, ◌>>=◌, ◌>>◌, lift}
use inari_operator.Cluster.Exec.Inversion.{>>=-eq-ok, lift-eq-ok, send-eq-ok}
use inari_operator.Cluster.Exec.Sends.{
  Sends, Sends-lift, Sends-bind, Sends-send, Sends-if, Sends-pure, Sends-raise, Sends-wrapping,
  Sends-le,
}
use inari_operator.Cluster.Calls.{send}
use inari_operator.Keycloak.Token.{Client, get_token, invalidate_token, token_request}
use inari_operator.Keycloak.Token.Laws.{get_token_anew, Sends-get_token}
use inari_operator.Keycloak.Transport.{
  Output, Reply, request_with, read_reply, do_once, judge, request, after_first, is_success,
}

invalidated :
    (u v : World) {t : Unit {0}}
    → invalidate_token u ≡ (ok t, v)
    → (is_empty v.token ≡ true) × (v.trace ≡ u.trace)
unfolding invalidate_token
invalidated u v h = (ap (λ p. is_empty p.1.token) (sym h), ap (λ p. p.1.trace) (sym h))

module _ (env : Env) (c : Client) {A : Type 0} (method : Method) (path : Str) (input : Option Str)
    (output : Output A) where
  read_reply-eq-ok :
      (resp : Response) (w v : World) (reply : Reply A)
      → read_reply env c method path input output resp w ≡ (ok reply, v)
      → (reply.status ≡ resp.status) × (reply.raw ≡ resp.body) × (v ≡ w)
  unfolding read_reply ◌>>=◌
  read_reply-eq-ok resp w v reply h = ground arith

  -- The last call of an attempt that gets an answer is the request, with the cached token; the calls
  -- before it are those of `getToken`.
  pub record Answered (w v : World) (reply : Reply A) : Type 0 where
    pub token_world : World
    pub token : Str
    pub got_token : get_token env c w ≡ (ok token, token_world)
    pub response : Response
    pub last_call :
        v.trace
        ≡ sent (request_with env c method path input output token) (ok response) ∷ token_world.trace
    pub status : reply.status ≡ response.status

  pub do_once-eq-ok :
      (w v : World) (reply : Reply A)
      → do_once env c method path input output w ≡ (ok reply, v)
      → Answered w v reply
  unfolding do_once
  do_once-eq-ok w v reply h =
      let (_, w1, lifted, h1) = >>=-eq-ok (lift (env.parse_url _)) _ w h in
      let (t, w2, got, h2) = >>=-eq-ok (get_token env c) _ w1 h1 in
      let (resp, w3, answered, h3) =
        >>=-eq-ok (send env (request_with env c method path input output t)) _ w2 h2 in
      let (status, _, same) = read_reply-eq-ok resp w3 v reply h3 in
      record {
        token_world = w2;
        token = t;
        got_token = ap (λ x. get_token env c x) (sym (lift-eq-ok (env.parse_url _) w lifted)) ∙ got;
        response = resp;
        last_call = ap (λ x. x.trace) same ∙ send-eq-ok env _ w2 answered;
        status = status;
      }

  judge-eq-ok :
      (reply : Reply A) (w v : World) (a : A)
      → judge env c method path input output reply w ≡ (ok a, v)
      → (is_success reply.status ≡ true) × (v ≡ w)
  unfolding judge
  judge-eq-ok reply w v a h = ground arith

  -- The last call was a request that was answered with a 2xx status.
  pub record EndsInSuccess (v : World) : Type 0 where
    pub token : Str
    pub response : Response
    pub before : Trace
    pub last_call :
        v.trace ≡ sent (request_with env c method path input output token) (ok response) ∷ before
    pub success : is_success response.status ≡ true

  judged :
      (w u v : World) (reply : Reply A) (a : A)
      → do_once env c method path input output w ≡ (ok reply, u)
      → judge env c method path input output reply u ≡ (ok a, v)
      → EndsInSuccess v
  judged w u v reply a once h =
      let answered = do_once-eq-ok w u reply once in
      let (success, same) = judge-eq-ok reply u v a h in
      record {
        token = answered.token;
        response = answered.response;
        before = answered.token_world.trace;
        last_call = ap (λ x. x.trace) same ∙ answered.last_call;
        success = subst (λ n. is_success n ≡ true) answered.status success;
      }

  -- A request that succeeds ends with its own request, answered with a 2xx status.
  pub request-eq-ok :
      (w v : World) (a : A) → request env c method path input output w ≡ (ok a, v) → EndsInSuccess v
  unfolding request
  request-eq-ok w v a h =
      let (first, u, once, h') = >>=-eq-ok (do_once env c method path input output) _ w h in
      elim (Bool-cases (nat_beq first.status 401)) [
        | inr other ↦ judged w u v first a once (rw other at h')
        | inl unauthorized ↦
            let h2 = rw unauthorized at h' in
            let (_, u1, _, h3) = >>=-eq-ok invalidate_token _ u h2 in
            let (second, u2, again, h4) =
              >>=-eq-ok (do_once env c method path input output) _ u1 h3 in
            judged u1 u2 v second a again h4
      ]

  request_step :
      (w u : World) (first : Reply A)
      → do_once env c method path input output w ≡ (ok first, u)
      → request env c method path input output w
        ≡ after_first env c method path input output first u
  unfolding request ◌>>=◌
  request_step w u first once = rw once

  -- After a 401 the cached token is not used again: a request that then succeeds sent two more
  -- requests, one for a new token and its own once more.
  pub request_retried :
      (w u v : World) (first : Reply A) (a : A)
      → do_once env c method path input output w ≡ (ok first, u)
      → first.status ≡ 401
      → request env c method path input output w ≡ (ok a, v)
      → (token : Str) × (answer granted : Response) × (v.trace
          ≡ sent (request_with env c method path input output token) (ok answer)
            ∷ sent (token_request env c) (ok granted)
            ∷ u.trace)
  request_retried w u v first a once unauthorized h =
      let step : after_first env c method path input output first u ≡ (ok a, v) =
        sym (request_step w u first once) ∙ h in
      let h2 : (invalidate_token
              >> (do_once env c method path input output >>= judge env c method path input output))
            u
          ≡ (ok a, v) =
        unfold after_first in rw unauthorized at step in
      let (_, u1, dropped, h3) = >>=-eq-ok invalidate_token _ u h2 in
      let (second, u2, again, h4) =
        >>=-eq-ok (do_once env c method path input output) (judge env c method path input output) u1
          h3 in
      let answered = do_once-eq-ok u1 u2 second again in
      let (empty, same) = invalidated u u1 dropped in
      let (granted, asked) =
        get_token_anew env c u1 answered.token_world answered.token empty answered.got_token in
      (
        answered.token,
        answered.response,
        granted,
        ap (λ x. x.trace) (judge-eq-ok second u2 v a h4).1
            ∙ answered.last_call
            ∙ ap
                (λ t.
                  sent (request_with env c method path input output answered.token)
                    (ok answered.response)
                  ∷ t)
                (asked ∙ ap (λ t. sent (token_request env c) (ok granted) ∷ t) same),
      )

  Sends-read_reply : (resp : Response) → Sends 0 (read_reply env c method path input output resp)
  unfolding read_reply
  Sends-read_reply resp =
      Sends-if _ _ _ (Sends-bind _ _ (Sends-wrapping _ _ (Sends-lift _)) (λ value. Sends-pure _))
        (Sends-pure _)

  Sends-do_once : Sends 2 (do_once env c method path input output)
  unfolding do_once
  Sends-do_once = Sends-bind _ _ (Sends-lift _) (λ _. Sends-bind _ _ (Sends-get_token env c) (λ t.
      Sends-bind _ _ (Sends-send env (request_with env c method path input output t))
        Sends-read_reply))

  Sends-judge : (reply : Reply A) → Sends 0 (judge env c method path input output reply)
  unfolding judge
  Sends-judge reply = Sends-if _ _ _ (Sends-raise _) (Sends-if _ _ _ (Sends-pure _) (Sends-raise _))

  Sends-invalidate : Sends 0 invalidate_token
  unfolding invalidate_token
  Sends-invalidate = record { at_most = λ w. omega arith }

  -- Whatever the answers, one authenticated request, a call of `do`, sends four HTTP requests at most,
  -- its token requests included.
  pub Sends-request : Sends 4 (request env c method path input output)
  unfolding request
  Sends-request = Sends-bind _ _ Sends-do_once (λ first.
      Sends-if _ _ _
        (Sends-bind _ _ Sends-invalidate (λ _. Sends-bind _ _ Sends-do_once Sends-judge))
        (Sends-le _ (Sends-judge first) (omega arith)))
