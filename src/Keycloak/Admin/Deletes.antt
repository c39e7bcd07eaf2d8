-- ===== src/Keycloak/Admin/Deletes.antt =====
-- A realm is reported deleted only where Keycloak said so.
use inari_operator.Cluster.Exec.Inversion.{>>=-eq-err}
use inari_operator.Base.{
  ◌≡◌, refl, ap, sym, ◌∙◌, ◌⊎◌, inl, inr, Bool, true, false, not, ◌&&◌, Option, none, ◌∷◌, arith,
  nat_beq, nat_beq_iff, Bool-cases,
}
use inari_operator.Text.{Str, is_empty}
use inari_operator.Cluster.Errors.{
  Error, Result, ok, err, is_keycloak_not_found, keycloak_not_found, http_error,
}
use inari_operator.Cluster.Env.{Env, Trace, sent, Method, Response, delete, TokenResponse}
use inari_operator.Cluster.Exec.{World, pure, raise, attempt, ◌>>=◌, ◌>>◌}
use inari_operator.Cluster.Exec.Foreign.{Foreign, ReturnsForeign, is_foreign, foreign_rules}
use inari_operator.Keycloak.Token.{
  Client, get_token, request_token, accept_token, store_token, invalidate_token, is_fresh,
}
use inari_operator.Keycloak.Transport.{
  Output, Reply, request_with, read_reply, do_once, judge, request, after_first, is_success,
  no_output,
}
use inari_operator.Keycloak.Transport.Laws.{request-eq-ok, do_once-eq-ok}
use inari_operator.Keycloak.Admin.{realm_path, delete_realm, after_delete_realm}

abbrev is_missing {ℓ} : {A : Type ℓ} → Result A → Bool
is_missing (ok a) = false
is_missing (err e) = is_keycloak_not_found e

module _ (env : Env) (foreign : ReturnsForeign env) (c : Client) where
  Foreign-store_token : (tok : TokenResponse) → Foreign (store_token env c tok)
  unfolding store_token
  Foreign-store_token tok = record { holds = λ w. ground arith }

  Foreign-accept_token : (resp : Response) → Foreign (accept_token env c resp)
  unfolding accept_token
  Foreign-accept_token resp = search (foreign_rules, Foreign-store_token, foreign.decode_token)

  Foreign-request_token : Foreign (request_token env c)
  unfolding request_token
  Foreign-request_token = search (foreign_rules, Foreign-accept_token, foreign.parse_url, foreign)

  Foreign-get_token : Foreign (get_token env c)
  unfolding get_token
  Foreign-get_token = record {
    holds = λ w.
        elim (Bool-cases (not (is_empty w.token) && is_fresh (env.now w.trace) w.token_exp)) [
          | inl cached ↦ rw cached refl
          | inr stale ↦ rw stale (Foreign-request_token.holds w)
        ];
  }

  module _ {A : Type 0} (method : Method) (path : Str) (input : Option Str) (output : Output A)
      (decodes : (body : Str) → is_foreign (output.decode body) ≡ true) where
    Foreign-read_reply :
        (resp : Response) → Foreign (read_reply env c method path input output resp)
    unfolding read_reply
    Foreign-read_reply resp = search (foreign_rules, decodes)

    Foreign-do_once : Foreign (do_once env c method path input output)
    unfolding do_once
    Foreign-do_once =
        search (foreign_rules, Foreign-read_reply, Foreign-get_token, foreign.parse_url, foreign)

    judge-eq-err :
        (reply : Reply A) (w v : World) (e : Error)
        → judge env c method path input output reply w ≡ (err e, v)
        → is_keycloak_not_found e ≡ true
        → (reply.status ≡ 404) × (v ≡ w)
    unfolding judge
    judge-eq-err reply w v e h gone = elim (Bool-cases (nat_beq reply.status 404)) [
      | inl absent ↦
          let h' : raise {A = A} keycloak_not_found w ≡ (err e, v) = rw absent at h in
          ((nat_beq_iff reply.status 404).0 absent, sym (ap (λ p. p.1) h'))
      | inr other ↦ elim (Bool-cases (is_success reply.status)) [
        | inl good ↦ let h' : pure reply.out w ≡ (err e, v) = rw (other, good) at h in cc
        | inr bad ↦
            let h' : raise {A = A} (http_error reply.status reply.raw) w ≡ (err e, v) =
              rw (other, bad) at h in
            let wrong : true ≡ false = sym gone ∙ ap (λ p. is_missing p.0) (sym h') in cc
      ]
    ]

    -- The last call was the request, answered with 404.
    pub record EndsInMissing (v : World) : Type 0 where
      pub token : Str
      pub response : Response
      pub before : Trace
      pub last_call :
          v.trace ≡ sent (request_with env c method path input output token) (ok response) ∷ before
      pub missing : response.status ≡ 404

    judged_missing :
        (w u v : World) (reply : Reply A) (e : Error)
        → do_once env c method path input output w ≡ (ok reply, u)
        → judge env c method path input output reply u ≡ (err e, v)
        → is_keycloak_not_found e ≡ true
        → EndsInMissing v
    judged_missing w u v reply e once h gone =
        let answered = do_once-eq-ok env c method path input output w u reply once in
        let (status, same) = judge-eq-err reply u v e h gone in
        record {
          token = answered.token;
          response = answered.response;
          before = answered.token_world.trace;
          last_call = ap (λ x. x.trace) same ∙ answered.last_call;
          missing = sym answered.status ∙ status;
        }

    do_once-eq-err :
        (w v : World) (e : Error)
        → do_once env c method path input output w ≡ (err e, v)
        → is_keycloak_not_found e ≡ false
    do_once-eq-err w v e h =
        let known : not (is_keycloak_not_found e) ≡ true =
          ap (λ p. is_foreign p.0) (sym h) ∙ Foreign-do_once.holds w in
        ground (arith, known)

    retried :
        (u v : World) (e : Error)
        → (invalidate_token
              >> (do_once env c method path input output >>= judge env c method path input output))
            u
          ≡ (err e, v)
        → is_keycloak_not_found e ≡ true
        → EndsInMissing v
    retried u v e h gone = elim (>>=-eq-err invalidate_token _ u h) [
      | inl failed ↦
          let never : ◌≡◌ {A = Result (Unit {0})} (ok tt) (err e) =
            unfold invalidate_token in ap (λ p. p.0) failed in
          cc
      | inr (_, u1, _, rest) ↦
          elim (>>=-eq-err (do_once env c method path input output) _ u1 rest) [
            | inl failed ↦ let known = do_once-eq-err u1 v e failed in cc
            | inr (second, u2, again, last) ↦ judged_missing u1 u2 v second e again last gone
          ]
    ]

    after_first-eq-err :
        (w u v : World) (first : Reply A) (e : Error)
        → do_once env c method path input output w ≡ (ok first, u)
        → after_first env c method path input output first u ≡ (err e, v)
        → is_keycloak_not_found e ≡ true
        → EndsInMissing v
    unfolding after_first
    after_first-eq-err w u v first e once h gone = elim (Bool-cases (nat_beq first.status 401)) [
      | inr other ↦ judged_missing w u v first e once (rw other at h) gone
      | inl unauthorized ↦ retried u v e (rw unauthorized at h) gone
    ]

    -- A request that fails with `errNotFound` ends with its own request, answered with 404.
    request-eq-err :
        (w v : World) (e : Error)
        → request env c method path input output w ≡ (err e, v)
        → is_keycloak_not_found e ≡ true
        → EndsInMissing v
    unfolding request
    request-eq-err w v e h gone = elim (>>=-eq-err (do_once env c method path input output) _ w h) [
      | inl failed ↦ let known = do_once-eq-err w v e failed in cc
      | inr (first, u, once, rest) ↦ after_first-eq-err w u v first e once rest gone
    ]

  -- The last call was the DELETE of the realm, and Keycloak confirmed it or has no such realm.
  pub record IsConfirmed (realm : Str) (v : World) : Type 0 where
    pub token : Str
    pub response : Response
    pub before : Trace
    pub last_call :
        v.trace
        ≡ sent (request_with env c delete (realm_path realm) none no_output token) (ok response)
          ∷ before
    pub gone : (is_success response.status ≡ true) ⊎ (response.status ≡ 404)

  after_delete_realm-eq-ok :
      (realm : Str) (e : Error) (w v : World) (u : Unit {0})
      → after_delete_realm env c realm (err e) w ≡ (ok u, v)
      → (is_keycloak_not_found e ≡ true) × (v ≡ w)
  unfolding after_delete_realm
  after_delete_realm-eq-ok realm e w v u h = ground (arith, h)

  confirmed :
      (realm : Str) (r : Result (Unit {0})) (w u v : World) (x : Unit {0})
      → request env c delete (realm_path realm) none no_output w ≡ (r, u)
      → after_delete_realm env c realm r u ≡ (ok x, v)
      → IsConfirmed realm v
  unfolding after_delete_realm
  confirmed realm (ok y) w u v x asked h =
      let ends = request-eq-ok env c delete (realm_path realm) none no_output w u y asked in
      record {
        token = ends.token;
        response = ends.response;
        before = ends.before;
        last_call = ap (λ p. p.1.trace) (sym h) ∙ ends.last_call;
        gone = inl ends.success;
      }
  confirmed realm (err e) w u v x asked h =
      let (gone, same) = after_delete_realm-eq-ok realm e u v x h in
      let ends =
        request-eq-err delete (realm_path realm) none no_output (λ body. refl) w u e asked gone in
      record {
        token = ends.token;
        response = ends.response;
        before = ends.before;
        last_call = ap (λ x. x.trace) same ∙ ends.last_call;
        gone = inr ends.missing;
      }

  -- Where the libraries return no `errNotFound`: a `DeleteRealm` that succeeds ends with the DELETE of
  -- the realm, answered with a 2xx status or with 404.
  pub delete_realm-eq-ok :
      (realm : Str) (w v : World) (u : Unit {0})
      → delete_realm env c realm w ≡ (ok u, v)
      → IsConfirmed realm v
  unfolding delete_realm attempt ◌>>=◌
  delete_realm-eq-ok realm w v u h =
      let asked = request env c delete (realm_path realm) none no_output w in
      confirmed realm asked.0 w asked.1 v u refl h
