-- ===== src/Keycloak/Token/Writes.antt =====
-- Getting a token writes nothing to the cluster.
use inari_operator.Base.{arith}
use inari_operator.Cluster.Env.{Env, Call, Response, TokenResponse}
use inari_operator.Cluster.Exec.Emits.{Emits}
use inari_operator.Keycloak.Token.{Client, get_token, request_token, accept_token, store_token}
use inari_operator.Cluster.Calls.Writes.{OnlyWrites, call_rules}

module _ (env : Env) (c : Client) {P : Call → Type 0} (only : OnlyWrites P) where
  Emits-store_token : (t : TokenResponse) → Emits P (store_token env c t)
  unfolding store_token
  Emits-store_token t = record { all = λ w h. ground arith }

  Emits-accept_token : (r : Response) → Emits P (accept_token env c r)
  unfolding accept_token
  Emits-accept_token r = search (call_rules, Emits-store_token)

  Emits-request_token : Emits P (request_token env c)
  unfolding request_token
  Emits-request_token = search (call_rules, only, Emits-accept_token)

  pub Emits-get_token : Emits P (get_token env c)
  unfolding get_token
  Emits-get_token = record { all = λ w h. ground (arith, Emits-request_token.all w h) }
