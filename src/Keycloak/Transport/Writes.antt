-- ===== src/Keycloak/Transport/Writes.antt =====
-- A request to Keycloak writes nothing to the cluster.
use inari_operator.Base.{Option}
use inari_operator.Text.{Str}
use inari_operator.Cluster.Env.{Env, Call, Method, Response}
use inari_operator.Cluster.Exec.Emits.{Emits, Emits-bind, Emits-lift}
use inari_operator.Keycloak.Transport.{
  Output, Reply, request_with, request, do_once, judge, after_first, read_reply,
}
use inari_operator.Cluster.Calls.Writes.{OnlyWrites, Emits-send, call_rules}
use inari_operator.Keycloak.Token.{Client, invalidate_token}
use inari_operator.Keycloak.Token.Writes.{Emits-get_token}

module _ (env : Env) (c : Client) {P : Call → Type 0} (only : OnlyWrites P) where
  module _ {A : Type 0} (m : Method) (path : Str) (input : Option Str) (output : Output A) where
    Emits-read_reply : (r : Response) → Emits P (read_reply env c m path input output r)
    unfolding read_reply
    Emits-read_reply r = search call_rules

    Emits-do_once : Emits P (do_once env c m path input output)
    unfolding do_once
    Emits-do_once = Emits-bind _ _ _ (Emits-lift _ _) (λ _.
        Emits-bind _ _ _ (Emits-get_token env c only) (λ t.
          Emits-bind _ _ _ (Emits-send env only (request_with env c m path input output t))
            Emits-read_reply))

    Emits-judge : (r : Reply A) → Emits P (judge env c m path input output r)
    unfolding judge
    Emits-judge r = search call_rules

    Emits-invalidate : Emits P invalidate_token
    unfolding invalidate_token
    Emits-invalidate = record { all = λ w h. h }

    Emits-after_first : (r : Reply A) → Emits P (after_first env c m path input output r)
    unfolding after_first
    Emits-after_first r = search (call_rules, Emits-invalidate, Emits-do_once, Emits-judge)

    pub Emits-request : Emits P (request env c m path input output)
    unfolding request
    Emits-request = search (call_rules, Emits-do_once, Emits-after_first)
