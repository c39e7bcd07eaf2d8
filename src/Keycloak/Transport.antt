-- ===== src/Keycloak/Transport.antt =====
-- Authenticated requests of internal/keycloak/client.go: `doOnce` and `do`.
pub mod Laws
pub mod Writes
use inari_operator.Base.{
  ℕ, Bool, true, false, ◌&&◌, Option, none, some, ◌++◌, [], leb, ltb, nat_beq, if◌then◌else◌,
}
use inari_operator.Text.{Str, bytes, is_empty}
use inari_operator.Cluster.Errors.{Result, ok, err, keycloak_not_found, http_error}
use inari_operator.Cluster.Env.{Env, Request, Response, Method}
use inari_operator.Cluster.Exec.{Exec, pure, raise, lift, wrapping, ◌>>=◌, ◌>>◌}
use inari_operator.Cluster.Calls.{send}
use inari_operator.Keycloak.Token.{Client, get_token, invalidate_token}

abbrev pub is_success : ℕ → Bool
is_success status = leb 200 status && ltb status 300

-- `json.Marshal(in)` where `in` is not nil, and the header that goes with it.
abbrev pub body_of : Option Str → Str
body_of none = []
body_of (some raw) = raw

abbrev pub content_type_of : Option Str → Str
content_type_of none = []
content_type_of (some raw) = bytes "application/json"

-- What `out` points at: its value before the call, and how a body is decoded into it.
pub record Output (A : Type 0) : Type 0 where
  pub zero_value : A
  pub decode : Str → Result A

-- `out` is nil.
abbrev pub no_output : Output (Unit {0})
no_output = record { zero_value = tt; decode = λ _. ok tt }

-- The results of `doOnce`, with what it left in `out`.
pub record Reply (A : Type 0) : Type 0 where
  pub status : ℕ
  pub raw : Str
  pub out : A

module _ (env : Env) (c : Client) {A : Type 0} (method : Method) (path : Str) (input : Option Str)
    (output : Output A) where
  abbrev pub request_with : Str → Request
  request_with token = record {
    method = method;
    url = c.base_url ++ path;
    authorization = bytes "Bearer " ++ token;
    content_type = content_type_of input;
    body = body_of input;
  }

  unfoldable pub read_reply : Response → Exec (Reply A)
  read_reply resp =
      if is_success resp.status && (if is_empty resp.body then false else true)
      then (do
        value ← wrapping (bytes "decode response: ") (lift (output.decode resp.body))
        pure (record { status = resp.status; raw = resp.body; out = value }))
      else pure (record { status = resp.status; raw = resp.body; out = output.zero_value })

  -- `doOnce`.
  unfoldable pub do_once : Exec (Reply A)
  unfolding read_reply
  do_once = do
    lift (env.parse_url (c.base_url ++ path))
    token ← get_token env c
    resp ← send env (request_with token)
    read_reply resp

  unfoldable pub judge : Reply A → Exec A
  judge reply =
      if nat_beq reply.status 404
      then raise keycloak_not_found
      else if is_success reply.status
      then pure reply.out
      else raise (http_error reply.status reply.raw)

  unfoldable pub after_first : Reply A → Exec A
  unfolding judge
  after_first first =
      if nat_beq first.status 401
      then (do invalidate_token; second ← do_once; judge second)
      else judge first

  -- `do`: one more attempt after a 401, with a new token.
  unfoldable pub request : Exec A
  unfolding after_first
  request = do first ← do_once; after_first first
