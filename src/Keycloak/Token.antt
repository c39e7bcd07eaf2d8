-- ===== src/Keycloak/Token.antt =====
-- The client of internal/keycloak/client.go and the token that it caches: `NewClient`, `IssuerURL`,
-- `getToken` and `invalidateToken`. The mutex makes each of the last two one step.
pub mod Laws
pub mod Writes
use inari_operator.Base.{
  ℕ, suc, zero, ◌+◌, ◌-◌, ◌*◌, ◌%◌, ◌^◌, Bool, true, false, not, ◌&&◌, Option, none, some, List, [],
  ◌∷◌, ◌++◌, ltb, if◌then◌else◌, nat_beq,
}
use inari_operator.Text.{Str, bytes, is_empty, trim_suffix}
use inari_operator.Text.Url.{encode_values}
use inari_operator.Cluster.Errors.{Result, ok, err, http_error, failure, Error}
use inari_operator.Cluster.Env.{Env, Request, Response, post, TokenResponse}
use inari_operator.Cluster.Exec.{World, Exec, pure, raise, lift, wrapping, ◌>>=◌, ◌>>◌}
use inari_operator.Cluster.Calls.{send}

-- `Client`, less the HTTP client, the clock and the mutable token.
pub record Client : Type 0 where
  pub base_url : Str
  pub token_realm : Str
  pub client_id : Str
  pub client_secret : Str
  pub token_url : Str

-- `NewClient`.
unfoldable pub new_client : Str → Str → Str → Str → Client
new_client base_url token_realm client_id client_secret =
    let base = trim_suffix base_url (bytes "/") in
    record {
      base_url = base;
      token_realm = token_realm;
      client_id = client_id;
      client_secret = client_secret;
      token_url = base ++ bytes "/realms/" ++ token_realm ++ bytes "/protocol/openid-connect/token";
    }

-- `IssuerURL`.
unfoldable pub issuer_url : Client → Str → Str
issuer_url c realm = c.base_url ++ bytes "/realms/" ++ realm

-- Nanoseconds.
abbrev pub second : ℕ
second = 1_000_000_000

-- `exp <= 0` gives a minute.
lifetime : Option ℕ → ℕ
lifetime none = 60
lifetime (some zero) = 60
lifetime (some (suc n)) = suc n

-- `t.Add(time.Duration(exp) * time.Second)`: the product is an int64.
unfoldable pub add_seconds : ℕ → ℕ → ℕ
add_seconds t exp =
    let d = exp * second % 2 ^ 64 in if ltb d (2 ^ 63) then t + d else t - (2 ^ 64 - d)

-- `c.nowFunc().Before(c.tokenExp.Add(-10 * time.Second))`.
abbrev pub is_fresh : ℕ → ℕ → Bool
is_fresh now exp = ltb (now + 10 * second) exp

module _ (env : Env) (c : Client) where
  abbrev pub token_request : Request
  token_request = record {
    method = post;
    url = c.token_url;
    authorization = [];
    content_type = bytes "application/x-www-form-urlencoded";
    body = encode_values (
        (bytes "client_id", c.client_id)
        ∷ (bytes "client_secret", c.client_secret)
        ∷ (bytes "grant_type", bytes "client_credentials")
        ∷ []);
  }

  unfoldable pub store_token : TokenResponse → Exec Str
  unfolding lifetime add_seconds
  store_token tok w =
      if is_empty tok.access_token
      then (err (failure (bytes "keycloak: empty access token")), w)
      else (
        ok tok.access_token,
        record w {
          token = tok.access_token;
          token_exp = add_seconds (env.now w.trace) (lifetime tok.expires_in);
        },
      )

  unfoldable pub accept_token : Response → Exec Str
  unfolding store_token
  accept_token resp =
      if nat_beq resp.status 200
      then (do
        tok ← wrapping (bytes "decode token response: ") (lift (env.json.decode_token resp.body))
        store_token tok)
      else raise (http_error resp.status resp.body)

  unfoldable pub request_token : Exec Str
  unfolding accept_token
  request_token = do
    lift (env.parse_url c.token_url)
    resp ← wrapping (bytes "token request: ") (send env token_request)
    accept_token resp

  -- `getToken`.
  unfoldable pub get_token : Exec Str
  unfolding request_token
  get_token w =
      if not (is_empty w.token) && is_fresh (env.now w.trace) w.token_exp
      then (ok w.token, w)
      else request_token w

-- `invalidateToken`.
unfoldable pub invalidate_token : Exec (Unit {0})
invalidate_token w = (ok tt, record w { token = []; token_exp = 0 })
