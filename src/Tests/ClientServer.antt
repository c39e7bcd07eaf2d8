-- ===== src/Tests/ClientServer.antt =====
-- A Keycloak server that keeps one client, and the theorem on it.
use inari_operator.Base.{
  ℕ, zero, suc, sym, some-injective, ◌≡◌, refl, ap, ◌∙◌, Bool, true, false, Option, none, some,
  List, [], ◌∷◌, nat_beq, ◌==◌, Bool-cases, inl, inr, if◌then◌else◌, ==_iff,
}
use inari_operator.Text.{str_beq, Str, bytes, str_eq, is_empty}
use inari_operator.Cluster.Errors.{Result, ok}
use inari_operator.Cluster.Env.{
  Env, Trace, Response, Method, get, post, put, delete, sent, ClientRepresentation,
}
use inari_operator.Keycloak.Server.{IsAuthority, IsClientServer, merged_client, listed}
use inari_operator.Keycloak.Server.Ensured.{Provided, ensure_client-reported}
use inari_operator.Api.{key_of}
use inari_operator.Api.Items.{KeycloakClient}
use inari_operator.Cluster.Calls.Keeps.{Ignores}
use inari_operator.Reconcile.OidcClient.{reconcile, representation, client_id_of}
use inari_operator.Reconcile.OidcClient.Converges.{Provides, client_reconcile-provided}
use inari_operator.Tests.Sample.{sample_env, sample_client, sample_rep, sample_oidc}
use inari_operator.Tests.Tokens.{
  answer, accepts, respond, respond_refused, respond_accepted, respond_token, token_full,
  stale_world,
}

-- Texts in one text: a code above zero for each byte, zero after each text.
abbrev pack : Str → Str → Str
pack [] d = 0 ∷ d
pack (x ∷ n) d = suc x ∷ pack n d

abbrev pack_all : List Str → Str
pack_all [] = []
pack_all (l ∷ ls) = pack l (pack_all ls)

abbrev cons_first : ℕ → List Str → List Str
cons_first x [] = (x ∷ []) ∷ []
cons_first x (l ∷ ls) = (x ∷ l) ∷ ls

abbrev unpack : Str → List Str
unpack [] = []
unpack (zero ∷ s) = [] ∷ unpack s
unpack (suc x ∷ s) = cons_first x (unpack s)

unpack-pack : (l d : Str) → unpack (pack l d) ≡ l ∷ unpack d
unpack-pack [] d = refl
unpack-pack (x ∷ l) d = ap (cons_first x) (unpack-pack l d)

unpack-pack_all : (ls : List Str) → unpack (pack_all ls) ≡ ls
unpack-pack_all [] = refl
unpack-pack_all (l ∷ ls) = unpack-pack l (pack_all ls) ∙ ap (λ rest. l ∷ rest) (unpack-pack_all ls)

abbrev flag : Bool → ℕ
flag true = 1
flag false = 0

abbrev on : ℕ → Bool
on zero = false
on (suc n) = true

on-flag : (b : Bool) → on (flag b) ≡ b
on-flag true = refl
on-flag false = refl

abbrev encode : ClientRepresentation → Str
encode r =
    flag r.public_client
    ∷ flag r.service_accounts_enabled
    ∷ flag r.standard_flow_enabled
    ∷ pack_all (r.id ∷ r.client_id ∷ r.redirect_uris)

abbrev of_texts : Bool → Bool → Bool → List Str → ClientRepresentation
of_texts a b c (id ∷ client_id ∷ uris) = record {
  id = id;
  client_id = client_id;
  public_client = a;
  service_accounts_enabled = b;
  standard_flow_enabled = c;
  redirect_uris = uris;
}
of_texts a b c _ = sample_rep

abbrev decode : Str → ClientRepresentation
decode (a ∷ b ∷ c ∷ s) = of_texts (on a) (on b) (on c) (unpack s)
decode _ = sample_rep

decode-encode : (r : ClientRepresentation) → decode (encode r) ≡ r
decode-encode r = λ i.
    of_texts (on-flag r.public_client i) (on-flag r.service_accounts_enabled i)
      (on-flag r.standard_flow_enabled i) (unpack-pack_all (r.id ∷ r.client_id ∷ r.redirect_uris) i)

abbrev encode_all : Option ClientRepresentation → Str
encode_all none = 0 ∷ []
encode_all (some r) = 1 ∷ encode r

abbrev decode_all : Str → Result (List ClientRepresentation)
decode_all (suc n ∷ s) = ok (decode s ∷ [])
decode_all _ = ok []

decode_all-encode_all :
    (o : Option ClientRepresentation) → decode_all (encode_all o) ≡ ok (listed o)
decode_all-encode_all none = refl
decode_all-encode_all (some r) = ap (λ x. ok (x ∷ [])) (decode-encode r)

abbrev new_id : Str
new_id = bytes "42"

abbrev served : Method → Option ClientRepresentation → Response
served get s = answer 200 (encode_all s)
served put s = answer 204 []
served post s = answer 201 []
served delete s = answer 403 []

abbrev changed : ClientRepresentation → Option ClientRepresentation → Option ClientRepresentation
changed rep none = none
changed rep (some r) = some (merged_client r rep)

abbrev added : ClientRepresentation → Option ClientRepresentation → Option ClientRepresentation
added rep s = if rep.client_id == bytes "shop" then some (record rep { id = new_id }) else s

abbrev after : Method → Str → ℕ → Option ClientRepresentation → Option ClientRepresentation
after put body status s = if nat_beq status 204 then changed (decode body) s else s
after post body status s = if nat_beq status 201 then added (decode body) s else s
after _ body status s = s

-- At first there is a client of that identifier without redirect URIs.
abbrev client_of : Trace → Option ClientRepresentation
client_of [] = some (record sample_rep { id = bytes "7"; redirect_uris = [] })
client_of (sent r (ok response) ∷ t) = after r.method r.body response.status (client_of t)
client_of (_ ∷ t) = client_of t

-- A client that was provisioned in the realm.
abbrev recorded_client : KeycloakClient
recorded_client = record sample_oidc { status = record sample_oidc.status { realm = bytes "acme" } }

abbrev server_env : Env
server_env = record sample_env {
  json = record sample_env.json { encode_client = encode; decode_clients = decode_all };
  send = λ t r. ok (respond r.authorization (served r.method (client_of t)));
  get_keycloak_client = λ t key. ok recorded_client;
}

abbrev IsNamed : Option ClientRepresentation → Type 0
IsNamed s = (r : ClientRepresentation) → s ≡ some r → r.client_id ≡ bytes "shop"

IsNamed-added :
    (rep : ClientRepresentation) (s : Option ClientRepresentation)
    → IsNamed s
    → IsNamed (added rep s)
IsNamed-added rep s before r h = elim (Bool-cases (rep.client_id == bytes "shop")) [
  | inr other ↦ before r (rw other at h)
  | inl shop ↦
      let same : some (record rep { id = new_id }) ≡ some r = rw shop at h in
      ap (λ x. x.client_id) (sym (some-injective (record rep { id = new_id }) r same))
      ∙ (==_iff rep.client_id (bytes "shop")).0 shop
]

IsNamed-changed :
    (rep : ClientRepresentation) (s : Option ClientRepresentation)
    → IsNamed s
    → IsNamed (changed rep s)
IsNamed-changed rep none before r h = before r h
IsNamed-changed rep (some x) before r h =
    ap (λ y. y.client_id) (sym (some-injective (merged_client x rep) r h)) ∙ before x refl

IsNamed-after :
    (m : Method) (body : Str) (status : ℕ) (s : Option ClientRepresentation)
    → IsNamed s
    → IsNamed (after m body status s)
IsNamed-after get body status s before r h = before r h
IsNamed-after delete body status s before r h = before r h
IsNamed-after put body status s before r h = elim (Bool-cases (nat_beq status 204)) [
  | inl is ↦ IsNamed-changed (decode body) s before r (rw is at h)
  | inr other ↦ before r (rw other at h)
]
IsNamed-after post body status s before r h = elim (Bool-cases (nat_beq status 201)) [
  | inl is ↦ IsNamed-added (decode body) s before r (rw is at h)
  | inr other ↦ before r (rw other at h)
]

IsNamed-client_of : (t : Trace) → IsNamed (client_of t)
IsNamed-client_of [] r h = ap (λ x. x.client_id) (sym (some-injective _ r h))
IsNamed-client_of (sent q (ok response) ∷ t) r h =
    IsNamed-after q.method q.body response.status (client_of t) (IsNamed-client_of t) r h
IsNamed-client_of (_ ∷ t) r h = IsNamed-client_of t r h

after_refused : (m : Method) (body : Str) (s : Option ClientRepresentation) → after m body 401 s ≡ s
after_refused get body s = refl
after_refused post body s = refl
after_refused put body s = refl
after_refused delete body s = refl

added_by :
    (rep : ClientRepresentation) (s : Option ClientRepresentation)
    → rep.client_id ≡ bytes "shop"
    → added rep s ≡ some (record rep { id = new_id })
added_by rep s shop = rw ((==_iff rep.client_id (bytes "shop")).1 shop) refl

server_env-IsAuthority : IsAuthority server_env sample_client client_of accepts
server_env-IsAuthority = record {
  parses = λ url. refl;
  grants = λ t. record {
    response = answer 200 [];
    answered = ap ok (respond_token (served post (client_of t)));
    fits = record {
      granted = refl;
      token = record { access_token = bytes "tok"; expires_in = some 300 };
      decoded = refl;
      full = token_full;
      accepted = (==_iff (bytes "tok") (bytes "tok")).1 refl;
    };
    becomes = refl;
  };
  refuses = λ t r token from wrong. record {
    response = answer 401 [];
    answered =
        ap (λ a. ok (respond a (served r.method (client_of t)))) from
        ∙ ap ok (respond_refused token (served r.method (client_of t)) wrong);
    fits = refl;
    becomes = after_refused r.method r.body (client_of t);
  };
}

encode_all_full : (o : Option ClientRepresentation) → is_empty (encode_all o) ≡ false
encode_all_full none = refl
encode_all_full (some r) = refl

server_env-IsClientServer :
    IsClientServer server_env sample_client client_of accepts
      (bytes "acme")
      (bytes "shop")
      new_id
      (bytes "s3cret")
server_env-IsClientServer = record {
  authority = server_env-IsAuthority;
  lists = λ t token o right here. record {
    response = answer 200 (encode_all o);
    answered =
        ap ok (respond_accepted token (served get (client_of t)) right)
        ∙ ap (λ s. ok (served get s)) here;
    fits = record { found = refl; full = encode_all_full o; decoded = decode_all-encode_all o };
    becomes = here;
  };
  updates = λ t token existing rep right here. record {
    response = answer 204 [];
    answered = ap ok (respond_accepted token (served put (client_of t)) right);
    fits = refl;
    becomes =
        ap (changed (decode (encode rep))) here
        ∙ ap (λ d. changed d (some existing)) (decode-encode rep);
  };
  creates = λ t token rep right here name_is. record {
    response = answer 201 [];
    answered = ap ok (respond_accepted token (served post (client_of t)) right);
    fits = refl;
    becomes =
        ap (λ d. added d (client_of t)) (decode-encode rep) ∙ added_by rep (client_of t) name_is;
  };
  reveals = λ t token existing right here. record {
    response = answer 200 (encode_all (some existing));
    answered =
        ap ok (respond_accepted token (served get (client_of t)) right)
        ∙ ap (λ s. ok (served get s)) here;
    fits = record { found = refl; full = refl; decoded = refl };
    becomes = here;
  };
  named = IsNamed-client_of;
}

ensure_client-reported_example :
    Provided server_env sample_client client_of accepts
      (bytes "acme")
      sample_rep
      new_id
      (bytes "s3cret")
      server_env-IsClientServer
      (client_of stale_world.trace)
      stale_world
ensure_client-reported_example =
    ensure_client-reported server_env sample_client client_of accepts (bytes "acme") sample_rep
      new_id (bytes "s3cret") server_env-IsClientServer stale_world

client_of-Ignores : Ignores client_of
client_of-Ignores = record {
  on_read = λ k n t. refl;
  on_status_updated = λ o d t. refl;
  on_deleted = λ a k n d t. refl;
  on_connected = λ u d t. refl;
  on_emitted = λ k n e r m t. refl;
}

recorded_client-IsClientServer :
    IsClientServer server_env sample_client client_of accepts recorded_client.status.realm
      (representation recorded_client).client_id
      new_id
      (bytes "s3cret")
unfolding representation client_id_of bytes
recorded_client-IsClientServer = server_env-IsClientServer

client_reconcile-provided_example :
    Provides server_env sample_client client_of client_of-Ignores
      (λ a k n r t. refl)
      accepts
      recorded_client
      new_id
      (bytes "s3cret")
      recorded_client-IsClientServer
      stale_world
      (reconcile server_env (some sample_client) (key_of recorded_client) stale_world).1
unfolding str_beq bytes
client_reconcile-provided_example =
    client_reconcile-provided server_env sample_client client_of client_of-Ignores
      (λ a k n r t. refl) accepts recorded_client new_id (bytes "s3cret")
      recorded_client-IsClientServer (key_of recorded_client) stale_world refl refl refl refl
      (λ e h. cc)
