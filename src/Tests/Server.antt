-- ===== src/Tests/Server.antt =====
-- A Keycloak server that keeps one realm and takes one token, and the theorems on it.
use inari_operator.Base.{
  ℕ, zero, suc, sym, some-injective, ◌≡◌, refl, ap, ◌∙◌, Bool, true, false, Option, none, some, [],
  ◌∷◌, nat_beq, ◌==◌, Bool-cases, inl, inr, if◌then◌else◌, ==_iff,
}
use inari_operator.Text.{Str, bytes, str_beq, str_eq}
use inari_operator.Api.{key_of}
use inari_operator.Api.Items.{KeycloakRealm}
use inari_operator.Cluster.Errors.{Result, ok, err}
use inari_operator.Cluster.Env.{
  Env, Trace, Response, Method, get, post, put, delete, sent, RealmRepresentation,
}
use inari_operator.Cluster.Exec.{World, attempt, ◌>>=◌}
use inari_operator.Cluster.Calls.Keeps.{Ignores}
use inari_operator.Keycloak.Admin.{ensure_realm}
use inari_operator.Keycloak.Server.{IsServer, merged, IsAuthority}
use inari_operator.Keycloak.Server.Refinement.{upsert, ensure_realm-upsert, ensure_realm_again}
use inari_operator.Reconcile.Realm.{reconcile, representation}
use inari_operator.Reconcile.Realm.Converges.{realm_reconcile-upsert}
use inari_operator.Tests.Sample.{
  sample_env, sample_client, sample_realm, sample_metadata, sample_tenant,
}
use inari_operator.Tests.Tokens.{
  answer, respond, accepts, respond_refused, respond_accepted, respond_token, token_full,
  stale_world,
}

-- A realm as a text: a code above zero for each byte of the name, zero, the display name.
abbrev pack : Str → Str → Str
pack [] d = 0 ∷ d
pack (x ∷ n) d = suc x ∷ pack n d

abbrev unpack : Str → Str × Str
unpack [] = ([], [])
unpack (zero ∷ d) = ([], d)
unpack (suc x ∷ s) = let (n, d) = unpack s in (x ∷ n, d)

unpack-pack : (n d : Str) → unpack (pack n d) ≡ (n, d)
unpack-pack [] d = refl
unpack-pack (x ∷ n) d = ap (λ p. (x ∷ p.0, p.1)) (unpack-pack n d)

abbrev encode : RealmRepresentation → Str
encode r = (if r.enabled then 1 else 0) ∷ pack r.realm r.display_name

abbrev decode : Str → Result RealmRepresentation
decode [] = ok sample_realm
decode (flag ∷ s) =
    let (n, d) = unpack s in ok (record { realm = n; display_name = d; enabled = nat_beq flag 1 })

flag_enabled : (b : Bool) → nat_beq (if b then 1 else 0) 1 ≡ b
flag_enabled true = refl
flag_enabled false = refl

decode-encode : (r : RealmRepresentation) → decode (encode r) ≡ ok r
decode-encode r = λ i. ok (record {
  realm = (unpack-pack r.realm r.display_name i).0;
  display_name = (unpack-pack r.realm r.display_name i).1;
  enabled = flag_enabled r.enabled i;
})

abbrev served : Method → Option RealmRepresentation → Response
served get none = answer 404 []
served get (some r) = answer 200 (encode r)
served put none = answer 404 []
served put (some r) = answer 204 []
served post none = answer 201 []
served post (some r) = answer 409 []
served delete s = answer 403 []

abbrev changed :
    Result RealmRepresentation → Option RealmRepresentation → Option RealmRepresentation
changed (ok rep) (some r) = some (merged r rep)
changed _ s = s

abbrev added : Result RealmRepresentation → Option RealmRepresentation → Option RealmRepresentation
added (ok rep) s = if rep.realm == bytes "acme" then some rep else s
added (err e) s = s

abbrev after : Method → Str → ℕ → Option RealmRepresentation → Option RealmRepresentation
after put body status s = if nat_beq status 204 then changed (decode body) s else s
after post body status s = if nat_beq status 201 then added (decode body) s else s
after _ body status s = s

abbrev realm_of : Trace → Option RealmRepresentation
realm_of [] = some (record { realm = bytes "acme"; display_name = bytes "Old"; enabled = false })
realm_of (sent r (ok response) ∷ t) = after r.method r.body response.status (realm_of t)
realm_of (_ ∷ t) = realm_of t

abbrev wanted : KeycloakRealm
wanted = record {
  metadata = sample_metadata;
  spec = record { tenant = sample_tenant; realm = []; display_name = bytes "Acme"; enabled = true };
  status = record { conditions = []; observed_generation = 0; realm = []; issuer_url = [] };
}

abbrev server_env : Env
server_env = record sample_env {
  json = record sample_env.json { encode_realm = encode; decode_realm = decode };
  send = λ t r. ok (respond r.authorization (served r.method (realm_of t)));
  get_keycloak_realm = λ t key. ok wanted;
}

after_refused : (m : Method) (body : Str) (s : Option RealmRepresentation) → after m body 401 s ≡ s
after_refused get body s = refl
after_refused post body s = refl
after_refused put body s = refl
after_refused delete body s = refl

abbrev IsNamed : Option RealmRepresentation → Type 0
IsNamed s = (r : RealmRepresentation) → s ≡ some r → r.realm ≡ bytes "acme"

IsNamed-added :
    (d : Result RealmRepresentation) (s : Option RealmRepresentation)
    → IsNamed s
    → IsNamed (added d s)
IsNamed-added (err e) s before r h = before r h
IsNamed-added (ok rep) s before r h = elim (Bool-cases (rep.realm == bytes "acme")) [
  | inr other ↦ before r (rw other at h)
  | inl acme ↦
      let same : some rep ≡ some r = rw acme at h in
      ap (λ x. x.realm) (sym (some-injective rep r same)) ∙ (==_iff rep.realm (bytes "acme")).0 acme
]

IsNamed-changed :
    (d : Result RealmRepresentation) (s : Option RealmRepresentation)
    → IsNamed s
    → IsNamed (changed d s)
IsNamed-changed (err e) (some x) before r h = before r h
IsNamed-changed (err e) none before r h = before r h
IsNamed-changed (ok rep) none before r h = before r h
IsNamed-changed (ok rep) (some x) before r h =
    ap (λ y. y.realm) (sym (some-injective (merged x rep) r h)) ∙ before x refl

IsNamed-after :
    (m : Method) (body : Str) (status : ℕ) (s : Option RealmRepresentation)
    → IsNamed s
    → IsNamed (after m body status s)
IsNamed-after get body status s before r h = before r h
IsNamed-after delete body status s before r h = before r h
IsNamed-after put body status s before r h = elim (Bool-cases (nat_beq status 204)) [
  | inl is ↦ IsNamed-changed (decode body) s before r (rw is at h)
  | inr other ↦ before r (rw other at h)
]
IsNamed-after post body status s before r h = elim (Bool-cases (nat_beq status 201)) [
  | inl is ↦ IsNamed-added (decode body) s before r (rw is at h)
  | inr other ↦ before r (rw other at h)
]

IsNamed-realm_of : (t : Trace) → IsNamed (realm_of t)
IsNamed-realm_of [] r h = ap (λ x. x.realm) (sym (some-injective _ r h))
IsNamed-realm_of (sent q (ok response) ∷ t) r h =
    IsNamed-after q.method q.body response.status (realm_of t) (IsNamed-realm_of t) r h
IsNamed-realm_of (_ ∷ t) r h = IsNamed-realm_of t r h

added_by : (rep : RealmRepresentation) → rep.realm ≡ bytes "acme" → added (ok rep) none ≡ some rep
added_by rep acme = rw ((==_iff rep.realm (bytes "acme")).1 acme) refl

server_env-IsAuthority : IsAuthority server_env sample_client realm_of accepts
server_env-IsAuthority = record {
  parses = λ url. refl;
  grants = λ t. record {
    response = answer 200 [];
    answered = ap ok (respond_token (served post (realm_of t)));
    fits = record {
      granted = refl;
      token = record { access_token = bytes "tok"; expires_in = some 300 };
      decoded = refl;
      full = token_full;
      accepted = (==_iff (bytes "tok") (bytes "tok")).1 refl;
    };
    becomes = refl;
  };
  refuses = λ t r token from wrong. record {
    response = answer 401 [];
    answered =
        ap (λ a. ok (respond a (served r.method (realm_of t)))) from
        ∙ ap ok (respond_refused token (served r.method (realm_of t)) wrong);
    fits = refl;
    becomes = after_refused r.method r.body (realm_of t);
  };
}

server_env-IsServer : IsServer server_env sample_client realm_of accepts (bytes "acme")
server_env-IsServer = record {
  authority = server_env-IsAuthority;
  finds = λ t token existing right here. record {
    response = answer 200 (encode existing);
    answered =
        ap ok (respond_accepted token (served get (realm_of t)) right)
        ∙ ap (λ s. ok (served get s)) here;
    fits = record { found = refl; full = refl; decoded = decode-encode existing };
    becomes = here;
  };
  misses = λ t token right here. record {
    response = answer 404 [];
    answered =
        ap ok (respond_accepted token (served get (realm_of t)) right)
        ∙ ap (λ s. ok (served get s)) here;
    fits = refl;
    becomes = here;
  };
  updates = λ t token existing rep right here. record {
    response = answer 204 [];
    answered =
        ap ok (respond_accepted token (served put (realm_of t)) right)
        ∙ ap (λ s. ok (served put s)) here;
    fits = refl;
    becomes =
        ap (changed (decode (encode rep))) here
        ∙ ap (λ d. changed d (some existing)) (decode-encode rep);
  };
  creates = λ t token rep right here name_is. record {
    response = answer 201 [];
    answered =
        ap ok (respond_accepted token (served post (realm_of t)) right)
        ∙ ap (λ s. ok (served post s)) here;
    fits = refl;
    becomes =
        ap (added (decode (encode rep))) here
        ∙ ap (λ d. added d none) (decode-encode rep)
        ∙ added_by rep name_is;
  };
  named = IsNamed-realm_of;
}

realm_of-Ignores : Ignores realm_of
realm_of-Ignores = record {
  on_read = λ k n t. refl;
  on_status_updated = λ o d t. refl;
  on_deleted = λ a k n d t. refl;
  on_connected = λ u d t. refl;
  on_emitted = λ k n e r m t. refl;
}

ensure_realm-upsert_example :
    (v : World) × (ensure_realm server_env sample_client sample_realm stale_world ≡ (ok false, v))
    × (realm_of v.trace ≡ some sample_realm)
unfolding upsert bytes
ensure_realm-upsert_example =
    ensure_realm-upsert server_env sample_client realm_of accepts sample_realm server_env-IsServer
      stale_world

abbrev ensured_world : World
ensured_world = (ensure_realm server_env sample_client sample_realm stale_world).1

ensured : ensure_realm server_env sample_client sample_realm stale_world ≡ (ok false, ensured_world)
unfolding ensure_realm attempt ◌>>=◌ bytes str_beq
ensured = ap (λ r. (r, ensured_world)) (ap (λ p. p.0) (ensure_realm-upsert_example.1))

ensure_realm_again_example :
    (u : World) × (ensure_realm server_env sample_client sample_realm ensured_world ≡ (ok false, u))
    × (realm_of u.trace ≡ realm_of ensured_world.trace)
ensure_realm_again_example =
    ensure_realm_again server_env sample_client realm_of accepts sample_realm server_env-IsServer
      stale_world ensured_world false ensured

realm_reconcile-upsert_example :
    realm_of (reconcile server_env (some sample_client) (key_of wanted) stale_world).1.trace
    ≡ some sample_realm
unfolding representation upsert bytes str_beq
realm_reconcile-upsert_example =
    realm_reconcile-upsert server_env sample_client realm_of realm_of-Ignores accepts wanted
      server_env-IsServer (key_of wanted) stale_world refl refl refl
