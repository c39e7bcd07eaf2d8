-- ===== src/Tests/Sample.antt =====
-- A small cluster: each write succeeds, the second request to Keycloak is refused with a 401.
mod Items
pub use inari_operator.Tests.Sample.Items.{
  sample_tenant, sample_metadata, sample_zone, sample_record, sample_issuer, sample_project,
  sample_space, sample_oidc, sample_dex,
}
use inari_operator.Base.{
  ℕ, ◌*◌, ◌≡◌, refl, true, false, Option, none, some, List, [], ◌∷◌, length, contains,
  if◌then◌else◌, nat_beq, ◌==◌, arith, ==_iff,
}
use inari_operator.Text.{Str, bytes, str_eq}
use inari_operator.Api.{Key, Condition, ObjectMeta, TenantReference}
use inari_operator.Api.Conditions.{ConditionList, IsLawful, is_true}
use inari_operator.Api.Items.{
  CertIssuer, DnsZone, DnsRecord, ArgoProject, TenantNamespace, KeycloakClient, ClusterDex,
}
use inari_operator.Cluster.Errors.{Result, ok, err, api, api_not_found}
use inari_operator.Cluster.Children.{spec, object_of, seq}
use inari_operator.Cluster.Children.Labelled.{AppliesMutate}
use inari_operator.Cluster.Env.{
  Env, SecretData, Trace, Json, FinalizerList, RealmRepresentation, ClientRepresentation,
}
use inari_operator.Cluster.Exec.{World}
use inari_operator.Keycloak.Token.{Client, new_client}

abbrev put : List Condition → Condition → List Condition
put [] c = c ∷ []
put (d ∷ cs) c = if d.type == c.type then c ∷ cs else d ∷ put cs c

abbrev drop_type : List Condition → Str → List Condition
drop_type [] s = []
drop_type (d ∷ cs) s = if d.type == s then drop_type cs s else d ∷ drop_type cs s

abbrev find_type : List Condition → Str → Option Condition
find_type [] s = none
find_type (d ∷ cs) s = if d.type == s then some d else find_type cs s

abbrev pub sample_meta : ConditionList
sample_meta = record {
  set_status_condition = put;
  remove_status_condition = drop_type;
  find_status_condition = find_type;
  is_status_condition_true =
      λ cs t. elim (find_type cs t) [ none ↦ false | some c ↦ is_true c.status ];
}

find_type-put :
    (cs : List Condition) (c : Condition) (t : Str)
    → find_type (put cs c) t ≡ (if c.type == t then some c else find_type cs t)
find_type-put [] c t = refl
find_type-put (d ∷ cs) c t =
    ground (arith, ==_iff d.type c.type, ==_iff d.type t, ==_iff c.type t, find_type-put cs c t)

find_type-drop_type :
    (cs : List Condition) (s t : Str)
    → find_type (drop_type cs s) t ≡ (if s == t then none else find_type cs t)
find_type-drop_type [] s t = ground arith
find_type-drop_type (d ∷ cs) s t =
    ground (arith, ==_iff d.type s, ==_iff d.type t, ==_iff s t, find_type-drop_type cs s t)

pub sample_meta-IsLawful : IsLawful sample_meta
sample_meta-IsLawful = record {
  find-set = find_type-put;
  find-remove = find_type-drop_type;
  is_true-find = λ cs t. refl;
}

abbrev without : List Str → Str → List Str
without [] s = []
without (x ∷ xs) s = if x == s then without xs s else x ∷ without xs s

abbrev sample_finalizers : FinalizerList
sample_finalizers = record {
  contains_finalizer = contains;
  add_finalizer = λ xs s. s ∷ xs;
  remove_finalizer = without;
}

abbrev pub sample_realm : RealmRepresentation
sample_realm = record { realm = bytes "acme"; display_name = bytes "Acme"; enabled = true }

abbrev pub sample_rep : ClientRepresentation
sample_rep = record {
  id = bytes "1";
  client_id = bytes "shop";
  public_client = false;
  service_accounts_enabled = true;
  standard_flow_enabled = true;
  redirect_uris = bytes "https://shop.acme.io/*" ∷ [];
}

abbrev sample_json : Json
sample_json = record {
  encode_realm = λ r. r.realm;
  encode_client = λ c. c.client_id;
  decode_realm = λ _. ok sample_realm;
  decode_clients = λ _. ok (sample_rep ∷ []);
  decode_secret = λ _. ok (bytes "s3cret");
  decode_token = λ _. ok (record { access_token = bytes "tok"; expires_in = some 300 });
}

abbrev pub sample_digest : Str → List ℕ
sample_digest s =
    7 ∷ 7 ∷ 7 ∷ 7 ∷ 7 ∷ 7 ∷ 7 ∷ 7 ∷ 7 ∷ 7 ∷ 7 ∷ 7 ∷ 7 ∷ 7 ∷ 7 ∷ 7 ∷ 7 ∷ 7 ∷ 7 ∷ 7 ∷ 7 ∷ 7 ∷ 7 ∷ 7
    ∷ 7 ∷ 7 ∷ 7 ∷ 7 ∷ 7 ∷ 7 ∷ 7 ∷ 7 ∷ []

abbrev sample_secret : SecretData
sample_secret = record {
  entries =
      (bytes "client-id", bytes "cluster-edge-1-dex")
      ∷ (bytes "client-secret", bytes "s3cret")
      ∷ (bytes "config.yaml", bytes "issuer: x")
      ∷ [];
}

abbrev missing {ℓ} : {A : Type ℓ} → Trace → Key → Result A
missing t key = err (api api_not_found (bytes "not found"))

abbrev pub sample_env : Env
sample_env = record {
  get_keycloak_realm = missing;
  get_keycloak_client = λ t key. ok sample_oidc;
  get_dns_zone = λ t key. ok sample_zone;
  get_dns_record = λ t key. ok sample_record;
  get_cert_issuer = λ t key. ok sample_issuer;
  get_argo_project = λ t key. ok sample_project;
  get_tenant_namespace = λ t key. ok sample_space;
  get_cluster_dex = λ t key. ok sample_dex;
  get_secret = λ t key. ok sample_secret;
  update = λ t obj. ok tt;
  update_status = λ t obj. ok tt;
  delete_child = λ t a k n. ok tt;
  create_or_update = λ t a child mutate. mutate child;
  new_client = λ t user. ok tt;
  parse_url = λ s. ok tt;
  send = λ t request.
      ok (record { status = if nat_beq (length t) 1 then 401 else 200; body = bytes "body" });
  now = λ t. length t * 1_000_000_000;
  has_recorder = true;
  meta = sample_meta;
  finalizer_list = sample_finalizers;
  json = sample_json;
  sum256 = sample_digest;
  marshal_yaml = λ v. ok (bytes "yaml");
  parse_quantity = λ s. ok s;
  set_controller_reference = λ owner child. ok (record child { owner = some owner });
  set_endpoints = λ content eps. ok (spec (object_of (("endpoints", seq eps) ∷ [])));
}

pub sample_env-AppliesMutate : AppliesMutate sample_env
sample_env-AppliesMutate t actor child mutate left h = (child, h)

abbrev pub start_world : World
start_world = record { trace = []; token = []; token_exp = 0 }

abbrev pub sample_client : Client
sample_client =
    new_client (bytes "https://sso.acme.io/") (bytes "master") (bytes "operator") (bytes "pw")
