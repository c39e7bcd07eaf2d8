-- ===== src/Cluster/Env.antt =====
-- The calls of the operator, as a trace records them, and the environment that answers them.
use inari_operator.Base.{ℕ, Bool, Option, List}
use inari_operator.Text.{Str}
use inari_operator.Api.{Key}
use inari_operator.Api.Conditions.{ConditionList}
use inari_operator.Api.Items.{
  KeycloakRealm, KeycloakClient, DnsZone, DnsRecord, CertIssuer, ArgoProject, TenantNamespace,
  ClusterDex, Object,
}
use inari_operator.Cluster.Errors.{Result, Done}
use inari_operator.Cluster.Children.{Child, ChildKind, Content, Value, Values}

-- Who writes: the operator, or the user that it impersonates.
pub data Actor : Type 0 where
  operator : Actor
  impersonated : Str → Actor

pub data Method : Type 0 where
  get post put delete : Method

-- An HTTP request: the whole URL, the `Authorization` header and the body, empty where none is set.
pub record Request : Type 0 where
  pub method : Method
  pub url : Str
  pub authorization : Str
  pub content_type : Str
  pub body : Str

-- A response: its status and the first MiB of its body.
pub record Response : Type 0 where
  pub status : ℕ
  pub body : Str

pub data Kind : Type 0 where
  keycloak_realms keycloak_clients dns_zones dns_records cert_issuers argo_projects
        tenant_namespaces cluster_dexes secrets :
      Kind

pub data EventType : Type 0 where
  normal warning : EventType

pub data Call : Type 0 where
  read : Kind → Key → Call
  updated : Object → Done → Call
  status_updated : Object → Done → Call
  deleted : Actor → ChildKind → Key → Done → Call
  -- `CreateOrUpdate`, with the object that it leaves in the cluster
  applied : Actor → ChildKind → Key → Result Child → Call
  -- a new client for an impersonated user
  connected : Str → Done → Call
  sent : Request → Result Response → Call
  -- `Eventf`: kind and key of the object, type, reason, message
  emitted : Kind → Key → EventType → Str → Str → Call

-- The calls so far, the last one first.
abbrev pub Trace : Type 0
Trace = List Call

-- A Secret as the API server returns it.
pub record SecretData : Type 0 where
  pub entries : List (Str × Str)

-- The representations of internal/keycloak/client.go.
pub record RealmRepresentation : Type 0 where
  pub realm : Str
  pub display_name : Str
  pub enabled : Bool

pub record ClientRepresentation : Type 0 where
  pub id : Str
  pub client_id : Str
  pub public_client : Bool
  pub service_accounts_enabled : Bool
  pub standard_flow_enabled : Bool
  pub redirect_uris : List Str

-- `access_token` and `expires_in` of a token response; `expires_in` is `none` if it is not positive.
pub record TokenResponse : Type 0 where
  pub access_token : Str
  pub expires_in : Option ℕ

-- `encoding/json` on the types of internal/keycloak/client.go.
pub record Json : Type 0 where
  pub encode_realm : RealmRepresentation → Str
  pub encode_client : ClientRepresentation → Str
  pub decode_realm : Str → Result RealmRepresentation
  pub decode_clients : Str → Result (List ClientRepresentation)
  pub decode_secret : Str → Result Str
  pub decode_token : Str → Result TokenResponse

-- `controllerutil.ContainsFinalizer`, `AddFinalizer` and `RemoveFinalizer` on the metadata's list.
pub record FinalizerList : Type 0 where
  pub contains_finalizer : List Str → Str → Bool
  pub add_finalizer : List Str → Str → List Str
  pub remove_finalizer : List Str → Str → List Str

-- Every answer may depend on all the calls before it.
pub record Env : Type 0 where
  -- `client.Client`: Get
  pub get_keycloak_realm : Trace → Key → Result KeycloakRealm
  pub get_keycloak_client : Trace → Key → Result KeycloakClient
  pub get_dns_zone : Trace → Key → Result DnsZone
  pub get_dns_record : Trace → Key → Result DnsRecord
  pub get_cert_issuer : Trace → Key → Result CertIssuer
  pub get_argo_project : Trace → Key → Result ArgoProject
  pub get_tenant_namespace : Trace → Key → Result TenantNamespace
  pub get_cluster_dex : Trace → Key → Result ClusterDex
  pub get_secret : Trace → Key → Result SecretData
  -- Update, Status().Update and Delete
  pub update : Trace → Object → Done
  pub update_status : Trace → Object → Done
  pub delete_child : Trace → Actor → ChildKind → Key → Done
  -- `controllerutil.CreateOrUpdate` on an object of that kind and key, with its mutate function
  pub create_or_update : Trace → Actor → Child → (Child → Result Child) → Result Child
  -- `client.New` for the user
  pub new_client : Trace → Str → Done
  -- `http.NewRequestWithContext`: whether the URL parses
  pub parse_url : Str → Done
  -- `http.Client.Do` and the reading of the body
  pub send : Trace → Request → Result Response
  -- `time.Now`, in nanoseconds
  pub now : Trace → ℕ
  -- whether there is an `EventRecorder`
  pub has_recorder : Bool
  -- libraries that keep no state
  pub meta : ConditionList
  pub finalizer_list : FinalizerList
  pub json : Json
  pub sum256 : Str → List ℕ
  pub marshal_yaml : Value → Result Str
  pub parse_quantity : Str → Result Str
  -- `controllerutil.SetControllerReference`, with the owner's key
  pub set_controller_reference : Key → Child → Result Child
  -- `unstructured.SetNestedSlice` at "spec", "endpoints"
  pub set_endpoints : Content → Values → Result Content
