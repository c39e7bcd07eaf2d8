-- ===== src/Api/Items.antt =====
-- The Catalog Items of api/v1alpha1, one spec and one status for each kind.
use inari_operator.Base.{ℤ, ℕ, Bool, Option, none, some, List, ◌++◌, true}
use inari_operator.Text.{Str, bytes}
use inari_operator.Api.{Condition, TenantReference, Resource}

-- keycloakrealm_types.go
pub record KeycloakRealmSpec : Type 0 where
  pub tenant : TenantReference
  pub realm : Str
  pub display_name : Str
  pub enabled : Bool

pub record KeycloakRealmStatus : Type 0 where
  pub conditions : List Condition
  pub observed_generation : ℕ
  pub realm : Str
  pub issuer_url : Str

abbrev pub KeycloakRealm : Type 0
KeycloakRealm = Resource KeycloakRealmSpec KeycloakRealmStatus

-- keycloakclient_types.go
pub record KeycloakClientSpec : Type 0 where
  pub tenant : TenantReference
  pub realm_ref : Str
  pub client_id : Str
  pub public : Bool
  pub redirect_uris : List Str
  pub service_accounts_enabled : Bool
  pub secret_name : Str

pub record KeycloakClientStatus : Type 0 where
  pub conditions : List Condition
  pub observed_generation : ℕ
  pub client_id : Str
  pub realm : Str
  pub secret_name : Str

abbrev pub KeycloakClient : Type 0
KeycloakClient = Resource KeycloakClientSpec KeycloakClientStatus

-- dns_types.go
pub record DnsZoneSpec : Type 0 where
  pub tenant : TenantReference
  pub zone_name : Str

pub record DnsZoneStatus : Type 0 where
  pub conditions : List Condition
  pub observed_generation : ℕ
  pub zone_name : Str

abbrev pub DnsZone : Type 0
DnsZone = Resource DnsZoneSpec DnsZoneStatus

pub record DnsRecordEndpoint : Type 0 where
  pub dns_name : Str
  pub record_type : Str
  pub targets : List Str
  pub ttl : ℤ

pub record DnsRecordSpec : Type 0 where
  pub tenant : TenantReference
  pub zone_ref : Str
  pub endpoints : List DnsRecordEndpoint

pub record DnsRecordStatus : Type 0 where
  pub conditions : List Condition
  pub observed_generation : ℕ

abbrev pub DnsRecord : Type 0
DnsRecord = Resource DnsRecordSpec DnsRecordStatus

-- certissuer_types.go
pub record AcmeIssuerSpec : Type 0 where
  pub server : Str
  pub email : Str
  pub ingress_class : Str

pub record CaIssuerSpec : Type 0 where
  pub secret_name : Str

pub record CertIssuerSpec : Type 0 where
  pub tenant : TenantReference
  pub acme : Option AcmeIssuerSpec
  pub ca : Option CaIssuerSpec

pub record CertIssuerStatus : Type 0 where
  pub conditions : List Condition
  pub observed_generation : ℕ
  pub cluster_issuer_name : Str

abbrev pub CertIssuer : Type 0
CertIssuer = Resource CertIssuerSpec CertIssuerStatus

-- argoproject_types.go
pub record ArgoProjectSpec : Type 0 where
  pub tenant : TenantReference
  pub source_repos : List Str
  pub destination_namespaces : List Str
  pub description : Str

pub record ArgoProjectStatus : Type 0 where
  pub conditions : List Condition
  pub observed_generation : ℕ
  pub project_name : Str

abbrev pub ArgoProject : Type 0
ArgoProject = Resource ArgoProjectSpec ArgoProjectStatus

-- tenantnamespace_types.go; `pods` is an `int32`.
pub record TenantResourceQuota : Type 0 where
  pub cpu : Str
  pub memory : Str
  pub pods : ℤ

pub record TenantNamespaceSpec : Type 0 where
  pub tenant : TenantReference
  pub admin_group : Str
  pub resource_quota : Option TenantResourceQuota

pub record TenantNamespaceStatus : Type 0 where
  pub conditions : List Condition
  pub observed_generation : ℕ
  pub namespace : Str

abbrev pub TenantNamespace : Type 0
TenantNamespace = Resource TenantNamespaceSpec TenantNamespaceStatus

-- clusterdex_types.go
pub record SecretReference : Type 0 where
  pub name : Str
  pub namespace : Str

pub record SecretKeyReference : Type 0 where
  pub name : Str
  pub namespace : Str
  pub key : Str

pub record ClusterDexArgoCd : Type 0 where
  pub namespace : Str
  pub project : Str
  pub oidc_client_secret_ref : Option SecretKeyReference
  pub admin_groups : List Str
  pub viewer_groups : List Str
  pub rbac_policy_extra : List Str

pub record ClusterDexGatewayRef : Type 0 where
  pub name : Str
  pub namespace : Str
  pub section_name : Str

pub record ClusterDexRoute : Type 0 where
  pub gateway_ref : ClusterDexGatewayRef
  pub hostnames : List Str
  pub annotations : List (Str × Str)

pub record ClusterDexDex : Type 0 where
  pub issuer_url : Str
  pub image : Str
  pub chart_version : Str
  pub config_secret_ref : Option SecretReference
  pub route : Option ClusterDexRoute
  pub static_tokens_secret_ref : Option SecretReference

pub record ClusterDexSpec : Type 0 where
  pub tenant : TenantReference
  pub cluster_id : Str
  pub keycloak_issuer_url : Str
  pub client_secret_ref : SecretReference
  pub enabled : Option Bool
  pub dex : Option ClusterDexDex
  pub argocd : Option ClusterDexArgoCd

pub record ClusterDexStatus : Type 0 where
  pub conditions : List Condition
  pub observed_generation : ℕ
  pub client_id : Str
  pub dex_issuer_url : Str
  pub dex_application : Str

abbrev pub ClusterDex : Type 0
ClusterDex = Resource ClusterDexSpec ClusterDexStatus

-- `IsEnabled`.
abbrev pub is_enabled : ClusterDexSpec → Bool
is_enabled s = elim s.enabled [ none ↦ true | some b ↦ b ]

-- `DexClientID`.
unfoldable pub dex_client_id : ClusterDexSpec → Str
dex_client_id s = bytes "cluster-" ++ s.cluster_id ++ bytes "-dex"

-- Every kind of the group `platform.inari.io`, as `client.Object`.
pub data Object : Type 0 where
  keycloak_realm : KeycloakRealm → Object
  keycloak_client : KeycloakClient → Object
  dns_zone : DnsZone → Object
  dns_record : DnsRecord → Object
  cert_issuer : CertIssuer → Object
  argo_project : ArgoProject → Object
  tenant_namespace : TenantNamespace → Object
  cluster_dex : ClusterDex → Object
