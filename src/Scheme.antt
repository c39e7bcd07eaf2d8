-- ===== src/Scheme.antt =====
-- api/v1alpha1/groupversion_info.go and `init` of cmd/main.go: the types that the scheme knows before
-- the manager is created.
pub mod Registered
use inari_operator.Base.{Option, none, some, List, [], ◌∷◌}
use inari_operator.Text.{Str, bytes}
use inari_operator.Cluster.Errors.{Done, ok, err}
use inari_operator.Cluster.Env.{
  Kind, keycloak_realms, keycloak_clients, dns_zones, dns_records, cert_issuers, argo_projects,
  tenant_namespaces, cluster_dexes,
}

-- `schema.GroupVersion`.
pub record GroupVersion : Type 0 where
  pub group : Str
  pub version : Str

-- The type of an object of a kind, and that of a list of them.
pub data ApiType : Type 0 where
  object_type list_type : Kind → ApiType

-- The functions on a `runtime.Scheme` of type `S`: `AddKnownTypes`, `metav1.AddToGroupVersion`, and
-- `AddToScheme` of client-go, which may fail.
pub record SchemeFunctions (S : Type 0) : Type 0 where
  pub add_known_types : S → GroupVersion → List ApiType → S
  pub add_to_group_version : S → GroupVersion → S
  pub add_client_go : S → Done × S

unfoldable pub group_version : GroupVersion
group_version = record { group = bytes "platform.inari.io"; version = bytes "v1alpha1" }

-- The arguments of `AddKnownTypes`.
unfoldable pub known_types : List ApiType
known_types =
    object_type keycloak_realms
    ∷ list_type keycloak_realms
    ∷ object_type keycloak_clients
    ∷ list_type keycloak_clients
    ∷ object_type dns_zones
    ∷ list_type dns_zones
    ∷ object_type dns_records
    ∷ list_type dns_records
    ∷ object_type cert_issuers
    ∷ list_type cert_issuers
    ∷ object_type argo_projects
    ∷ list_type argo_projects
    ∷ object_type tenant_namespaces
    ∷ list_type tenant_namespaces
    ∷ object_type cluster_dexes
    ∷ list_type cluster_dexes
    ∷ []

module _ {S : Type 0} (functions : SchemeFunctions S) where
  -- `addKnownTypes`, which `AddToScheme` runs: it returns no error.
  unfoldable pub add_to_scheme : S → Done × S
  add_to_scheme scheme = (
    ok tt,
    functions.add_to_group_version (functions.add_known_types scheme group_version known_types)
        group_version,
  )

  -- `utilruntime.Must` panics on an error: `none`.
  must_add : Done × S → Option S
  must_add (ok u, scheme) = some scheme
  must_add (err e, scheme) = none

  after_client_go : Option S → Option S
  unfolding must_add
  after_client_go none = none
  after_client_go (some scheme) = must_add (add_to_scheme scheme)

  -- `init`.
  unfoldable pub init : S → Option S
  unfolding after_client_go must_add
  init scheme = after_client_go (must_add (functions.add_client_go scheme))
