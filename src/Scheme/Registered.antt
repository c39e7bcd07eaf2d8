-- ===== src/Scheme/Registered.antt =====
-- The scheme knows the types of every controller.
use inari_operator.Base.{◌≡◌, refl, some, List, [], ◌∷◌, All, Bool-cases, inl, inr}
use inari_operator.Text.{is_empty}
use inari_operator.Cluster.Errors.{ok}
use inari_operator.Cluster.Env.{
  Kind, keycloak_realms, keycloak_clients, dns_zones, dns_records, cert_issuers, argo_projects,
  tenant_namespaces, cluster_dexes,
}
use inari_operator.Startup.{Options}
use inari_operator.Startup.Laws.{kinds_for}
use inari_operator.Scheme.{
  GroupVersion, ApiType, object_type, list_type, SchemeFunctions, group_version, known_types,
  add_to_scheme, must_add, after_client_go, init,
}

-- In the order of `known_types`.
abbrev all_kinds : List Kind
all_kinds =
    keycloak_realms ∷ keycloak_clients ∷ dns_zones ∷ dns_records ∷ cert_issuers ∷ argo_projects
    ∷ tenant_namespaces ∷ cluster_dexes ∷ []

types_of : List Kind → List ApiType
types_of [] = []
types_of (k ∷ ks) = object_type k ∷ list_type k ∷ types_of ks

module _ {S : Type 0} (functions : SchemeFunctions S)
    (Knows : S → GroupVersion → ApiType → Type 0) where
  -- `AddKnownTypes` registers the types that it is given, and `AddToGroupVersion` forgets none.
  pub record IsRegistry : Type 0 where
    pub adds :
        (s : S) (gv : GroupVersion) (ts : List ApiType)
        → All (Knows (functions.add_known_types s gv ts) gv) ts
    pub retains :
        (s : S) (gv gv' : GroupVersion) (t : ApiType)
        → Knows s gv t
        → Knows (functions.add_to_group_version s gv') gv t

  -- The types that a controller of this kind needs.
  abbrev pub KnowsKind : S → Kind → Type 0
  KnowsKind s kind =
      Knows s group_version (object_type kind) × Knows s group_version (list_type kind)

  -- Two by two, through `AddToGroupVersion`.
  by_kind :
      (s s' : S) (ks : List Kind)
      → ((t : ApiType) → Knows s group_version t → Knows s' group_version t)
      → All (Knows s group_version) (types_of ks)
      → All (KnowsKind s') ks
  unfolding types_of
  by_kind s s' [] keep h = tt
  by_kind s s' (k ∷ ks) keep (o, (l, h)) =
      ((keep (object_type k) o, keep (list_type k) l), by_kind s s' ks keep h)

  of_controllers :
      (s : S) (options : Options)
      → All (KnowsKind s) all_kinds
      → All (KnowsKind s) (kinds_for options)
  of_controllers s options (r, (c, (z, (d, (i, (p, (n, (x, _)))))))) =
      elim (Bool-cases (is_empty options.keycloak_url)) [
        | inl without ↦ rw without (x, (n, (p, (i, (d, (z, tt))))))
        | inr given ↦ rw given (x, (n, (p, (i, (d, (z, (c, (r, tt))))))))
      ]

  module _ (registry : IsRegistry) (scheme next : S)
      (extended : functions.add_client_go scheme ≡ (ok tt, next)) (options : Options) where
    -- With a scheme library that registers what it is told to, and where the types of client-go are
    -- added without an error, `init` does not panic, and the scheme then knows the type and the list
    -- type of each kind that the process sets up a controller for.
    pub init-KnowsKind :
        (last : S) × (init functions scheme ≡ some last) × All (KnowsKind last) (kinds_for options)
    unfolding init after_client_go must_add add_to_scheme known_types types_of
    init-KnowsKind =
        let added = functions.add_known_types next group_version known_types in
        let last = functions.add_to_group_version added group_version in
        (
          last,
          rw extended refl,
          of_controllers last options (
              by_kind added last all_kinds (registry.retains added group_version group_version)
                (registry.adds next group_version known_types)),
        )
