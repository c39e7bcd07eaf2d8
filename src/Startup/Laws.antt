-- ===== src/Startup/Laws.antt =====
-- What the process does before it starts the manager.
use inari_operator.Process.Laws.{>>=-eq-some, must-eq-some, return-eq-some}
use inari_operator.Base.{
  ◌≡◌, ap, sym, ◌∙◌, false, Option, none, some, List, [], ◌∷◌, arith, if◌then◌else◌, Bool-cases,
  inl, inr, ◌++◌,
}
use inari_operator.Text.{Str, bytes, is_empty}
use inari_operator.Cluster.Errors.{ok, err, Done}
use inari_operator.Cluster.Env.{
  Kind, keycloak_realms, keycloak_clients, dns_zones, dns_records, cert_issuers, argo_projects,
  tenant_namespaces, cluster_dexes,
}
use inari_operator.Keycloak.Token.{Client, new_client}
use inari_operator.System.{Settings}
use inari_operator.Process.{
  Runtime, Event, logged_info, config_loaded, manager_created, completed, health_check_added,
  ready_check_added, call, set_up_for, ◌>>=◌,
}
use inari_operator.Startup.{
  Options, manager_options, exit_unless, keycloak_for, create_manager, set_up, set_up_keycloak,
  set_up_controllers, add_checks, prepare,
}
use inari_operator.Reconcile.Realm
use inari_operator.Reconcile.OidcClient
use inari_operator.Reconcile.Zone
use inari_operator.Reconcile.Record
use inari_operator.Reconcile.Issuer
use inari_operator.Reconcile.Project
use inari_operator.Reconcile.TenantSpace
use inari_operator.Reconcile.Baseline

-- A secret is given where a URL is.
abbrev pub IsConfigured : Options → Type 0
IsConfigured options =
    is_empty options.keycloak_url ≡ false → is_empty options.keycloak_client_secret ≡ false

-- What the reconcilers are given.
abbrev pub settings_for : Options → Settings
settings_for options = record {
  keycloak =
      if is_empty options.keycloak_url
      then none
      else some (
          new_client options.keycloak_url options.keycloak_token_realm options.keycloak_client_id
            options.keycloak_client_secret);
  argocd_namespace = options.argocd_namespace;
}

-- The kinds with a controller, the last one first: those of Keycloak only where a URL is given.
abbrev pub platform_kinds : List Kind
platform_kinds =
    cluster_dexes ∷ tenant_namespaces ∷ argo_projects ∷ cert_issuers ∷ dns_records ∷ dns_zones ∷ []

abbrev pub kinds_for : Options → List Kind
kinds_for options =
    if is_empty options.keycloak_url
    then platform_kinds
    else platform_kinds ++ keycloak_clients ∷ keycloak_realms ∷ []

-- The kinds whose controller was set up.
abbrev pub set_up_kinds : List Event → List Kind
set_up_kinds [] = []
set_up_kinds (completed kind (ok u) ∷ t) = kind ∷ set_up_kinds t
set_up_kinds (_ ∷ t) = set_up_kinds t

-- A controller that was set up.
abbrev pub up : Kind → Event
up kind = completed kind (ok tt)

abbrev pub after_keycloak : Option Client → List Event → List Event
after_keycloak none t = t
after_keycloak (some c) t = up keycloak_clients ∷ up keycloak_realms ∷ t

-- The log where no URL is given.
abbrev pub after_choice : Options → List Event → List Event
after_choice options t =
    if is_empty options.keycloak_url
    then logged_info
        (bytes "keycloak-url not set; KeycloakRealm/KeycloakClient reconcilers disabled")
      ∷ t
    else t

-- All that happens before the log "starting manager", last event first.
abbrev pub startup_events : Options → List Event
startup_events options =
    ready_check_added (bytes "readyz") (ok tt)
    ∷ health_check_added (bytes "healthz") (ok tt)
    ∷ up cluster_dexes
    ∷ up tenant_namespaces
    ∷ up argo_projects
    ∷ up cert_issuers
    ∷ up dns_records
    ∷ up dns_zones
    ∷ after_keycloak (settings_for options).keycloak (
        after_choice options
          (manager_created (manager_options options) (ok tt) ∷ config_loaded (ok tt) ∷ []))

keycloak_for-eq-some :
    (options : Options) (t : List Event) {k : Option Client} {v : List Event}
    → keycloak_for options t ≡ (some k, v)
    → IsConfigured options × (k ≡ (settings_for options).keycloak) × (v ≡ after_choice options t)
unfolding keycloak_for ◌>>=◌
keycloak_for-eq-some options t h = elim (Bool-cases (is_empty options.keycloak_url)) [
  | inl absent ↦ ground (arith, absent)
  | inr given ↦ elim (Bool-cases (is_empty options.keycloak_client_secret)) [
    | inl missing ↦ ground (arith, given, missing)
    | inr secret ↦ ground (arith, given, secret)
  ]
]

exit_unless-eq-some :
    (r : Done) (t : List Event) {u : Unit {0}} {v : List Event}
    → exit_unless r t ≡ (some u, v)
    → (r ≡ ok tt) × (v ≡ t)
unfolding exit_unless
exit_unless-eq-some (ok u) t h = ground arith
exit_unless-eq-some (err e) t h = cc

module _ (rt : Runtime) where
  set_up-eq-some :
      (name : Str) (kind : Kind) (t : List Event) {u : Unit {0}} {v : List Event}
      → set_up rt name (set_up_for rt kind) t ≡ (some u, v)
      → v ≡ up kind ∷ t
  unfolding set_up_for
  set_up-eq-some name kind t h =
      must-eq-some (bytes "unable to create controller") (some name) (completed kind)
        (λ t. rt.complete t kind) t h

  set_up_keycloak-eq-some :
      (o : Option Client) (t : List Event) {u : Unit {0}} {v : List Event}
      → set_up_keycloak rt o t ≡ (some u, v)
      → v ≡ after_keycloak o t
  unfolding set_up_keycloak Realm.set_up_with_manager OidcClient.set_up_with_manager
  set_up_keycloak-eq-some none t h = ground arith
  set_up_keycloak-eq-some (some c) t h =
      let (_, t1, realm, h1) = >>=-eq-some _ _ t h in
      cc (set_up-eq-some _ keycloak_realms t realm, set_up-eq-some _ keycloak_clients t1 h1)

  set_up_controllers-eq-some :
      (t : List Event) {u : Unit {0}} {v : List Event}
      → set_up_controllers rt t ≡ (some u, v)
      → v
        ≡ up cluster_dexes
          ∷ up tenant_namespaces
          ∷ up argo_projects
          ∷ up cert_issuers
          ∷ up dns_records
          ∷ up dns_zones
          ∷ t
  unfolding set_up_controllers Zone.set_up_with_manager Record.set_up_with_manager
      Issuer.set_up_with_manager Project.set_up_with_manager TenantSpace.set_up_with_manager
      Baseline.set_up_with_manager
  set_up_controllers-eq-some t h =
      let (_, t1, zone, h1) = >>=-eq-some _ _ t h in
      let (_, t2, record_, h2) = >>=-eq-some _ _ t1 h1 in
      let (_, t3, issuer, h3) = >>=-eq-some _ _ t2 h2 in
      let (_, t4, project, h4) = >>=-eq-some _ _ t3 h3 in
      let (_, t5, space, h5) = >>=-eq-some _ _ t4 h4 in
      cc (
        set_up-eq-some _ dns_zones t zone,
        set_up-eq-some _ dns_records t1 record_,
        set_up-eq-some _ cert_issuers t2 issuer,
        set_up-eq-some _ argo_projects t3 project,
        set_up-eq-some _ tenant_namespaces t4 space,
        set_up-eq-some _ cluster_dexes t5 h5,
      )

  add_checks-eq-some :
      (t : List Event) {u : Unit {0}} {v : List Event}
      → add_checks rt t ≡ (some u, v)
      → v
        ≡ ready_check_added (bytes "readyz") (ok tt)
          ∷ health_check_added (bytes "healthz") (ok tt)
          ∷ t
  unfolding add_checks
  add_checks-eq-some t h =
      let (_, t1, healthz, h1) = >>=-eq-some _ _ t h in
      cc (
        must-eq-some _ none (health_check_added (bytes "healthz"))
            (λ t. rt.add_healthz_check t (bytes "healthz")) t healthz,
        must-eq-some _ none (ready_check_added (bytes "readyz"))
            (λ t. rt.add_readyz_check t (bytes "readyz")) t1 h1,
      )

  in_order :
      (options : Options) {loaded : Done} {k : Option Client} {t1 t2 t3 t4 t5 t6 t7 v : List Event}
      → call config_loaded rt.get_config [] ≡ (some loaded, t1)
      → loaded ≡ ok tt
      → t2 ≡ t1
      → t3 ≡ manager_created (manager_options options) (ok tt) ∷ t2
      → t4 ≡ after_choice options t3
      → k ≡ (settings_for options).keycloak
      → t5 ≡ after_keycloak k t4
      → t6
        ≡ up cluster_dexes
          ∷ up tenant_namespaces
          ∷ up argo_projects
          ∷ up cert_issuers
          ∷ up dns_records
          ∷ up dns_zones
          ∷ t5
      → t7
        ≡ ready_check_added (bytes "readyz") (ok tt)
          ∷ health_check_added (bytes "healthz") (ok tt)
          ∷ t6
      → v ≡ t7
      → v ≡ startup_events options
  in_order options {loaded} {t1 = t1} got fine e2 e3 e4 ek e5 e6 e7 e8 =
      let first : rt.get_config [] ≡ ok tt = cc (got, fine) in
      let e1 : t1 ≡ config_loaded (ok tt) ∷ [] =
        sym (ap (λ p. p.1) got) ∙ ap (λ r. config_loaded r ∷ []) first in
      rw (e8, e7, e6, e5, ek, e4, e3, e2, e1)

  pub prepare-eq-some :
      (options : Options) {settings : Settings} {v : List Event}
      → prepare rt options [] ≡ (some settings, v)
      → IsConfigured options × (settings ≡ settings_for options) × (v ≡ startup_events options)
  unfolding prepare exit_unless
  prepare-eq-some options h =
      let (loaded, t1, got, h1) = >>=-eq-some (call config_loaded rt.get_config) _ [] h in
      let (_, t2, went, h2) = >>=-eq-some (exit_unless loaded) _ t1 h1 in
      let (_, t3, created, h3) = >>=-eq-some (create_manager rt options) _ t2 h2 in
      let (k, t4, chosen, h4) = >>=-eq-some (keycloak_for options) _ t3 h3 in
      let (_, t5, realms, h5) = >>=-eq-some (set_up_keycloak rt k) _ t4 h4 in
      let (_, t6, others, h6) = >>=-eq-some (set_up_controllers rt) _ t5 h5 in
      let (_, t7, checks, h7) = >>=-eq-some (add_checks rt) _ t6 h6 in
      let (configured, k_is, t4_is) = keycloak_for-eq-some options t3 chosen in
      let (fine, t2_is) = exit_unless-eq-some loaded t1 went in
      let t7_is = add_checks-eq-some t6 checks in
      let t6_is = set_up_controllers-eq-some t5 others in
      let t5_is = set_up_keycloak-eq-some k t4 realms in
      let t3_is =
        must-eq-some _ none (manager_created (manager_options options))
          (λ t. rt.new_manager t (manager_options options)) t2 created in
      let (settings_is, v_is) = return-eq-some _ t7 h7 in
      (
        configured,
        settings_is
            ∙ ap (λ o. record { keycloak = o; argocd_namespace = options.argocd_namespace }) k_is,
        in_order options got fine t2_is t3_is t4_is k_is t5_is t6_is t7_is v_is,
      )
