-- ===== src/Reconcile/OidcClient/Writes.antt =====
-- The reconciler of clients labels what it writes.
use inari_operator.Base.{◌≡◌, Option, none, some, All}
use inari_operator.Text.{Str}
use inari_operator.Api.{Key}
use inari_operator.Api.Items.{KeycloakClient, KeycloakRealm}
use inari_operator.Cluster.Errors.{Result, ok, err}
use inari_operator.Cluster.Children.Labelled.{AppliesMutate}
use inari_operator.Cluster.Env.{Env, Trace}
use inari_operator.Cluster.Exec.Emits.{Emits}
use inari_operator.Cluster.Calls.Writes.{OnlyWrites}
use inari_operator.Keycloak.Token.{Client}
use inari_operator.Keycloak.Admin.Writes.{Emits-delete_client}
use inari_operator.Reconcile.Status.Writes.{write_rules}
use inari_operator.Reconcile.Status.Labels.{LabelsTenant, LabelsTenant-OnlyWrites}
use inari_operator.Reconcile.Lifecycle.Writes.{Emits-reconcile}
use inari_operator.Reconcile.OidcClient.{
  Target, reconcile, handler, announce, cleanup, delete_in_realm, resolve, resolved, provision,
  after_ensure, credentials_data,
}
use inari_operator.Reconcile.OidcClient.Calls.{
  Emits-write_secret, Emits-refused, Emits-with_client, credentials_secret-label,
}
use inari_operator.Keycloak.Admin.{ClientResult}
use inari_operator.Cluster.Exec.{World}

module _ (env : Env) (tenants : Str → Type 0) where
  abbrev only : OnlyWrites (LabelsTenant tenants)
  only = LabelsTenant-OnlyWrites tenants

  Emits-resolved :
      (kc : KeycloakClient) (got : Result KeycloakRealm)
      → Emits (LabelsTenant tenants) (resolved env kc got)
  unfolding resolved
  Emits-resolved kc (ok realm) = search write_rules
  Emits-resolved kc (err e) = search write_rules

  Emits-resolve : (kc : KeycloakClient) → Emits (LabelsTenant tenants) (resolve env kc)
  unfolding resolve
  Emits-resolve kc = search (write_rules, only, Emits-resolved)

  Emits-delete_in_realm :
      (keycloak : Option Client) (kc : KeycloakClient) (target : Target)
      → Emits (LabelsTenant tenants) (delete_in_realm env keycloak kc target)
  unfolding delete_in_realm
  Emits-delete_in_realm none kc target = search write_rules
  Emits-delete_in_realm (some c) kc target = search (write_rules, Emits-delete_client env c only)

  Emits-cleanup :
      (keycloak : Option Client) (kc : KeycloakClient) (target : Target)
      → Emits (LabelsTenant tenants) (cleanup env keycloak kc target)
  unfolding cleanup
  Emits-cleanup keycloak kc target = search (write_rules, only, Emits-delete_in_realm)

module _ (env : Env) (kc : KeycloakClient) (lawful : AppliesMutate env) (tenants : Str → Type 0)
    (mine : tenants kc.spec.tenant.tenant_id) where
  Emits-after_ensure :
      (c : Client) (realm : Str) (r : Result ClientResult)
      → Emits (LabelsTenant tenants) (after_ensure env c kc realm r)
  unfolding after_ensure
  Emits-after_ensure c realm (err e) = Emits-refused env kc (only env tenants) c realm e
  Emits-after_ensure c realm (ok res) =
      Emits-write_secret env lawful kc (only env tenants) c realm res
        (λ actor found left by_actor made. (
          kc.spec.tenant.tenant_id,
          credentials_secret-label env kc (credentials_data env c kc realm res) found left made,
          mine,
        ))

  -- Provisioning a KeycloakClient labels what it writes: for a set of tenants with the object's
  -- tenant in it, if each child that was written before has the label of one of them, so has each
  -- written after it.
  pub client_provision_labelled :
      (keycloak : Option Client) (target : Target) (w : World)
      → All (LabelsTenant tenants) w.trace
      → All (LabelsTenant tenants) (provision env keycloak kc target w).1.trace
  unfolding provision
  client_provision_labelled keycloak target w =
      (Emits-with_client env kc (only env tenants) target keycloak
          (λ c r. Emits-after_ensure c target.realm r)).all
        w

module _ (env : Env) (lawful : AppliesMutate env) (keycloak : Option Client)
    (tenants : Str → Type 0)
    (mine : (t : Trace) (key : Key) (kc : KeycloakClient)
      → env.get_keycloak_client t key ≡ ok kc
      → tenants kc.spec.tenant.tenant_id) where
  pub LabelsTenant-reconcile :
      (key : Key) → Emits (LabelsTenant tenants) (reconcile env keycloak key)
  unfolding reconcile handler announce
  LabelsTenant-reconcile key =
      Emits-reconcile env (only env tenants) (handler env keycloak) (Emits-resolve env tenants)
        (Emits-cleanup env tenants keycloak) (λ kc q. search (write_rules, only env tenants)) key
        (λ kc target t got. record {
          all = client_provision_labelled env kc lawful tenants (mine t key kc got) keycloak target;
        })
