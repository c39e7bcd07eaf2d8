-- ===== src/Reconcile/OidcClient/Converges.antt =====
-- A reconcile of a KeycloakClient that was provisioned before provides the client in its realm.
use inari_operator.Base.{◌≡◌, refl, ap, ◌∙◌, true, false, Bool, Option, some, Bool-cases, inl, inr}
use inari_operator.Text.{Str, is_empty}
use inari_operator.Api.{Key, TenantReference, is_deleting}
use inari_operator.Api.Conditions.{type_name, ready}
use inari_operator.Api.Items.{KeycloakClient, KeycloakRealm, keycloak_client}
use inari_operator.Cluster.Errors.{Result, ok, err, Error, is_not_found}
use inari_operator.Cluster.Children.{Child}
use inari_operator.Cluster.Env.{
  Env, Trace, ClientRepresentation, keycloak_clients, keycloak_realms, read,
}
use inari_operator.Cluster.Exec.{World, log, attempt, ◌>>=◌}
use inari_operator.Cluster.Exec.Keeps.{Keeps}
use inari_operator.Cluster.Calls.Keeps.{
  Ignores, IgnoresApplied, Keeps-create_or_update, call_keeps_rules,
}
use inari_operator.Common.{has_finalizer, impersonating_client}
use inari_operator.Keycloak.Token.{Client}
use inari_operator.Keycloak.Admin.{ClientResult, with_standard_flow}
use inari_operator.Keycloak.Server.{IsClientServer}
use inari_operator.Keycloak.Server.Ensured.{provided, reported, ensure_client-reported}
use inari_operator.Reconcile.Lifecycle.Laws.{reconcile_marked}
use inari_operator.Reconcile.Status.Keeps.{status_keeps_rules}
use inari_operator.Reconcile.OidcClient.{
  reconcile, handler, provision, with_client, after_ensure, write_secret, after_write,
  announce_created, representation, resolve, resolved, realm_key,
}

module _ (env : Env) (kc : KeycloakClient) where
  -- The referenced KeycloakRealm is there or is known to be missing.
  abbrev pub RealmAnswers : Trace → Type 0
  RealmAnswers t =
      (e : Error) → env.get_keycloak_realm t (realm_key kc) ≡ err e → is_not_found e ≡ true

  abbrev Recorded : World → Result KeycloakRealm → Type 0
  Recorded w got =
      (is_ready : Bool) × (resolved env kc got w
        ≡ (ok (record { realm = kc.status.realm; ready = is_ready }), w))

  resolved-Recorded :
      (got : Result KeycloakRealm) (w : World)
      → ((e : Error) → got ≡ err e → is_not_found e ≡ true)
      → is_empty kc.status.realm ≡ false
      → Recorded w got
  unfolding resolved
  resolved-Recorded (ok realm) w answers recorded = (
    env.meta.is_status_condition_true realm.status.conditions (type_name ready),
    rw recorded refl,
  )
  resolved-Recorded (err e) w answers recorded = (false, rw (answers e refl) refl)

  -- What a resolved realm is once one is recorded: that one, whatever the KeycloakRealm now says.
  resolve_recorded :
      (w : World)
      → RealmAnswers w.trace
      → is_empty kc.status.realm ≡ false
      → (is_ready : Bool) × (resolve env kc w ≡ (
        ok (record { realm = kc.status.realm; ready = is_ready }),
        log (read keycloak_realms (realm_key kc)) w,
      ))
  unfolding resolve attempt ◌>>=◌
  resolve_recorded w answers recorded =
      resolved-Recorded (env.get_keycloak_realm w.trace (realm_key kc))
        (log (read keycloak_realms (realm_key kc)) w) answers recorded

module _ (env : Env) (c : Client) (client : Trace → Option ClientRepresentation)
    (ignores : Ignores client) (ignores_applied : IgnoresApplied client) (kc : KeycloakClient) where
  Keeps-impersonating_client :
      (tenant : TenantReference) → Keeps client (impersonating_client env tenant)
  unfolding impersonating_client
  Keeps-impersonating_client tenant = search (call_keeps_rules, ignores)

  Keeps-announce_created :
      (realm : Str) (created : Bool) → Keeps client (announce_created env kc realm created)
  unfolding announce_created
  Keeps-announce_created realm created = search (status_keeps_rules, ignores)

  Keeps-after_write :
      (realm : Str) (res : ClientResult) (r : Result Child)
      → Keeps client (after_write env kc realm res r)
  unfolding after_write
  Keeps-after_write realm res (err e) = search (status_keeps_rules, ignores)
  Keeps-after_write realm res (ok child) =
      search (status_keeps_rules, ignores, Keeps-announce_created)

  Keeps-after_ensure :
      (realm : Str) (res : ClientResult) → Keeps client (after_ensure env c kc realm (ok res))
  unfolding after_ensure write_secret
  Keeps-after_ensure realm res = search (
    status_keeps_rules, ignores_applied, Keeps-impersonating_client, Keeps-create_or_update,
    Keeps-after_write,
  )

module _ (env : Env) (c : Client) (client : Trace → Option ClientRepresentation)
    (ignores : Ignores client) (ignores_applied : IgnoresApplied client)
    (accepts : Trace → Str → Bool) (kc : KeycloakClient) (new_id secret : Str)
    (server : IsClientServer env c client accepts kc.status.realm
      (representation kc).client_id
      new_id
      secret) where
  abbrev pub Provides : World → World → Type 0
  Provides w v =
      client v.trace
      ≡ some (provided new_id (with_standard_flow env c (representation kc)) (client w.trace))

  provision-Provides :
      (is_ready : Bool) (w : World)
      → is_empty kc.status.realm ≡ false
      → Provides w
          (provision env (some c) kc (record { realm = kc.status.realm; ready = is_ready }) w).1
  unfolding provision with_client attempt ◌>>=◌
  provision-Provides is_ready w recorded =
      let res =
        reported new_id secret (with_standard_flow env c (representation kc)) (client w.trace) in
      let (v, ensured, there) =
        ensure_client-reported env c client accepts kc.status.realm (representation kc) new_id
          secret server w in
      let kept = Keeps-after_ensure env c client ignores ignores_applied kc kc.status.realm res in
      elim (Bool-cases is_ready) [
        | inl settled ↦ rw (recorded, settled, ensured) (kept.same v ∙ there)
        | inr unsettled ↦ rw (recorded, unsettled, ensured) (kept.same v ∙ there)
      ]

  -- Against a Keycloak server that behaves as documented, and whose client no call to the cluster
  -- changes: where a KeycloakClient that is live and holds the finalizer has a realm recorded in its
  -- status, and the Get of the KeycloakRealm does not fail other than with NotFound, a reconcile leaves
  -- the client in the recorded realm as `EnsureClient` promises, whatever that KeycloakRealm now says
  -- and whatever the other calls to the cluster answer.
  pub client_reconcile-provided :
      (key : Key) (w : World)
      → env.get_keycloak_client w.trace key ≡ ok kc
      → is_deleting kc ≡ false
      → has_finalizer env keycloak_client kc ≡ true
      → is_empty kc.status.realm ≡ false
      → RealmAnswers env kc (log (read keycloak_clients key) w).trace
      → Provides w (reconcile env (some c) key w).1
  unfolding reconcile handler
  client_reconcile-provided key w got live has recorded answers =
      let w1 = log (read keycloak_clients key) w in
      let w2 = log (read keycloak_realms (realm_key kc)) w1 in
      let (is_ready, resolves) = resolve_recorded env kc w1 answers recorded in
      rw
        (reconcile_marked env (handler env (some c)) key w kc
          (record { realm = kc.status.realm; ready = is_ready }) w2 got resolves live has)
        (provision-Provides is_ready w2 recorded
          ∙ ap (λ o. some (provided new_id (with_standard_flow env c (representation kc)) o))
              (ignores.on_read keycloak_realms (realm_key kc) w1.trace
                ∙ ignores.on_read keycloak_clients key w.trace))
