-- ===== src/Reconcile/OidcClient/Calls.antt =====
-- What provisioning a client calls, for a predicate that only restricts the Secret that it writes.
use inari_operator.Common.Actors.{actor_of, impersonating_client-actor_of}
use inari_operator.Cluster.Exec.Emits.{Emits-bind_known, Emits, Emits-bind, Emits-attempt}
use inari_operator.Base.{◌≡◌, Bool, true, false, not, Option, none, some, arith, ◌&&◌}
use inari_operator.Text.{Str, is_empty}
use inari_operator.Api.Items.{KeycloakClient}
use inari_operator.Cluster.Errors.{Result, ok, err, Error}
use inari_operator.Cluster.Children.{Child, Labels, get_label, named, secret}
use inari_operator.Cluster.Children.Labelled.{AppliesMutate, get_label-with_label}
use inari_operator.Cluster.Env.{Env, Call, Actor, applied}
use inari_operator.Common.{tenant_label}
use inari_operator.Keycloak.Token.{Client}
use inari_operator.Keycloak.Admin.{ClientResult}
use inari_operator.Keycloak.Admin.Writes.{Emits-ensure_client}
use inari_operator.Reconcile.OidcClient.{
  Target, with_client, after_ensure, write_secret, after_write, announce_created,
  credentials_secret, credentials_data, secret_key,
}
use inari_operator.Cluster.Calls.Writes.{OnlyWrites, Emits-create_or_update}
use inari_operator.Reconcile.Status.Writes.{write_rules, Emits-impersonating_client}

module _ (env : Env) (kc : KeycloakClient) where
  pub credentials_secret-label :
      (entries : Labels) (found left : Child)
      → credentials_secret env kc entries found ≡ ok left
      → get_label tenant_label left.labels ≡ some kc.spec.tenant.tenant_id
  unfolding credentials_secret
  credentials_secret-label entries found left h =
      ground (arith, get_label-with_label tenant_label kc.spec.tenant.tenant_id found)

-- For a predicate that holds of each write of the Secret with the credentials of this result.
module _ (env : Env) (lawful : AppliesMutate env) (kc : KeycloakClient) {P : Call → Type 0}
    (only : OnlyWrites P) (c : Client) (realm : Str) (res : ClientResult)
    (writes : (actor : Actor) (found left : Child)
      → actor ≡ actor_of kc.spec.tenant
      → credentials_secret env kc (credentials_data env c kc realm res) found ≡ ok left
      → P (applied actor secret (secret_key kc) (ok left))) where
  Emits-announce_created : (created : Bool) → Emits P (announce_created env kc realm created)
  unfolding announce_created
  Emits-announce_created created = search (write_rules, only)

  Emits-after_write : (r : Result Child) → Emits P (after_write env kc realm res r)
  unfolding after_write
  Emits-after_write (ok x) = search (write_rules, only, Emits-announce_created)
  Emits-after_write (err e) = search (write_rules, only)

  pub Emits-write_secret : Emits P (write_secret env c kc realm res)
  unfolding write_secret
  Emits-write_secret =
      Emits-bind_known _ _ _ (λ actor. actor ≡ actor_of kc.spec.tenant)
        (Emits-impersonating_client env only kc.spec.tenant)
        (λ w v actor. impersonating_client-actor_of env kc.spec.tenant w v actor)
        (λ actor by_actor.
          Emits-bind _ _ _
            (Emits-attempt _ _ (
              Emits-create_or_update env only lawful actor (named secret (secret_key kc))
                (credentials_secret env kc (credentials_data env c kc realm res))
                (λ found left made. writes actor found left by_actor made)))
            Emits-after_write)

module _ (env : Env) (kc : KeycloakClient) {P : Call → Type 0} (only : OnlyWrites P) where
  pub Emits-refused :
      (c : Client) (realm : Str) (e : Error) → Emits P (after_ensure env c kc realm (err e))
  unfolding after_ensure
  Emits-refused c realm e = search (write_rules, only)

  pub Emits-with_client :
      (target : Target) (o : Option Client)
      → ((c : Client) (r : Result ClientResult) → Emits P (after_ensure env c kc target.realm r))
      → Emits P (with_client env kc target o)
  unfolding with_client
  Emits-with_client target none then = search write_rules
  Emits-with_client target (some c) then =
      search (write_rules, Emits-ensure_client env c only, then)

  -- Where provisioning waits, nothing else is called.
  pub Emits-unnamed :
      (c : Client) (target : Target)
      → is_empty target.realm ≡ true
      → Emits P (with_client env kc target (some c))
  unfolding with_client
  Emits-unnamed c target h = rw h (search (write_rules, only))

  pub Emits-waiting :
      (c : Client) (target : Target)
      → is_empty target.realm ≡ false
      → (not target.ready && is_empty kc.status.realm) ≡ true
      → Emits P (with_client env kc target (some c))
  unfolding with_client
  Emits-waiting c target named h = rw (named, h) (search (write_rules, only))
