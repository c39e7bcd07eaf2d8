-- ===== src/Reconcile/OidcClient/Credentials.antt =====
-- What the Secret of a client holds.
use inari_operator.Common.Actors.{actor_of}
use inari_operator.Cluster.Exec.Emits.{Emits}
use inari_operator.Base.{◌≡◌, Option, none, some, All, inr, ◌⊎◌, if◌then◌else◌, false, true}
use inari_operator.Text.{Str, bytes, is_empty}
use inari_operator.Api.Items.{KeycloakClient}
use inari_operator.Cluster.Errors.{ok}
use inari_operator.Cluster.Children.{Labels, get_label, credentials, named, secret}
use inari_operator.Cluster.Children.Labelled.{AppliesMutate}
use inari_operator.Cluster.Env.{Env, Call, applied}
use inari_operator.Cluster.Exec.{World}
use inari_operator.Common.{tenant_label}
use inari_operator.Keycloak.Token.{Client, issuer_url}
use inari_operator.Keycloak.Admin.{ClientResult, ensure_client}
use inari_operator.Reconcile.OidcClient.{Target, representation, client_id_of}
use inari_operator.Cluster.Calls.Writes.{OnlyWrites}

-- The entries of the Secret: the identifier and the issuer, and for a confidential client, and only
-- for one, this secret.
pub record AreCredentials (kc : KeycloakClient) (issuer client_secret : Str) (entries : Labels)
    : Type 0 where
  pub client_id : get_label (bytes "client-id") entries ≡ some (client_id_of kc)
  pub issued_by : get_label (bytes "issuer") entries ≡ some issuer
  pub secret_entry :
      get_label (bytes "client-secret") entries
      ≡ (if kc.spec.public then none else some client_secret)

-- The realm has a name, and it is ready or the client was provisioned before.
pub record IsUsable (kc : KeycloakClient) (target : Target) : Type 0 where
  pub named : is_empty target.realm ≡ false
  pub known : (target.ready ≡ true) ⊎ (is_empty kc.status.realm ≡ false)

module _ (env : Env) (keycloak : Option Client) (kc : KeycloakClient) (target : Target)
    (w : World) where
  -- What is written when a KeycloakClient is provisioned from this world: as the service account that
  -- the tenant names, an Opaque Secret with the tenant's label, whose entries are the credentials that
  -- `EnsureClient` gave in this world.
  abbrev pub HoldsCredentials : Call → Type 0
  HoldsCredentials (applied actor _ _ (ok child)) =
      (actor ≡ actor_of kc.spec.tenant)
      × (get_label tenant_label child.labels ≡ some kc.spec.tenant.tenant_id)
      × IsUsable kc target
      × (c : Client) × (keycloak ≡ some c)
      × (res : ClientResult) × (v : World) × (ensure_client env c target.realm (representation kc) w
          ≡ (ok res, v))
      × (entries : Labels) × (child.content ≡ credentials (bytes "Opaque") entries)
      × AreCredentials kc (issuer_url c target.realm) res.secret entries
  HoldsCredentials _ = Unit

  abbrev pub OldOrCredentials : (Call → Type 0) → Call → Type 0
  OldOrCredentials old call = old call ⊎ HoldsCredentials call

  OldOrCredentials-OnlyWrites : (old : Call → Type 0) → OnlyWrites (OldOrCredentials old)
  OldOrCredentials-OnlyWrites old = record {
    on_read = λ k n. inr tt;
    on_updated = λ o d. inr tt;
    on_status_updated = λ o d. inr tt;
    on_deleted = λ a k n d. inr tt;
    on_refused = λ a k n e. inr tt;
    on_connected = λ u d. inr tt;
    on_sent = λ r a. inr tt;
    on_emitted = λ k n t r m. inr tt;
  }

-- Provisioning from one world, where what `EnsureClient` gives there is known.
module _ (env : Env) (lawful : AppliesMutate env) (kc : KeycloakClient) (target : Target)
    (w : World) (old : Call → Type 0) (before : All old w.trace) where
  module _ (keycloak : Option Client) where
    abbrev Form : Call → Type 0
    Form = OldOrCredentials env keycloak kc target w old

    abbrev form-OnlyWrites : OnlyWrites Form
    form-OnlyWrites = OldOrCredentials-OnlyWrites env keycloak kc target w old
