-- ===== src/Tests/Converges.antt =====
-- A zone that an API server keeps until it is ready, and a realm that Keycloak deletes.
use inari_operator.Base.{◌≡◌, ◌⊎◌, refl, some, List, [], ◌∷◌, true, ==_refl, contains}
use inari_operator.Text.{Str, bytes, str_beq, str_eq}
use inari_operator.Api.{key_of}
use inari_operator.Api.Items.{DnsZone, KeycloakRealm, dns_zone, keycloak_realm}
use inari_operator.Cluster.Errors.{Error, ok, err}
use inari_operator.Cluster.Env.{Env, Trace, read, updated, status_updated, keycloak_realms}
use inari_operator.Cluster.Exec.{World, log, ◌>>◌}
use inari_operator.Cluster.Exec.Foreign.{ReturnsForeign}
use inari_operator.Common.{stop, finalizer}
use inari_operator.Keycloak.Admin.{delete_realm}
use inari_operator.Keycloak.Admin.Deletes.{IsConfirmed}
use inari_operator.Reconcile.Lifecycle.Laws.{after_release}
use inari_operator.Reconcile.Realm
use inari_operator.Reconcile.Realm.{realm_name, announce}
use inari_operator.Reconcile.Realm.Teardown.{gone, realm_reconcile-IsConfirmed}
use inari_operator.Reconcile.Zone.Converges.{IsStore, IsSettled, rounds, zone_converges}
use inari_operator.Tests.Sample.{
  sample_env, sample_meta-IsLawful, sample_zone, sample_metadata, sample_tenant, sample_client,
  start_world,
}

abbrev new_zone : DnsZone
new_zone = record sample_zone { metadata = record sample_zone.metadata { finalizers = [] } }

abbrev current : Trace → DnsZone
current [] = new_zone
current (updated (dns_zone z) (ok u) ∷ t) = record z { status = (current t).status }
current (status_updated (dns_zone z) (ok u) ∷ t) = record (current t) { status = z.status }
current (_ ∷ t) = current t

abbrev store_env : Env
store_env = record sample_env { get_dns_zone = λ t key. ok (current t) }

contains_added : (l : List Str) → contains (finalizer ∷ l) finalizer ≡ true
contains_added l = rw (==_refl finalizer) refl

current-IsStore : IsStore store_env (key_of new_zone) current
current-IsStore = record {
  found = λ t. refl;
  updates = λ t o. refl;
  updates_status = λ t o. refl;
  on_updated = λ t z. refl;
  on_status_updated = λ t z. refl;
  on_read = λ t k n. refl;
  on_emitted = λ t k n e r m. refl;
  adds = contains_added;
}

zone_converges_example :
    IsSettled store_env (key_of new_zone) current current-IsStore sample_meta-IsLawful (
      rounds store_env (key_of new_zone) current current-IsStore sample_meta-IsLawful 5 start_world)
zone_converges_example =
    zone_converges store_env (key_of new_zone) current current-IsStore sample_meta-IsLawful 3
      start_world refl

abbrev dying_realm : KeycloakRealm
dying_realm = record {
  metadata = record sample_metadata { deletion_timestamp = some 1 };
  spec = record { tenant = sample_tenant; realm = []; display_name = bytes "Acme"; enabled = true };
  status = record { conditions = []; observed_generation = 0; realm = []; issuer_url = [] };
}

abbrev dying_env : Env
dying_env = record sample_env { get_keycloak_realm = λ t key. ok dying_realm }

dying_env-ReturnsForeign : ReturnsForeign dying_env
dying_env-ReturnsForeign = record {
  parse_url = λ url. refl;
  send = λ t request. refl;
  decode_token = λ body. refl;
}

abbrev freed : KeycloakRealm
freed =
    gone dying_env dying_env-ReturnsForeign sample_client (key_of dying_realm) start_world
      dying_realm

realm_reconcile-IsConfirmed_example :
    ((e : Error) × (v : World) × (delete_realm dying_env sample_client
          (realm_name dying_realm)
          (log (read keycloak_realms (key_of dying_realm)) start_world)
        ≡ (err e, v))
      × (Realm.reconcile dying_env (some sample_client) (key_of dying_realm) start_world
          ≡ (err e, v)))
    ⊎ ((v : World) × IsConfirmed dying_env dying_env-ReturnsForeign sample_client
          (realm_name dying_realm)
          v
        × (let done = dying_env.update v.trace (keycloak_realm freed) in
            Realm.reconcile dying_env (some sample_client) (key_of dying_realm) start_world
            ≡ after_release done
                (announce dying_env (some sample_client) dying_realm >> stop)
                (log (updated (keycloak_realm freed) done) v)))
unfolding bytes str_beq
realm_reconcile-IsConfirmed_example =
    realm_reconcile-IsConfirmed dying_env dying_env-ReturnsForeign sample_client
      (key_of dying_realm) start_world dying_realm refl refl refl
