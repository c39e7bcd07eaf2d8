-- ===== src/Keycloak/Admin/Writes.antt =====
-- The operations on realms and clients write nothing to the cluster.
use inari_operator.Cluster.Errors.{Result, ok, err}
use inari_operator.Cluster.Env.{RealmRepresentation, Env, Call, ClientRepresentation}
use inari_operator.Base.{Option, none, some}
use inari_operator.Text.{Str}
use inari_operator.Cluster.Exec.Emits.{Emits}
use inari_operator.Keycloak.Admin.{
  ensure_client, find_client, settle_client, created_client, secret_for, get_client_secret,
  after_delete_realm, after_get_realm, delete_client, delete_realm, ensure_realm, remove_found,
  update_realm, create_realm,
}
use inari_operator.Cluster.Calls.Writes.{OnlyWrites, call_rules}
use inari_operator.Keycloak.Token.{Client}
use inari_operator.Keycloak.Transport.Writes.{Emits-request}

module _ (env : Env) (c : Client) {P : Call → Type 0} (only : OnlyWrites P) where
  Emits-find_client : (realm id : Str) → Emits P (find_client env c realm id)
  unfolding find_client
  Emits-find_client realm id = search (call_rules, Emits-request env c only)

  Emits-created_client :
      (rep : ClientRepresentation) (o : Option ClientRepresentation)
      → Emits P (created_client env c rep o)
  unfolding created_client
  Emits-created_client rep none = search call_rules
  Emits-created_client rep (some e) = search call_rules

  Emits-settle_client :
      (realm : Str) (rep : ClientRepresentation) (o : Option ClientRepresentation)
      → Emits P (settle_client env c realm rep o)
  unfolding settle_client
  Emits-settle_client realm rep none =
      search (call_rules, Emits-request env c only, Emits-find_client, Emits-created_client)
  Emits-settle_client realm rep (some e) = search (call_rules, Emits-request env c only)

  Emits-secret_for :
      (realm : Str) (rep : ClientRepresentation) (id : Str)
      → Emits P (secret_for env c realm rep id)
  unfolding secret_for get_client_secret
  Emits-secret_for realm rep id = search (call_rules, Emits-request env c only)

  pub Emits-ensure_client :
      (realm : Str) (rep : ClientRepresentation) → Emits P (ensure_client env c realm rep)
  unfolding ensure_client
  Emits-ensure_client realm rep =
      search (call_rules, Emits-find_client, Emits-settle_client, Emits-secret_for)

  Emits-after_get_realm :
      (rep : RealmRepresentation) (found : Result RealmRepresentation)
      → Emits P (after_get_realm env c rep found)
  unfolding after_get_realm update_realm create_realm
  Emits-after_get_realm rep (ok existing) = search (call_rules, Emits-request env c only)
  Emits-after_get_realm rep (err e) = search (call_rules, Emits-request env c only)

  pub Emits-ensure_realm : (rep : RealmRepresentation) → Emits P (ensure_realm env c rep)
  unfolding ensure_realm
  Emits-ensure_realm rep = search (call_rules, Emits-request env c only, Emits-after_get_realm)

  Emits-after_delete_realm :
      (realm : Str) (done : Result (Unit {0})) → Emits P (after_delete_realm env c realm done)
  unfolding after_delete_realm
  Emits-after_delete_realm realm (ok u) = search call_rules
  Emits-after_delete_realm realm (err e) = search call_rules

  pub Emits-delete_realm : (realm : Str) → Emits P (delete_realm env c realm)
  unfolding delete_realm
  Emits-delete_realm realm = search (call_rules, Emits-request env c only, Emits-after_delete_realm)

  Emits-remove_found :
      (realm id : Str) (o : Option ClientRepresentation) → Emits P (remove_found env c realm id o)
  unfolding remove_found
  Emits-remove_found realm id none = search call_rules
  Emits-remove_found realm id (some e) = search (call_rules, Emits-request env c only)

  pub Emits-delete_client : (realm id : Str) → Emits P (delete_client env c realm id)
  unfolding delete_client
  Emits-delete_client realm id = search (call_rules, Emits-find_client, Emits-remove_found)
