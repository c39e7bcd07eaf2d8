-- ===== src/Keycloak/Admin/Laws.antt =====
-- Realms and clients: when a write happens, and that a repeated operation does nothing.
use inari_operator.Base.{
  ◌≡◌, ◌↔◌, refl, Bool, true, false, not, ◌&&◌, none, List, [], ◌∷◌, arith, nat_beq, ==_iff, length,
}
use inari_operator.Text.{Str, str_eq}
use inari_operator.Cluster.Errors.{ok}
use inari_operator.Cluster.Env.{Env, ClientRepresentation, RealmRepresentation, get}
use inari_operator.Cluster.Exec.{World, ◌>>=◌, attempt}
use inari_operator.Keycloak.Token.{Client}
use inari_operator.Keycloak.Transport.{request}
use inari_operator.Keycloak.Admin.{
  client_drifted, bool_beq, uris_differ, ensure_realm, realm_path, realm_output,
}

pub bool_beq_iff : (a b : Bool) → (bool_beq a b ≡ true) ↔ (a ≡ b)
unfolding bool_beq
bool_beq_iff true b = ground arith
bool_beq_iff false b = ground arith

-- The fields of a client that the operator manages.
pub record SameManaged (a b : ClientRepresentation) : Type 0 where
  pub public_client : a.public_client ≡ b.public_client
  pub service_accounts_enabled : a.service_accounts_enabled ≡ b.service_accounts_enabled
  pub standard_flow_enabled : a.standard_flow_enabled ≡ b.standard_flow_enabled
  pub redirect_uris : a.redirect_uris ≡ b.redirect_uris

uris_differ_iff :
    (xs ys : List Str)
    → ((nat_beq (length xs) (length ys) && not (uris_differ xs ys)) ≡ true) ↔ (xs ≡ ys)
unfolding uris_differ
uris_differ_iff [] [] = (λ _. refl, λ _. refl)
uris_differ_iff [] (y ∷ ys) = ground arith
uris_differ_iff (x ∷ xs) [] = ground arith
uris_differ_iff (x ∷ xs) (y ∷ ys) = ground (arith, ==_iff x y, uris_differ_iff xs ys)

-- A client has drifted exactly when it differs from the wanted one in a managed field.
pub client_drifted_iff :
    (existing rep : ClientRepresentation)
    → (client_drifted existing rep ≡ false) ↔ SameManaged existing rep
unfolding client_drifted
client_drifted_iff a b = ground (
  arith,
  bool_beq_iff a.public_client b.public_client,
  bool_beq_iff a.service_accounts_enabled b.service_accounts_enabled,
  bool_beq_iff a.standard_flow_enabled b.standard_flow_enabled,
  uris_differ_iff a.redirect_uris b.redirect_uris,
)

module _ (env : Env) (c : Client) (rep : RealmRepresentation) (w : World) where
  -- Where the request for a realm returns one that already has the display name and the state asked
  -- for, `EnsureRealm` succeeds with no further call and reports that it created nothing.
  pub ensure_realm_settled :
      (existing : RealmRepresentation) (v : World)
      → request env c get (realm_path rep.realm) none (realm_output env c) w ≡ (ok existing, v)
      → existing.display_name ≡ rep.display_name
      → existing.enabled ≡ rep.enabled
      → ensure_realm env c rep w ≡ (ok false, v)
  unfolding ensure_realm ◌>>=◌ attempt
  ensure_realm_settled existing v found name state = rw (
    found,
    name,
    state,
    (==_iff rep.display_name rep.display_name).1 refl,
    (bool_beq_iff rep.enabled rep.enabled).1 refl,
  )
