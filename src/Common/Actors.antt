-- ===== src/Common/Actors.antt =====
-- Whom a tenant's objects are written as.
use inari_operator.Base.{◌≡◌, ◌++◌, Bool-cases, inl, inr, if◌then◌else◌, arith}
use inari_operator.Text.{bytes, is_empty}
use inari_operator.Api.{TenantReference}
use inari_operator.Cluster.Errors.{ok}
use inari_operator.Cluster.Env.{Env, Actor, operator, impersonated}
use inari_operator.Cluster.Exec.{World, ◌>>=◌}
use inari_operator.Cluster.Calls.{connect}
use inari_operator.Common.{impersonating_client}

-- The service account that the tenant names, in its namespace, or else the operator.
abbrev pub actor_of : TenantReference → Actor
actor_of tenant =
    if is_empty tenant.impersonate_service_account
    then operator
    else impersonated (
        bytes "system:serviceaccount:"
        ++ tenant.namespace
        ++ bytes ":"
        ++ tenant.impersonate_service_account)

pub impersonating_client-actor_of :
    (env : Env) (tenant : TenantReference) (w v : World) (actor : Actor)
    → impersonating_client env tenant w ≡ (ok actor, v)
    → actor ≡ actor_of tenant
unfolding impersonating_client connect ◌>>=◌
impersonating_client-actor_of env tenant w v actor h =
    elim (Bool-cases (is_empty tenant.impersonate_service_account)) [
      | inl absent ↦ ground (arith, absent, h)
      | inr named ↦ ground (arith, named, h)
    ]
