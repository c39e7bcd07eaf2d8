-- ===== src/Tests/System.antt =====
-- The process and the controllers that it runs, with a runtime that never fails and in the cluster of
-- Tests/Sample.antt.
use inari_operator.Base.{
  ◌≡◌, ◌⊎◌, refl, ap, sym, none, some, List, [], ◌∷◌, All, true, false, inr, map, ◌++◌, inl,
}
use inari_operator.Text.{Str, bytes, is_empty}
use inari_operator.Api.{Key, key_of}
use inari_operator.Cluster.Errors.{ok, err}
use inari_operator.Process.{Runtime, manager_started, logged_info}
use inari_operator.Process.Laws.{starts}
use inari_operator.Startup.{CommandLine, options_of, start_manager, main, env_or}
use inari_operator.Startup.Laws.{
  IsConfigured, settings_for, startup_events, kinds_for, set_up_kinds,
}
use inari_operator.Startup.Main.{main_cases, main_refused}
use inari_operator.Startup.Liveness.{Answers, main_starts}
use inari_operator.Reconcile.Status.Labels.{LabelsTenant}
use inari_operator.Scheme.{GroupVersion, ApiType, SchemeFunctions, init}
use inari_operator.Scheme.Registered.{IsRegistry, KnowsKind, init-KnowsKind}
use inari_operator.System.{
  Controller, Settings, run_all, dns_record_controller, argo_project_controller,
  cluster_dex_controller, keycloak_client_controller,
}
use inari_operator.System.Isolation.{OfTenants, run_all_labelled}
use inari_operator.Tests.Sample.{
  sample_env, sample_env-AppliesMutate, sample_client, sample_record, sample_project, sample_dex,
  sample_oidc, sample_issuer, sample_space, start_world,
}

abbrev runtime : Runtime
runtime = record {
  get_config = λ t. ok tt;
  new_manager = λ t o. ok tt;
  complete = λ t k. ok tt;
  add_healthz_check = λ t n. ok tt;
  add_readyz_check = λ t n. ok tt;
  start = λ t. ok tt;
}

runtime-Answers : Answers runtime
runtime-Answers = record {
  config = λ t. refl;
  manager = λ t o. refl;
  completes = λ t k. refl;
  healthz = λ t n. refl;
  readyz = λ t n. refl;
  starts = λ t. refl;
}

abbrev no_flags : CommandLine
no_flags = record {
  metrics_bind_address = none;
  health_probe_bind_address = none;
  leader_elect = none;
  keycloak_url = none;
  keycloak_token_realm = none;
  keycloak_client_id = none;
  keycloak_client_secret = none;
  argocd_namespace = none;
}

abbrev with_url : CommandLine
with_url = record no_flags { keycloak_url = some (bytes "https://sso.acme.io") }

abbrev with_secret : CommandLine
with_secret = record with_url { keycloak_client_secret = some (bytes "pw") }

abbrev no_variables : Str → Str
no_variables key = []

given : is_empty (options_of no_variables with_url).keycloak_url ≡ false
unfolding options_of bytes
given = refl

secret_missing : is_empty (options_of no_variables with_url).keycloak_client_secret ≡ true
unfolding options_of env_or bytes
secret_missing = refl

configured : IsConfigured (options_of no_variables with_secret)
unfolding options_of bytes
configured u = refl

main_starts_example : main runtime no_variables with_secret [] ≡ (
  some tt,
  manager_started (ok tt)
      ∷ logged_info (bytes "starting manager")
      ∷ startup_events (options_of no_variables with_secret),
)
main_starts_example = main_starts runtime runtime-Answers no_variables with_secret configured

main_refused_example :
    ((main runtime no_variables with_url []).0 ≡ none)
    × (set_up_kinds (main runtime no_variables with_url []).1 ≡ [])
main_refused_example = main_refused runtime no_variables with_url given secret_missing

main_cases_example :
    ((main runtime no_variables with_secret []).0 ≡ none)
      × (starts (main runtime no_variables with_secret []).1 ≡ [])
    ⊎ (IsConfigured (options_of no_variables with_secret)
        × (set_up_kinds (startup_events (options_of no_variables with_secret))
            ≡ kinds_for (options_of no_variables with_secret))
        × (main runtime no_variables with_secret []
            ≡ start_manager runtime
                (settings_for (options_of no_variables with_secret))
                (startup_events (options_of no_variables with_secret))))
main_cases_example = main_cases runtime no_variables with_secret

from_ok : {A : Type 0} (a b : A) → ok a ≡ ok b → b ≡ a
from_ok a b h = sym (ap (λ r. elim r [ ok x ↦ x | err e ↦ a ]) h)

abbrev IsAcme : Str → Type 0
IsAcme tenant = tenant ≡ bytes "acme"

all_of_tenant : OfTenants sample_env IsAcme
all_of_tenant = record {
  keycloak_clients = λ t key kc got. ap (λ x. x.spec.tenant.tenant_id) (from_ok sample_oidc kc got);
  dns_records = λ t key rec got. ap (λ x. x.spec.tenant.tenant_id) (from_ok sample_record rec got);
  cert_issuers = λ t key ci got. ap (λ x. x.spec.tenant.tenant_id) (from_ok sample_issuer ci got);
  argo_projects =
      λ t key project got. ap (λ x. x.spec.tenant.tenant_id) (from_ok sample_project project got);
  tenant_namespaces =
      λ t key tn got. ap (λ x. x.spec.tenant.tenant_id) (from_ok sample_space tn got);
  cluster_dexes = λ t key cr got. ap (λ x. x.spec.tenant.tenant_id) (from_ok sample_dex cr got);
}

abbrev settings : Settings
settings = record { keycloak = some sample_client; argocd_namespace = bytes "argocd" }

abbrev schedule : List (Controller × Key)
schedule =
    (dns_record_controller, key_of sample_record)
    ∷ (keycloak_client_controller, key_of sample_oidc)
    ∷ (argo_project_controller, key_of sample_project)
    ∷ (cluster_dex_controller, key_of sample_dex)
    ∷ (dns_record_controller, key_of sample_record)
    ∷ []

run_all_labelled_example :
    All (LabelsTenant IsAcme) (run_all sample_env settings schedule start_world).trace
run_all_labelled_example =
    run_all_labelled sample_env sample_env-AppliesMutate IsAcme all_of_tenant settings schedule
      start_world tt

-- A scheme as the list of the types that were added to it.
abbrev registry : SchemeFunctions (List (GroupVersion × ApiType))
registry = record {
  add_known_types = λ s gv ts. map (λ t. (gv, t)) ts ++ s;
  add_to_group_version = λ s gv. s;
  add_client_go = λ s. (ok tt, s);
}

abbrev IsListed : List (GroupVersion × ApiType) → GroupVersion → ApiType → Type 0
IsListed [] gv t = ⊥
IsListed (entry ∷ s) gv t = (entry ≡ (gv, t)) ⊎ IsListed s gv t

All-IsListed :
    (entry : GroupVersion × ApiType) (s : List (GroupVersion × ApiType)) (gv : GroupVersion)
    (ts : List ApiType)
    → All (IsListed s gv) ts
    → All (IsListed (entry ∷ s) gv) ts
All-IsListed entry s gv [] h = tt
All-IsListed entry s gv (t ∷ ts) (p, h) = (inr p, All-IsListed entry s gv ts h)

added-IsListed :
    (s : List (GroupVersion × ApiType)) (gv : GroupVersion) (ts : List ApiType)
    → All (IsListed (map (λ t. (gv, t)) ts ++ s) gv) ts
added-IsListed s gv [] = tt
added-IsListed s gv (t ∷ ts) =
    (inl refl, All-IsListed (gv, t) (map (λ t. (gv, t)) ts ++ s) gv ts (added-IsListed s gv ts))

registry-IsRegistry : IsRegistry registry IsListed
registry-IsRegistry = record { adds = added-IsListed; retains = λ s gv gv' t h. h }

init-KnowsKind_example :
    (last : List (GroupVersion × ApiType)) × (init registry [] ≡ some last)
    × All (KnowsKind registry IsListed last) (kinds_for (options_of no_variables with_secret))
init-KnowsKind_example =
    init-KnowsKind registry IsListed registry-IsRegistry [] [] refl
      (options_of no_variables with_secret)
