-- ===== src/Reconcile/Baseline/Writes.antt =====
-- What provisioning a ClusterDex writes to the cluster, and as whom.
use inari_operator.Common.Actors.{actor_of, impersonating_client-actor_of}
use inari_operator.Cluster.Exec.Emits.{
  Emits-bind_known, Emits-attempt, Emits, Emits-bind, Emits-wrapping,
}
use inari_operator.Cluster.Env.{Call, applied, Env, Actor, SecretData}
use inari_operator.Reconcile.Status.Writes.{Emits-impersonating_client, write_rules}
use inari_operator.Cluster.Calls.Writes.{OnlyWrites, Emits-create_or_update}
use inari_operator.Text.{Str}
use inari_operator.Reconcile.Baseline.{
  delete_children, provision, desired_child, apply_child, apply_all, waiting, give_up, report_ready,
  missing, after_secret, check_secret, after_apply, apply_rendered, with_config_maps,
  with_application, render_and_apply, require_oidc, require_config, enabled, disabled,
}
use inari_operator.Base.{◌≡◌, some, none, Option, List, [], ◌∷◌, All}
use inari_operator.Api.Items.{ClusterDex, SecretReference, SecretKeyReference}
use inari_operator.Cluster.Errors.{Error, Result, ok, err}
use inari_operator.Cluster.Children.{Child}
use inari_operator.Cluster.Children.Labelled.{AppliesMutate}
use inari_operator.Cluster.Exec.{Exec, World}
use inari_operator.Common.{ReconcileResult}

-- For a predicate that holds of each write of a child as the service account that the tenant names.
module _ (env : Env) (cr : ClusterDex) {P : Call → Type 0} (only : OnlyWrites P)
    (writes : (actor : Actor) (desired found left : Child)
      → actor ≡ actor_of cr.spec.tenant
      → desired_child cr desired found ≡ ok left
      → P (applied actor desired.kind desired.key (ok left))) where
  abbrev Good {ℓ} : {A : Type ℓ} → Exec A → Type ℓ
  Good m = Emits P m

  Emits-waiting : (m : Str) → Good (waiting env cr m)
  unfolding waiting
  Emits-waiting m = search (write_rules, only)

  Emits-give_up : (e : Error) → Good (give_up env cr e)
  unfolding give_up
  Emits-give_up e = search (write_rules, only)

  Emits-report_ready : (n m : Str) → Good (report_ready env cr n m)
  unfolding report_ready
  Emits-report_ready n m = search (write_rules, only)

  Emits-delete_children : Good (delete_children env cr)
  unfolding delete_children
  Emits-delete_children = search (write_rules, only)

  Emits-disabled : Good (disabled env cr)
  unfolding disabled
  Emits-disabled = search (write_rules, Emits-delete_children, Emits-report_ready)

  Emits-missing :
      (ref : SecretReference) (ns : Str) (next : Exec ReconcileResult) (o : Option Str)
      → Good next
      → Good (missing env cr ref ns next o)
  unfolding missing
  Emits-missing ref ns next none h = h
  Emits-missing ref ns next (some k) h = Emits-waiting _

  Emits-after_secret :
      (ref : SecretReference) (ns : Str) (keys : List Str) (hint : Str)
      (next : Exec ReconcileResult) (r : Result SecretData)
      → Good next
      → Good (after_secret env cr ref ns keys hint next r)
  unfolding after_secret
  Emits-after_secret ref ns keys hint next (ok found) h = Emits-missing ref ns next _ h
  Emits-after_secret ref ns keys hint next (err e) h = search (write_rules, Emits-waiting)

  Emits-check_secret :
      (ref : SecretReference) (keys : List Str) (hint : Str) (next : Exec ReconcileResult)
      → Good next
      → Good (check_secret env cr ref keys hint next)
  unfolding check_secret
  Emits-check_secret ref keys hint next h = search (write_rules, only, Emits-after_secret)

  Emits-after_apply : (app : Child) (r : Result (Unit {0})) → Good (after_apply env cr app r)
  unfolding after_apply
  Emits-after_apply app (ok u) = Emits-report_ready _ _
  Emits-after_apply app (err e) = Emits-give_up e

  module _ (lawful : AppliesMutate env) where
    Emits-apply_child :
        (actor : Actor) (desired : Child)
        → actor ≡ actor_of cr.spec.tenant
        → Good (apply_child env actor cr desired)
    unfolding apply_child
    Emits-apply_child actor desired by_actor = Emits-wrapping _ _ _ (
        Emits-create_or_update env only lawful actor desired (desired_child cr desired)
          (λ found left made. writes actor desired found left by_actor made))

    Emits-apply_all :
        (actor : Actor) (children : List Child)
        → actor ≡ actor_of cr.spec.tenant
        → Good (apply_all env actor cr children)
    unfolding apply_all
    Emits-apply_all actor [] by_actor = search write_rules
    Emits-apply_all actor (child ∷ rest) by_actor =
        Emits-bind _ _ _ (Emits-apply_child actor child by_actor)
          (λ _. Emits-apply_all actor rest by_actor)

    Emits-apply_rendered : (app cm rbac : Child) → Good (apply_rendered env cr app cm rbac)
    unfolding apply_rendered
    Emits-apply_rendered app cm rbac =
        Emits-bind_known _ _ _ (λ actor. actor ≡ actor_of cr.spec.tenant)
          (Emits-impersonating_client env only cr.spec.tenant)
          (λ w v actor. impersonating_client-actor_of env cr.spec.tenant w v actor)
          (λ actor by_actor.
            Emits-bind _ _ _
              (Emits-attempt _ _ (Emits-apply_all actor (app ∷ cm ∷ rbac ∷ []) by_actor))
              (Emits-after_apply app))

    Emits-with_config_maps :
        (app : Child) (r : Result (Child × Child)) → Good (with_config_maps env cr app r)
    unfolding with_config_maps
    Emits-with_config_maps app (ok (cm, rbac)) = Emits-apply_rendered app cm rbac
    Emits-with_config_maps app (err e) = Emits-give_up e

    Emits-with_application : (r : Result Child) → Good (with_application env cr r)
    unfolding with_application
    Emits-with_application (ok app) = Emits-with_config_maps app _
    Emits-with_application (err e) = Emits-give_up e

    Emits-require_oidc : (o : Option SecretKeyReference) → Good (require_oidc env cr o)
    unfolding require_oidc render_and_apply
    Emits-require_oidc none = Emits-waiting _
    Emits-require_oidc (some r) = Emits-with_application _

    Emits-require_config : (o : Option SecretReference) → Good (require_config env cr o)
    unfolding require_config
    Emits-require_config none = Emits-waiting _
    Emits-require_config (some ref) = Emits-check_secret ref _ _ _ (Emits-require_oidc _)

    Emits-enabled : Good (enabled env cr)
    unfolding enabled
    Emits-enabled = Emits-check_secret cr.spec.client_secret_ref _ _ _ (Emits-require_config _)

    pub Emits-provision : Good (provision env cr)
    unfolding provision
    Emits-provision = search (write_rules, Emits-enabled, Emits-disabled)

-- What is written is written as this actor.
abbrev pub WritesAs : Actor → Call → Type 0
WritesAs actor (applied a _ _ (ok child)) = a ≡ actor
WritesAs actor _ = Unit

pub WritesAs-OnlyWrites : (actor : Actor) → OnlyWrites (WritesAs actor)
WritesAs-OnlyWrites actor = record {
  on_read = λ k n. tt;
  on_updated = λ o d. tt;
  on_status_updated = λ o d. tt;
  on_deleted = λ a k n d. tt;
  on_refused = λ a k n e. tt;
  on_connected = λ u d. tt;
  on_sent = λ r a. tt;
  on_emitted = λ k n t r m. tt;
}

-- Where `CreateOrUpdate` leaves what the mutate function made: provisioning a ClusterDex writes its
-- children as the service account that the tenant names, in the tenant's namespace, or as the
-- operator where it names none, if each write before was so.
pub baseline_provision-WritesAs :
    (env : Env) (cr : ClusterDex)
    → AppliesMutate env
    → (w : World) → All (WritesAs (actor_of cr.spec.tenant)) w.trace
    → All (WritesAs (actor_of cr.spec.tenant)) (provision env cr w).1.trace
baseline_provision-WritesAs env cr lawful w =
    (Emits-provision env cr (WritesAs-OnlyWrites (actor_of cr.spec.tenant))
        (λ actor desired found left by_actor made. by_actor) lawful).all
      w
