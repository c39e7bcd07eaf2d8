-- ===== src/Reconcile/Baseline/Secrecy.antt =====
-- What a ClusterDex reads of the Secrets that it refers to: which keys they hold.
use inari_operator.Base.{
  ◌≡◌, refl, ap, ◌∙◌, fun_ext, Option, none, some, List, [], ◌∷◌, inl, inr, ◌==◌, Bool-cases, ◌⊎◌,
}
use inari_operator.Text.{Str, str_eq}
use inari_operator.Api.{Key}
use inari_operator.Api.Items.{
  ClusterDex, SecretReference, SecretKeyReference, ClusterDexSpec, ClusterDexStatus,
}
use inari_operator.Cluster.Errors.{Result, ok, err}
use inari_operator.Cluster.Children.{get_label, Labels}
use inari_operator.Cluster.Env.{Env, SecretData, secrets, read}
use inari_operator.Cluster.Exec.{Exec, log, ◌>>=◌, attempt}
use inari_operator.Reconcile.Lifecycle
use inari_operator.Common.{ReconcileResult, impersonating_client, finalize, ensure_finalizer}
use inari_operator.Reconcile.Baseline.{
  missing_key, after_secret, check_secret, provision, reconcile, render_and_apply, require_oidc,
  require_config, enabled, missing, apply_child, report_ready, delete_children, waiting, config_ref,
  disabled, oidc_ref, secret_ref_namespace, Handler, handler,
}
use inari_operator.Reconcile.Status.{try_status, save_status, delete_if_present}
use inari_operator.Dex.Render.{render_argocd_config_maps, render_dex_application}
use inari_operator.Cluster.Calls.{
  connect, create_or_update, update_status, delete_child, event, update,
}
use inari_operator.Dex.Settings.{secret_ref_namespace}
use inari_operator.Reconcile.Lifecycle.{Handler}

-- The same keys, with other values.
abbrev pub redact : (Str → Str) → Labels → Labels
redact f [] = []
redact f ((k, v) ∷ m) = (k, f v) ∷ redact f m

abbrev pub redact_result : (Str → Str) → Result SecretData → Result SecretData
redact_result f (ok found) = ok (record { entries = redact f found.entries })
redact_result f (err e) = err e

-- The cluster with other secret values.
abbrev pub redacted : (Str → Str) → Env → Env
redacted f env = record env { get_secret = λ t key. redact_result f (env.get_secret t key) }

get_label-redact :
    (f : Str → Str) (k : Str) (m : Labels)
    → (get_label k m ≡ none) × (get_label k (redact f m) ≡ none)
      ⊎ (v : Str) × (get_label k m ≡ some v) × (get_label k (redact f m) ≡ some (f v))
unfolding get_label
get_label-redact f k [] = inl (refl, refl)
get_label-redact f k ((j, v) ∷ m) = elim (Bool-cases (j == k)) [
  | inl same ↦ inr (v, rw same, rw same)
  | inr other ↦ rw other (get_label-redact f k m)
]

missing_key-redact :
    (f : Str → Str) (found : SecretData) (keys : List Str)
    → missing_key (record { entries = redact f found.entries }) keys ≡ missing_key found keys
unfolding missing_key
missing_key-redact f found [] = refl
missing_key-redact f found (k ∷ keys) = elim (get_label-redact f k found.entries) [
  | inl (absent, absent') ↦ rw (missing_key, absent, absent') refl
  | inr (v, present, present') ↦
      rw (missing_key, present, present') (missing_key-redact f found keys)
]

module _ (env : Env) (f : Str → Str) (cr : ClusterDex) where
  render_and_apply-redacted : render_and_apply (redacted f env) cr ≡ render_and_apply env cr
  unfolding render_and_apply impersonating_client apply_child report_ready try_status
      render_argocd_config_maps render_dex_application connect create_or_update save_status
      update_status
  render_and_apply-redacted = refl

  disabled-redacted : disabled (redacted f env) cr ≡ disabled env cr
  unfolding disabled delete_children report_ready impersonating_client delete_if_present save_status
      connect delete_child update_status
  disabled-redacted = refl

  missing-redacted :
      (ref : SecretReference) (ns : Str) (next : Exec ReconcileResult) (o : Option Str)
      → missing (redacted f env) cr ref ns next o ≡ missing env cr ref ns next o
  unfolding missing waiting try_status update_status
  missing-redacted ref ns next none = refl
  missing-redacted ref ns next (some k) = refl

  after_secret-redacted :
      (ref : SecretReference) (ns : Str) (keys : List Str) (hint : Str)
      (next : Exec ReconcileResult) (r : Result SecretData)
      → after_secret (redacted f env) cr ref ns keys hint next (redact_result f r)
        ≡ after_secret env cr ref ns keys hint next r
  unfolding after_secret waiting try_status update_status
  after_secret-redacted ref ns keys hint next (ok found) =
      rw (missing_key-redact f found keys) (missing-redacted ref ns next (missing_key found keys))
  after_secret-redacted ref ns keys hint next (err e) = refl

  abbrev secret_at : SecretReference → Key
  secret_at ref = record { namespace = secret_ref_namespace cr ref; name = ref.name }

  check_secret-redacted :
      (ref : SecretReference) (keys : List Str) (hint : Str) (next next' : Exec ReconcileResult)
      → next' ≡ next
      → check_secret (redacted f env) cr ref keys hint next'
        ≡ check_secret env cr ref keys hint next
  unfolding check_secret ◌>>=◌ attempt
  check_secret-redacted ref keys hint next next' same = rw same (
      fun_ext (λ w.
        ap (λ m. m (log (read secrets (secret_at ref)) w))
          (after_secret-redacted ref (secret_ref_namespace cr ref) keys hint next
            (env.get_secret w.trace (secret_at ref)))))

  require_oidc-redacted :
      (o : Option SecretKeyReference) → require_oidc (redacted f env) cr o ≡ require_oidc env cr o
  unfolding require_oidc waiting try_status update_status
  require_oidc-redacted none = refl
  require_oidc-redacted (some r) = render_and_apply-redacted

  require_config-redacted :
      (o : Option SecretReference) → require_config (redacted f env) cr o ≡ require_config env cr o
  unfolding require_config waiting try_status update_status
  require_config-redacted none = refl
  require_config-redacted (some ref) =
      check_secret-redacted ref _ _ _ _ (require_oidc-redacted (oidc_ref env cr))

  enabled-redacted : enabled (redacted f env) cr ≡ enabled env cr
  unfolding enabled
  enabled-redacted =
      check_secret-redacted cr.spec.client_secret_ref _ _ _ _
        (require_config-redacted (config_ref env cr))

  provision-redacted : provision (redacted f env) cr ≡ provision env cr
  unfolding provision
  provision-redacted = rw (enabled-redacted, disabled-redacted)

module _ (env : Env) (f : Str → Str) where
  abbrev providing :
      (ClusterDex → Exec ReconcileResult) → Handler ClusterDexSpec ClusterDexStatus (Unit {0})
  providing work = record (handler env) { provision = λ cr _. work cr }

  handler-redacted : handler (redacted f env) ≡ handler env
  unfolding handler delete_children event impersonating_client delete_if_present connect
      delete_child
  handler-redacted = ap providing (fun_ext (provision-redacted env f))

  lifecycle_redacted :
      (h : Handler ClusterDexSpec ClusterDexStatus (Unit {0}))
      → Lifecycle.reconcile (redacted f env) h ≡ Lifecycle.reconcile env h
  unfolding Lifecycle.reconcile finalize ensure_finalizer update
  lifecycle_redacted h = refl

  -- Replacing every value of every Secret by its image under a function, keys kept, changes nothing
  -- that the ClusterDex reconciler does: its calls, with the objects and texts in them, and its
  -- results are the same.
  pub baseline_reconcile-redacted : (key : Key) → reconcile (redacted f env) key ≡ reconcile env key
  unfolding reconcile
  baseline_reconcile-redacted key =
      ap (λ m. m key) (lifecycle_redacted (handler (redacted f env)))
      ∙ ap (λ h. Lifecycle.reconcile env h key) handler-redacted
