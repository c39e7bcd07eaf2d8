-- ===== src/Common.antt =====
-- internal/controller/common.go: finalizers, impersonation and what the reconcilers share.
pub mod Actors
use inari_operator.Base.{ℕ, Bool, true, false, List, ◌++◌, if◌then◌else◌}
use inari_operator.Text.{Str, bytes, is_empty}
use inari_operator.Text.Format.{quote}
use inari_operator.Api.{Resource, TenantReference}
use inari_operator.Api.Items.{Object}
use inari_operator.Cluster.Errors.{Error, err, ignore_not_found}
use inari_operator.Cluster.Env.{Env, Actor, operator, impersonated}
use inari_operator.Cluster.Exec.{Exec, pure, wrapping, lift, ◌>>◌}
use inari_operator.Cluster.Calls.{update, connect}

-- `Finalizer` and `tenantLabel`.
abbrev pub finalizer : Str
finalizer = bytes "platform.inari.io/finalizer"

abbrev pub tenant_label : Str
tenant_label = bytes "platform.inari.io/tenant"

-- `ctrl.Result`: `RequeueAfter` in seconds, zero if it is not set.
pub record ReconcileResult : Type 0 where
  pub requeue_after : ℕ

abbrev pub no_requeue : ReconcileResult
no_requeue = record { requeue_after = 0 }

abbrev pub requeue_in : ℕ → ReconcileResult
requeue_in seconds = record { requeue_after = seconds }

-- `return ctrl.Result{}, nil`.
abbrev pub stop : Exec ReconcileResult
stop = pure no_requeue

-- `return ctrl.Result{}, client.IgnoreNotFound(err)`.
abbrev pub stop_unless : Error → Exec ReconcileResult
stop_unless e = lift (ignore_not_found (err e)) >> stop

module _ (env : Env) where
  open env.finalizer_list use {contains_finalizer, add_finalizer, remove_finalizer}

  module _ {S T : Type 0} (wrap_object : Resource S T → Object) where
    abbrev pub has_finalizer : Resource S T → Bool
    has_finalizer obj = contains_finalizer obj.metadata.finalizers finalizer

    abbrev pub with_finalizers : Resource S T → List Str → Resource S T
    with_finalizers obj list = record obj { metadata = record obj.metadata { finalizers = list } }

    -- `ensureFinalizer`.
    unfoldable pub ensure_finalizer : Resource S T → Exec Bool
    ensure_finalizer obj = if has_finalizer obj then pure false else do
      wrapping (bytes "add finalizer: ") (
          update env
            (wrap_object (with_finalizers obj (add_finalizer obj.metadata.finalizers finalizer))))
      pure true

    -- `finalize`; a nil cleanup is `pure tt`.
    unfoldable pub finalize : Resource S T → Exec (Unit {0}) → Exec Bool
    finalize obj cleanup =
        if has_finalizer obj
        then (do
          cleanup
          wrapping (bytes "remove finalizer: ") (
              update env (
                wrap_object
                  (with_finalizers obj (remove_finalizer obj.metadata.finalizers finalizer))))
          pure true)
        else pure false

  -- `impersonatingClient`: the actor of the writes.
  unfoldable pub impersonating_client : TenantReference → Exec Actor
  impersonating_client tenant =
      let user =
        bytes "system:serviceaccount:"
        ++ tenant.namespace
        ++ bytes ":"
        ++ tenant.impersonate_service_account in
      if is_empty tenant.impersonate_service_account then pure operator else do
        wrapping
            (bytes "build impersonating client for tenant " ++ quote tenant.tenant_id ++ bytes ": ")
            (connect env user)
        pure (impersonated user)
