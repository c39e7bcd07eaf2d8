-- ===== src/Reconcile/TenantSpace.antt =====
-- internal/controller/tenantnamespace_controller.go
pub mod Labels
pub mod Quota
use inari_operator.Process.{Runtime, Process, set_up_for}
use inari_operator.Cluster.Errors.{Done, Error, Result, ok, err, wrapped, error_text, wrap}
use inari_operator.Base.{
  ℤ, pos, negsuc, ℕ, zero, suc, Bool, true, false, Option, none, some, List, [], ◌∷◌, ◌++◌,
  if◌then◌else◌, String,
}
use inari_operator.Text.{Str, bytes, is_empty}
use inari_operator.Text.Format.{quote, decimal}
use inari_operator.Api.{Key, Condition, key_of}
use inari_operator.Api.Conditions.{set_ready, set_failed, reason_ready}
use inari_operator.Api.Items.{
  TenantNamespace, TenantNamespaceSpec, TenantNamespaceStatus, TenantResourceQuota,
  tenant_namespace,
}
use inari_operator.Cluster.Children.{
  Child, ChildKind, Subject, namespace, role_binding, network_policy, resource_quota, binding,
  policy, quota, named, with_label,
}
use inari_operator.Cluster.Env.{Env, operator, tenant_namespaces, normal, warning}
use inari_operator.Cluster.Exec.{Exec, pure, raise, attempt, wrapping, ◌>>=◌, ◌>>◌}
use inari_operator.Cluster.Calls.{event, create_or_update}
use inari_operator.Common.{ReconcileResult, stop, tenant_label}
use inari_operator.Reconcile.Lifecycle.{Handler}
use inari_operator.Reconcile.Lifecycle
use inari_operator.Reconcile.Status.{try_status, save_status, delete_if_present}

abbrev with_conditions : TenantNamespace → List Condition → TenantNamespace
with_conditions tn cs = record tn { status = record tn.status { conditions = cs } }

abbrev pub labelled : TenantNamespace → Child → Child
labelled tn child = with_label tenant_label tn.spec.tenant.tenant_id child

-- The Namespace is cluster-scoped; the other children stand in it.
abbrev pub namespace_key : TenantNamespace → Key
namespace_key tn = record { namespace = []; name = tn.spec.tenant.namespace }

abbrev pub inner_key : TenantNamespace → Str → Key
inner_key tn name = record { namespace = tn.spec.tenant.namespace; name = name }

-- `subjects`.
unfoldable pub subjects : TenantNamespace → List Subject
subjects tn =
    (if is_empty tn.spec.admin_group
      then []
      else record {
        kind = bytes "Group";
        api_group = bytes "rbac.authorization.k8s.io";
        name = tn.spec.admin_group;
        namespace = [];
      }
        ∷ [])
    ++ (if is_empty tn.spec.tenant.impersonate_service_account
        then []
        else record {
          kind = bytes "ServiceAccount";
          api_group = [];
          name = tn.spec.tenant.impersonate_service_account;
          namespace = tn.spec.tenant.namespace;
        }
          ∷ [])

-- The mutate functions of the Namespace, the RoleBinding and the NetworkPolicy.
pub namespace_child : TenantNamespace → Child → Result Child
namespace_child tn child = ok (labelled tn child)

pub binding_child : TenantNamespace → Child → Result Child
binding_child tn child =
    ok (record (labelled tn child) { content = binding (bytes "admin") (subjects tn) })

pub policy_child : TenantNamespace → Child → Result Child
policy_child tn child =
    ok (record (labelled tn child) { content = policy (bytes "Ingress" ∷ bytes "Egress" ∷ []) })

-- `hard` is a map with at most these five keys.
abbrev Hard : Type 0
Hard = List (Str × Str)

both_limits : String → Str → Hard
both_limits resource q =
    (bytes "requests." ++ bytes resource, q) ∷ (bytes "limits." ++ bytes resource, q) ∷ []

add_limits : String → Hard → Result Str → Result Hard
add_limits resource hard (err e) = err e
add_limits resource hard (ok q) = ok (hard ++ both_limits resource q)

module _ (env : Env) where
  -- One of the two quantities: an empty text sets nothing.
  with_quantity : String → Str → Hard → Result Hard
  unfolding add_limits both_limits
  with_quantity resource q hard =
      if is_empty q
      then ok hard
      else add_limits resource hard (
          wrap
            (bytes "invalid resourceQuota." ++ bytes resource ++ bytes " " ++ quote q ++ bytes ": ")
            (env.parse_quantity q))

  with_pods : ℤ → Result Hard → Result Hard
  with_pods pods (err e) = err e
  with_pods (pos zero) (ok hard) = ok hard
  with_pods (negsuc n) (ok hard) = ok hard
  with_pods (pos (suc n)) (ok hard) = ok (hard ++ ((bytes "pods", decimal (suc n)) ∷ []))

  with_memory : Str → Result Hard → Result Hard
  unfolding with_quantity
  with_memory q (err e) = err e
  with_memory q (ok hard) = with_quantity "memory" q hard

  unfoldable pub hard_limits : TenantResourceQuota → Result Hard
  unfolding with_pods with_memory
  hard_limits q = with_pods q.pods (with_memory q.memory (with_quantity "cpu" q.cpu []))

  put_hard : TenantNamespace → Child → Result Hard → Result Child
  put_hard tn child (err e) = err e
  put_hard tn child (ok hard) = ok (record (labelled tn child) { content = quota hard })

  -- The mutate function of the ResourceQuota.
  unfoldable pub quota_child : TenantNamespace → TenantResourceQuota → Child → Result Child
  unfolding put_hard
  quota_child tn q child = put_hard tn child (hard_limits q)

  -- `reconcileRBAC`.
  unfoldable pub reconcile_rbac : TenantNamespace → Exec Child
  unfolding binding_child
  reconcile_rbac tn = wrapping (bytes "reconcile tenant-admin RoleBinding: ") (
      create_or_update env operator (named role_binding (inner_key tn (bytes "tenant-admin")))
        (binding_child tn))

  -- `reconcileNetworkPolicy`.
  unfoldable pub reconcile_network_policy : TenantNamespace → Exec Child
  unfolding policy_child
  reconcile_network_policy tn = wrapping (bytes "reconcile default-deny NetworkPolicy: ") (
      create_or_update env operator
        (named network_policy (inner_key tn (bytes "tenant-default-deny"))) (policy_child tn))

  write_quota : TenantNamespace → Option TenantResourceQuota → Exec (Unit {0})
  write_quota tn none =
      delete_if_present env operator resource_quota (inner_key tn (bytes "tenant-quota"))
  write_quota tn (some q) =
      wrapping (bytes "reconcile ResourceQuota: ") (
        create_or_update env operator (named resource_quota (inner_key tn (bytes "tenant-quota")))
          (quota_child tn q))
      >> pure tt

  -- `reconcileQuota`.
  unfoldable pub reconcile_quota : TenantNamespace → Exec (Unit {0})
  unfolding write_quota
  reconcile_quota tn = write_quota tn tn.spec.resource_quota

  -- The four steps up to the first error.
  unfoldable pub materialize : TenantNamespace → Exec (Unit {0})
  unfolding namespace_child
  materialize tn = do
    create_or_update env operator (named namespace (namespace_key tn)) (namespace_child tn)
    reconcile_rbac tn
    reconcile_network_policy tn
    reconcile_quota tn

  pub failed : TenantNamespace → Str → TenantNamespace
  failed tn message =
      with_conditions tn (set_failed env.meta tn.status.conditions tn.metadata.generation message)

  pub materialized : TenantNamespace → TenantNamespace
  materialized tn = record tn {
    status = record {
      conditions =
          set_ready env.meta tn.status.conditions tn.metadata.generation reason_ready
            (bytes "namespace " ++ quote tn.spec.tenant.namespace ++ bytes " materialized");
      observed_generation = tn.metadata.generation;
      namespace = tn.spec.tenant.namespace;
    };
  }

  -- `fail`, and the end of `Reconcile`.
  after_materialize : TenantNamespace → Result (Unit {0}) → Exec ReconcileResult
  unfolding failed materialized
  after_materialize tn (err e) = do
    try_status env (tenant_namespace (failed tn (error_text e)))
    event env tenant_namespaces (key_of tn) warning (bytes "ReconcileError") (error_text e)
    raise e
  after_materialize tn (ok u) = save_status env (tenant_namespace (materialized tn)) (do
    event env tenant_namespaces (key_of tn) normal (bytes "Materialized") (
        bytes "namespace "
        ++ quote tn.spec.tenant.namespace
        ++ bytes " with RBAC bootstrap materialized for tenant "
        ++ quote tn.spec.tenant.tenant_id)
    stop)

  unfoldable pub provision : TenantNamespace → Exec ReconcileResult
  unfolding after_materialize
  provision tn = do done ← attempt (materialize tn); after_materialize tn done

  announce : TenantNamespace → Exec (Unit {0})
  announce tn = event env tenant_namespaces (key_of tn) normal (bytes "Deleted") (
      bytes "namespace "
      ++ quote tn.spec.tenant.namespace
      ++ bytes " deleted for tenant "
      ++ quote tn.spec.tenant.tenant_id)

  unfoldable pub handler : Handler TenantNamespaceSpec TenantNamespaceStatus (Unit {0})
  unfolding announce provision
  handler = record {
    kind = tenant_namespaces;
    get = env.get_tenant_namespace;
    wrap_object = tenant_namespace;
    prepare = λ tn. pure tt;
    cleanup = λ tn _. delete_if_present env operator namespace (namespace_key tn);
    announce = λ tn _. announce tn;
    provision = λ tn _. provision tn;
  }

  -- `TenantNamespaceReconciler.Reconcile`.
  unfoldable pub reconcile : Key → Exec ReconcileResult
  unfolding handler
  reconcile = Lifecycle.reconcile env handler

-- `SetupWithManager`.
unfoldable pub set_up_with_manager : Runtime → Process Done
set_up_with_manager rt = set_up_for rt tenant_namespaces
