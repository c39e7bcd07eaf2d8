-- ===== src/Reconcile/Issuer.antt =====
-- internal/controller/certissuer_controller.go
pub mod Labels
pub mod Exclusive
pub mod Names
use inari_operator.Process.{Runtime, Process, set_up_for}
use inari_operator.Cluster.Errors.{Done, Error, Result, ok, err, failure, error_text}
use inari_operator.Base.{ℕ, Option, none, some, List, [], ◌∷◌, ◌++◌}
use inari_operator.Text.{Str, bytes}
use inari_operator.Text.Format.{quote}
use inari_operator.Names.{tenant_child_name}
use inari_operator.Api.{Key, Condition, key_of}
use inari_operator.Api.Conditions.{set_ready, set_failed, reason_ready}
use inari_operator.Api.Items.{
  CertIssuer, CertIssuerSpec, CertIssuerStatus, AcmeIssuerSpec, CaIssuerSpec, cert_issuer,
}
use inari_operator.Cluster.Children.{
  Child, Value, text, object_of, list_of, spec, cluster_issuer, named, with_label,
}
use inari_operator.Cluster.Env.{Env, operator, cert_issuers, normal, warning}
use inari_operator.Cluster.Exec.{Exec, pure, attempt, ◌>>=◌, ◌>>◌}
use inari_operator.Cluster.Calls.{event, create_or_update}
use inari_operator.Common.{ReconcileResult, stop, tenant_label}
use inari_operator.Reconcile.Lifecycle.{Handler}
use inari_operator.Reconcile.Lifecycle
use inari_operator.Reconcile.Status.{try_status, save_status, delete_if_present}

abbrev with_conditions : CertIssuer → List Condition → CertIssuer
with_conditions ci cs = record ci { status = record ci.status { conditions = cs } }

module _ (env : Env) where
  -- `clusterIssuerName`.
  unfoldable pub cluster_issuer_name : CertIssuer → Str
  cluster_issuer_name cr =
      tenant_child_name env.sum256
        (bytes "tenant" ∷ cr.spec.tenant.tenant_id ∷ cr.metadata.name ∷ [])

  -- Cluster-scoped: no namespace.
  abbrev pub child_key : CertIssuer → Key
  child_key cr = record { namespace = []; name = cluster_issuer_name cr }

  pub acme_value : CertIssuer → AcmeIssuerSpec → Value
  acme_value cr acme = object_of (
      (
        "acme",
        object_of (
            ("server", text acme.server)
            ∷ ("email", text acme.email)
            ∷ (
              "privateKeySecretRef",
              object_of (("name", text (cluster_issuer_name cr ++ bytes "-account-key")) ∷ []),
            )
            ∷ (
              "solvers",
              list_of (
                  object_of (
                    (
                      "http01",
                      object_of (
                          (
                            "ingress",
                            object_of (("ingressClassName", text acme.ingress_class) ∷ []),
                          )
                          ∷ []),
                    )
                    ∷ [])
                  ∷ []),
            )
            ∷ []),
      )
      ∷ [])

  pub ca_value : CaIssuerSpec → Value
  ca_value ca = object_of (("ca", object_of (("secretName", text ca.secret_name) ∷ [])) ∷ [])

  spec_of : CertIssuer → Option AcmeIssuerSpec → Option CaIssuerSpec → Result Value
  spec_of cr (some acme) (some ca) =
      err (failure (bytes "spec.acme and spec.ca are mutually exclusive"))
  spec_of cr (some acme) none = ok (acme_value cr acme)
  spec_of cr none (some ca) = ok (ca_value ca)
  spec_of cr none none = err (failure (bytes "one of spec.acme or spec.ca is required"))

  -- `buildClusterIssuerSpec`.
  unfoldable pub build_cluster_issuer_spec : CertIssuer → Result Value
  unfolding spec_of
  build_cluster_issuer_spec cr = spec_of cr cr.spec.acme cr.spec.ca

  put_spec : CertIssuer → Child → Result Value → Result Child
  put_spec cr child (err e) = err e
  put_spec cr child (ok v) =
      ok (record (with_label tenant_label cr.spec.tenant.tenant_id child) { content = spec v })

  -- The mutate function of the ClusterIssuer.
  unfoldable pub issuer_child : CertIssuer → Child → Result Child
  unfolding put_spec
  issuer_child cr child = put_spec cr child (build_cluster_issuer_spec cr)

  pub failed : CertIssuer → Str → CertIssuer
  failed ci message =
      with_conditions ci (set_failed env.meta ci.status.conditions ci.metadata.generation message)

  pub rendered : CertIssuer → CertIssuer
  rendered ci = record ci {
    status = record {
      conditions =
          set_ready env.meta ci.status.conditions ci.metadata.generation reason_ready
            (bytes "ClusterIssuer " ++ quote (cluster_issuer_name ci) ++ bytes " rendered");
      observed_generation = ci.metadata.generation;
      cluster_issuer_name = cluster_issuer_name ci;
    };
  }

  after_write : CertIssuer → Result Child → Exec ReconcileResult
  unfolding failed rendered
  after_write ci (err e) = do
    try_status env (cert_issuer (failed ci (error_text e)))
    event env cert_issuers (key_of ci) warning (bytes "ReconcileError") (error_text e)
    stop
  after_write ci (ok _) = save_status env (cert_issuer (rendered ci)) (do
    event env cert_issuers (key_of ci) normal (bytes "Rendered") (
        bytes "ClusterIssuer "
        ++ quote (cluster_issuer_name ci)
        ++ bytes " rendered for tenant "
        ++ quote ci.spec.tenant.tenant_id)
    stop)

  unfoldable pub provision : CertIssuer → Exec ReconcileResult
  unfolding after_write
  provision ci = do
    written ←
        attempt
          (create_or_update env operator (named cluster_issuer (child_key ci)) (issuer_child ci))
    after_write ci written

  announce : CertIssuer → Exec (Unit {0})
  announce ci = event env cert_issuers (key_of ci) normal (bytes "Deleted") (
      bytes "ClusterIssuer "
      ++ quote (cluster_issuer_name ci)
      ++ bytes " deleted for tenant "
      ++ quote ci.spec.tenant.tenant_id)

  unfoldable pub handler : Handler CertIssuerSpec CertIssuerStatus (Unit {0})
  unfolding announce provision
  handler = record {
    kind = cert_issuers;
    get = env.get_cert_issuer;
    wrap_object = cert_issuer;
    prepare = λ ci. pure tt;
    cleanup = λ ci _. delete_if_present env operator cluster_issuer (child_key ci);
    announce = λ ci _. announce ci;
    provision = λ ci _. provision ci;
  }

  -- `CertIssuerReconciler.Reconcile`.
  unfoldable pub reconcile : Key → Exec ReconcileResult
  unfolding handler
  reconcile = Lifecycle.reconcile env handler

-- `SetupWithManager`.
unfoldable pub set_up_with_manager : Runtime → Process Done
set_up_with_manager rt = set_up_for rt cert_issuers
