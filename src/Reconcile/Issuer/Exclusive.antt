-- ===== src/Reconcile/Issuer/Exclusive.antt =====
-- Which ClusterIssuers are written.
use inari_operator.Base.{◌≡◌, refl, Bool, true, false, Option, none, some, All}
use inari_operator.Api.Items.{CertIssuer, AcmeIssuerSpec, CaIssuerSpec}
use inari_operator.Cluster.Errors.{Result, ok, err}
use inari_operator.Cluster.Children.{Child, named, cluster_issuer}
use inari_operator.Cluster.Children.Labelled.{AppliesMutate}
use inari_operator.Cluster.Env.{Env, Call, applied, operator}
use inari_operator.Cluster.Exec.{World}
use inari_operator.Cluster.Exec.Emits.{Emits, Emits-bind, Emits-attempt}
use inari_operator.Reconcile.Issuer.{
  provision, after_write, issuer_child, put_spec, build_cluster_issuer_spec, spec_of, child_key,
}
use inari_operator.Cluster.Calls.Writes.{OnlyWrites, Emits-create_or_update}
use inari_operator.Reconcile.Status.Writes.{write_rules}

-- Exactly one of `spec.acme` and `spec.ca` is set.
abbrev pub exactly_one : Option AcmeIssuerSpec → Option CaIssuerSpec → Bool
exactly_one none none = false
exactly_one (some a) (some c) = false
exactly_one (some a) none = true
exactly_one none (some c) = true

-- Any child in the cluster that a call wrote is that of an issuer with exactly one of them.
abbrev pub WritesExclusive : CertIssuer → Call → Type 0
WritesExclusive ci (applied _ _ _ (ok child)) = exactly_one ci.spec.acme ci.spec.ca ≡ true
WritesExclusive ci _ = Unit

pub WritesExclusive-OnlyWrites : (ci : CertIssuer) → OnlyWrites (WritesExclusive ci)
WritesExclusive-OnlyWrites ci = record {
  on_read = λ k n. tt;
  on_updated = λ o d. tt;
  on_status_updated = λ o d. tt;
  on_deleted = λ a k n d. tt;
  on_refused = λ a k n e. tt;
  on_connected = λ u d. tt;
  on_sent = λ r a. tt;
  on_emitted = λ k n t r m. tt;
}

module _ (env : Env) (ci : CertIssuer) where
  spec_of-exclusive :
      (acme : Option AcmeIssuerSpec) (ca : Option CaIssuerSpec) (found left : Child)
      → put_spec env ci found (spec_of env ci acme ca) ≡ ok left
      → exactly_one acme ca ≡ true
  unfolding spec_of put_spec
  spec_of-exclusive none none found left h = cc
  spec_of-exclusive (some a) (some c) found left h = cc
  spec_of-exclusive (some a) none found left h = refl
  spec_of-exclusive none (some c) found left h = refl

  issuer_child-exclusive :
      (found left : Child)
      → issuer_child env ci found ≡ ok left
      → exactly_one ci.spec.acme ci.spec.ca ≡ true
  unfolding issuer_child build_cluster_issuer_spec
  issuer_child-exclusive found left h = spec_of-exclusive ci.spec.acme ci.spec.ca found left h

  Emits-after_write : (r : Result Child) → Emits (WritesExclusive ci) (after_write env ci r)
  unfolding after_write
  Emits-after_write (ok c) = search (write_rules, WritesExclusive-OnlyWrites ci)
  Emits-after_write (err e) = search (write_rules, WritesExclusive-OnlyWrites ci)

  -- Where `CreateOrUpdate` leaves what the mutate function made, provisioning a CertIssuer writes a
  -- ClusterIssuer only if exactly one of `spec.acme` and `spec.ca` is set: if that is so of the
  -- writes before it, it is so of those after it.
  pub issuer_provision_exclusive :
      AppliesMutate env
      → (w : World) → All (WritesExclusive ci) w.trace
      → All (WritesExclusive ci) (provision env ci w).1.trace
  unfolding provision
  issuer_provision_exclusive lawful w =
      (Emits-bind _ _ _
          (Emits-attempt _ _ (
            Emits-create_or_update env (WritesExclusive-OnlyWrites ci) lawful operator
              (named cluster_issuer (child_key env ci)) (issuer_child env ci)
              issuer_child-exclusive))
          Emits-after_write).all
        w
