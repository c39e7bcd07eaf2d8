-- ===== src/Reconcile/Issuer/Names.antt =====
-- When two issuers have the same ClusterIssuer.
use inari_operator.Base.{◌≡◌, [], ◌∷◌, ◌++◌, append_assoc}
use inari_operator.Text.{Str, bytes, join}
use inari_operator.Names.{tenant_child_name}
use inari_operator.Api.Items.{CertIssuer}
use inari_operator.Cluster.Env.{Env}
use inari_operator.Reconcile.Issuer.{cluster_issuer_name}

abbrev pub dashed : Str → Str → Str
dashed a b = a ++ b'-' ∷ b

join-dashed :
    (t n m : Str)
    → join (bytes "tenant" ∷ dashed t n ∷ m ∷ []) (bytes "-")
      ≡ join (bytes "tenant" ∷ t ∷ dashed n m ∷ []) (bytes "-")
unfolding join bytes
join-dashed t n m = simp append_assoc

-- A dash moves freely between the tenant and the name: an issuer `m` of the tenant `t-n` and an
-- issuer `n-m` of the tenant `t` have the same ClusterIssuer, whatever t, n and m are.
pub issuer_names_collide :
    (env : Env) (ci other : CertIssuer) (t n m : Str)
    → ci.spec.tenant.tenant_id ≡ dashed t n
    → ci.metadata.name ≡ m
    → other.spec.tenant.tenant_id ≡ t
    → other.metadata.name ≡ dashed n m
    → cluster_issuer_name env ci ≡ cluster_issuer_name env other
unfolding cluster_issuer_name tenant_child_name
issuer_names_collide env ci other t n m a b c d = rw (a, b, c, d, join-dashed t n m)
