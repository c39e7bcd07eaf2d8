-- ===== src/Reconcile/TenantSpace/Quota.antt =====
-- What `reconcileQuota` of internal/controller/tenantnamespace_controller.go limits.
use inari_operator.Base.{
  ℤ, pos, negsuc, zero, suc, ◌≡◌, inl, inr, refl, true, false, Option, none, some, [], ◌∷◌, ◌++◌,
  Bool-cases, String, ap, append-nil, subst, sym, ◌∙◌,
}
use inari_operator.Text.{Str, bytes, is_empty, str_beq}
use inari_operator.Text.Format.{decimal}
use inari_operator.Api.Items.{TenantResourceQuota}
use inari_operator.Cluster.Errors.{ok, err, Result-cases}
use inari_operator.Cluster.Children.{Labels, get_label}
use inari_operator.Cluster.Env.{Env}
use inari_operator.Reconcile.TenantSpace.{
  hard_limits, with_pods, with_memory, with_quantity, add_limits, both_limits,
}

abbrev pub pod_limit : ℤ → Option Str
pod_limit (pos zero) = none
pod_limit (negsuc n) = none
pod_limit (pos (suc n)) = some (decimal (suc n))

module _ (env : Env) where
  -- What one resource of a quota, given as this text, is limited to for requests and for limits: to
  -- nothing where the text is empty, else both to the quantity that the text is parsed as.
  pub data Limited (q : Str) : Option Str → Option Str → Type 0 where
    unlimited : is_empty q ≡ true → Limited q none none
    limited :
        (v : Str) → is_empty q ≡ false → env.parse_quantity q ≡ ok v → Limited q (some v) (some v)

  -- The limits of a quota.
  pub record Limits (q : TenantResourceQuota) (hard : Labels) : Type 0 where
    pub cpu :
        Limited q.cpu (get_label (bytes "requests.cpu") hard) (get_label (bytes "limits.cpu") hard)
    pub memory :
        Limited q.memory
          (get_label (bytes "requests.memory") hard)
          (get_label (bytes "limits.memory") hard)
    pub pods : get_label (bytes "pods") hard ≡ pod_limit q.pods

ok_inj : {A : Type 0} {a b : A} → ok a ≡ ok b → a ≡ b
ok_inj h = cc

module _ (env : Env) where
  -- The entries for one resource: none, or two with the same value.
  data Part (resource : String) (q : Str) : Labels → Type 0 where
    absent : is_empty q ≡ true → Part resource q []
    present :
        (v : Str)
        → is_empty q ≡ false
        → env.parse_quantity q ≡ ok v
        → Part resource q (both_limits resource v)

  with_quantity-eq-ok :
      (resource : String) (q : Str) (before hard : Labels)
      → with_quantity env resource q before ≡ ok hard
      → (part : Labels) × Part resource q part × (hard ≡ before ++ part)
  unfolding with_quantity add_limits
  with_quantity-eq-ok resource q before hard h = elim (Bool-cases (is_empty q)) [
    | inl e ↦
        let same : ok before ≡ ok hard = rw e at h in
        ([], absent e, rw (append-nil before) (sym (ok_inj same)))
    | inr e ↦ elim (Result-cases (env.parse_quantity q)) [
      | inl (v, parsed) ↦
          let same : ok (before ++ both_limits resource v) ≡ ok hard = rw (e, parsed) at h in
          (both_limits resource v, present v e parsed, sym (ok_inj same))
      | inr (x, failed) ↦ let bad : err _ ≡ ok hard = rw (e, failed) at h in cc
    ]
  ]

  abbrev pod_part : ℤ → Labels
  pod_part (pos zero) = []
  pod_part (negsuc n) = []
  pod_part (pos (suc n)) = (bytes "pods", decimal (suc n)) ∷ []

  Limits-parts :
      (q : TenantResourceQuota) (cpu memory : Labels) (n : ℤ)
      → Part "cpu" q.cpu cpu
      → Part "memory" q.memory memory
      → n ≡ q.pods
      → Limits env q (cpu ++ memory ++ pod_part n)
  unfolding both_limits get_label bytes str_beq
  Limits-parts q _ _ (pos zero) (absent a) (absent b) e = record {
    cpu = unlimited a;
    memory = unlimited b;
    pods = ap pod_limit e;
  }
  Limits-parts q _ _ (pos (suc n)) (absent a) (absent b) e = record {
    cpu = unlimited a;
    memory = unlimited b;
    pods = ap pod_limit e;
  }
  Limits-parts q _ _ (negsuc n) (absent a) (absent b) e = record {
    cpu = unlimited a;
    memory = unlimited b;
    pods = ap pod_limit e;
  }
  Limits-parts q _ _ (pos zero) (absent a) (present v b y) e = record {
    cpu = unlimited a;
    memory = limited v b y;
    pods = ap pod_limit e;
  }
  Limits-parts q _ _ (pos (suc n)) (absent a) (present v b y) e = record {
    cpu = unlimited a;
    memory = limited v b y;
    pods = ap pod_limit e;
  }
  Limits-parts q _ _ (negsuc n) (absent a) (present v b y) e = record {
    cpu = unlimited a;
    memory = limited v b y;
    pods = ap pod_limit e;
  }
  Limits-parts q _ _ (pos zero) (present u a x) (absent b) e = record {
    cpu = limited u a x;
    memory = unlimited b;
    pods = ap pod_limit e;
  }
  Limits-parts q _ _ (pos (suc n)) (present u a x) (absent b) e = record {
    cpu = limited u a x;
    memory = unlimited b;
    pods = ap pod_limit e;
  }
  Limits-parts q _ _ (negsuc n) (present u a x) (absent b) e = record {
    cpu = limited u a x;
    memory = unlimited b;
    pods = ap pod_limit e;
  }
  Limits-parts q _ _ (pos zero) (present u a x) (present v b y) e = record {
    cpu = limited u a x;
    memory = limited v b y;
    pods = ap pod_limit e;
  }
  Limits-parts q _ _ (pos (suc n)) (present u a x) (present v b y) e = record {
    cpu = limited u a x;
    memory = limited v b y;
    pods = ap pod_limit e;
  }
  Limits-parts q _ _ (negsuc n) (present u a x) (present v b y) e = record {
    cpu = limited u a x;
    memory = limited v b y;
    pods = ap pod_limit e;
  }

  with_pods-eq-ok :
      (n : ℤ) (before hard : Labels)
      → with_pods env n (ok before) ≡ ok hard
      → hard ≡ before ++ pod_part n
  unfolding with_pods
  with_pods-eq-ok (negsuc n) before hard h = rw (append-nil before) (sym (ok_inj h))
  with_pods-eq-ok (pos zero) before hard h = rw (append-nil before) (sym (ok_inj h))
  with_pods-eq-ok (pos (suc n)) before hard h = sym (ok_inj h)

  -- A quota that is accepted limits CPU and memory, where it names one and only there, to the quantity
  -- that its text for it is parsed as, for requests and limits alike, and pods to their number where
  -- it is positive and only there.
  pub hard_limits-eq-ok :
      (q : TenantResourceQuota) (hard : Labels) → hard_limits env q ≡ ok hard → Limits env q hard
  unfolding hard_limits with_memory
  hard_limits-eq-ok q hard h = elim (Result-cases (with_quantity env "cpu" q.cpu [])) [
    | inr (x, e) ↦ let bad : err x ≡ ok hard = rw (e, with_pods) at h in cc
    | inl (first, e) ↦ elim (Result-cases (with_quantity env "memory" q.memory first)) [
      | inr (x, e') ↦ let bad : err x ≡ ok hard = rw (e, e', with_pods) at h in cc
      | inl (second, e') ↦
          let (cpu, cpu_part, at_first) = with_quantity-eq-ok "cpu" q.cpu [] first e in
          let (memory, memory_part, at_second) =
            with_quantity-eq-ok "memory" q.memory first second e' in
          let last = with_pods-eq-ok q.pods second hard (rw (e, e') at h) in
          subst (Limits env q)
            (sym
              (last ∙ ap (λ m. m ++ pod_part q.pods) (at_second ∙ ap (λ m. m ++ memory) at_first)))
            (Limits-parts q cpu memory q.pods cpu_part memory_part refl)
    ]
  ]
