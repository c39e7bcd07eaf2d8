-- ===== src/Dex/Render/Policy.antt =====
-- policy.csv assigns each group its role and nothing else.
use inari_operator.Text.Format.{quote}
use inari_operator.Cluster.Errors.{failure, Result, ok, err}
use inari_operator.Base.{
  ℕ, String, ◌≡◌, refl, ap, sym, ◌∙◌, Bool, true, false, ◌||◌, Option, none, some, List, [], ◌∷◌,
  ◌++◌, map, All, append_assoc, Bool-cases, Option-cases, inl, inr, arith, nat_beq, if◌then◌else◌,
}
use inari_operator.Text.{Str, bytes, contains_any, trim_right}
use inari_operator.Api.Items.{ClusterDex, ClusterDexArgoCd, SecretKeyReference}
use inari_operator.Cluster.Children.{Child, config}
use inari_operator.Cluster.Env.{Env}
use inari_operator.Dex.Render.{
  role_lines, extra_lines, multiline_group, policy_csv, render_argocd_config_maps, with_argocd,
  with_ref, config_maps, config_child,
}

-- The lines of a text in which each line ends with a line feed.
abbrev extend : ℕ → List Str → List Str
extend x [] = (x ∷ []) ∷ []
extend x (l ∷ ls) = (x ∷ l) ∷ ls

abbrev pub lines : Str → List Str
lines [] = []
lines (x ∷ s) = if nat_beq x 10 then [] ∷ lines s else extend x (lines s)

unfoldable is_multiline : Str → Bool
is_multiline [] = false
is_multiline (x ∷ s) = nat_beq x 10 || is_multiline s

-- The parts of a text between its line feeds, at least one.
abbrev pub segments : Str → List Str
segments [] = [] ∷ []
segments (x ∷ s) = if nat_beq x 10 then [] ∷ segments s else extend x (segments s)

-- The lines of `rbacPolicyExtra`: those of each entry, less the line feeds at its end.
abbrev pub entry_lines : List Str → List Str
entry_lines [] = []
entry_lines (e ∷ es) = segments (trim_right e (bytes "\n")) ++ entry_lines es

data IsNonempty : List Str → Type 0 where
  nonempty : (l : Str) (ls : List Str) → IsNonempty (l ∷ ls)

IsNonempty-extend : (x : ℕ) (ls : List Str) → IsNonempty (extend x ls)
IsNonempty-extend x [] = nonempty (x ∷ []) []
IsNonempty-extend x (l ∷ ls) = nonempty (x ∷ l) ls

IsNonempty-segments : (s : Str) → IsNonempty (segments s)
IsNonempty-segments [] = nonempty [] []
IsNonempty-segments (x ∷ s) = elim (Bool-cases (nat_beq x 10)) [
  | inl feed ↦ rw feed (nonempty [] (segments s))
  | inr other ↦ rw other (IsNonempty-extend x (segments s))
]

extend-append :
    (x : ℕ) (ls rest : List Str) → IsNonempty ls → extend x (ls ++ rest) ≡ extend x ls ++ rest
extend-append x _ rest (nonempty l ls) = refl

lines-segments : (l s : Str) → lines (l ++ 10 ∷ s) ≡ segments l ++ lines s
lines-segments [] s = refl
lines-segments (x ∷ l) s = elim (Bool-cases (nat_beq x 10)) [
  | inl feed ↦ rw (feed, lines-segments l s) refl
  | inr other ↦
      rw (other, lines-segments l s)
        (extend-append x (segments l) (lines s) (IsNonempty-segments l))
]

extra_lines-append : (l rest : Str) → (l ++ bytes "\n") ++ rest ≡ l ++ 10 ∷ rest
unfolding bytes
extra_lines-append l rest = append_assoc l (10 ∷ []) rest

lines-extra_lines : (es : List Str) → lines (extra_lines es) ≡ entry_lines es
unfolding extra_lines
lines-extra_lines [] = refl
lines-extra_lines (e ∷ es) =
    ap lines (extra_lines-append (trim_right e (bytes "\n")) (extra_lines es))
    ∙ lines-segments (trim_right e (bytes "\n")) (extra_lines es)
    ∙ ap (λ ls. segments (trim_right e (bytes "\n")) ++ ls) (lines-extra_lines es)

lines-append : (l s : Str) → is_multiline l ≡ false → lines (l ++ 10 ∷ s) ≡ l ∷ lines s
unfolding is_multiline
lines-append [] s h = refl
lines-append (x ∷ l) s h = elim (Bool-cases (nat_beq x 10)) [
  | inl feed ↦ let bad : true ≡ false = rw feed at h in cc
  | inr other ↦ rw (other, lines-append l s (rw other at h)) refl
]

is_multiline-append : (l k : Str) → is_multiline (l ++ k) ≡ (is_multiline l || is_multiline k)
unfolding is_multiline
is_multiline-append [] k = refl
is_multiline-append (x ∷ l) k = ground (arith, is_multiline-append l k)

-- The assignment of a role.
abbrev pub group_line : String → Str → Str
group_line role g = bytes "g, " ++ g ++ bytes ", role:" ++ bytes role

is_single_line : (g : Str) → contains_any g (bytes "\r\n") ≡ false → is_multiline g ≡ false
unfolding contains_any bytes is_multiline
is_single_line [] h = refl
is_single_line (x ∷ g) h = ground (arith, h, is_single_line g)

multiline_group-none :
    (gs : List Str)
    → multiline_group gs ≡ none
    → All (λ g. contains_any g (bytes "\r\n") ≡ false) gs
unfolding multiline_group
multiline_group-none [] h = tt
multiline_group-none (g ∷ gs) h = elim (Bool-cases (contains_any g (bytes "\r\n"))) [
  | inl bad ↦ let none_is : some g ≡ none = rw bad at h in cc
  | inr good ↦ (good, multiline_group-none gs (rw good at h))
]

All-append-inv :
    {A : Type 0} (P : A → Type 0) (xs ys : List A) → All P (xs ++ ys) → All P xs × All P ys
All-append-inv P [] ys h = (tt, h)
All-append-inv P (x ∷ xs) ys (p, h) = let (a, b) = All-append-inv P xs ys h in ((p, a), b)

then_plain :
    (l k : Str) → is_multiline l ≡ false → is_multiline k ≡ false → is_multiline (l ++ k) ≡ false
then_plain l k hl hk = is_multiline-append l k ∙ ap (λ b. b || is_multiline k) hl ∙ hk

opening_plain : is_multiline (bytes "g, ") ≡ false
unfolding bytes is_multiline
opening_plain = refl

middle_plain : is_multiline (bytes ", role:") ≡ false
unfolding bytes is_multiline
middle_plain = refl

module _ (role : String) (plain : is_multiline (bytes role) ≡ false) where
  is_multiline-group_line :
      (g : Str) → is_multiline g ≡ false → is_multiline (group_line role g) ≡ false
  is_multiline-group_line g single =
      then_plain (bytes "g, " ++ g ++ bytes ", role:") (bytes role)
        (then_plain (bytes "g, " ++ g) (bytes ", role:")
          (then_plain (bytes "g, ") g opening_plain single) middle_plain)
        plain

  group_line-append :
      (g rest s : Str)
      → ((bytes "g, " ++ g ++ bytes ", role:" ++ bytes role ++ bytes "\n") ++ rest) ++ s
        ≡ group_line role g ++ 10 ∷ (rest ++ s)
  unfolding bytes
  group_line-append g rest s = simp append_assoc

  lines-role_lines :
      (gs : List Str) (s : Str)
      → All (λ g. contains_any g (bytes "\r\n") ≡ false) gs
      → lines (role_lines role gs ++ s) ≡ map (group_line role) gs ++ lines s
  unfolding role_lines
  lines-role_lines [] s h = refl
  lines-role_lines (g ∷ gs) s (single, h) =
      ap lines (group_line-append g (role_lines role gs) s)
      ∙ lines-append (group_line role g) (role_lines role gs ++ s)
          (is_multiline-group_line g (is_single_line g single))
      ∙ ap (λ ls. group_line role g ∷ ls) (lines-role_lines gs s h)

admin_plain : is_multiline (bytes "admin") ≡ false
unfolding bytes is_multiline
admin_plain = refl

readonly_plain : is_multiline (bytes "readonly") ≡ false
unfolding bytes is_multiline
readonly_plain = refl

-- What policy.csv says of the groups, in its lines.
abbrev pub policy_lines : ClusterDexArgoCd → List Str
policy_lines a =
    map (group_line "admin") a.admin_groups
    ++ (map (group_line "readonly") a.viewer_groups ++ entry_lines a.rbac_policy_extra)

lines-policy_csv :
    (a : ClusterDexArgoCd)
    → multiline_group (a.admin_groups ++ a.viewer_groups) ≡ none
    → lines (policy_csv a) ≡ policy_lines a
unfolding policy_csv
lines-policy_csv a single =
    let (admins, viewers) =
      All-append-inv (λ g. contains_any g (bytes "\r\n") ≡ false) a.admin_groups a.viewer_groups
        (multiline_group-none (a.admin_groups ++ a.viewer_groups) single) in
    lines-role_lines "admin" admin_plain a.admin_groups _ admins
    ∙ ap (λ ls. map (group_line "admin") a.admin_groups ++ ls)
        (lines-role_lines "readonly" readonly_plain a.viewer_groups _ viewers
          ∙ ap (λ ls. map (group_line "readonly") a.viewer_groups ++ ls)
              (lines-extra_lines a.rbac_policy_extra))

-- The rendered policy, and what it was rendered from.
pub record Policy (cr : ClusterDex) (rbac : Child) : Type 0 where
  pub argocd : ClusterDexArgoCd
  pub given : cr.spec.argocd ≡ some argocd
  pub policy : Str
  pub content :
      rbac.content ≡ config ((bytes "policy.default", []) ∷ (bytes "policy.csv", policy) ∷ [])
  pub assigns : lines policy ≡ policy_lines argocd

module _ (env : Env) (cr : ClusterDex) (a : ClusterDexArgoCd)
    (given : cr.spec.argocd ≡ some a) where
  config_maps-eq-ok :
      (oidc : Result Str) (cm rbac : Child)
      → multiline_group (a.admin_groups ++ a.viewer_groups) ≡ none
      → config_maps env cr a oidc ≡ ok (cm, rbac)
      → Policy cr rbac
  unfolding config_maps config_child
  config_maps-eq-ok (err e) cm rbac single h = cc
  config_maps-eq-ok (ok oidc) cm rbac single h = record {
    argocd = a;
    given = given;
    policy = policy_csv a;
    content = ap (λ r. elim r [ ok p ↦ p.1.content | err e ↦ rbac.content ]) (sym h);
    assigns = lines-policy_csv a single;
  }

  with_ref-eq-ok :
      (o : Option SecretKeyReference) (cm rbac : Child)
      → with_ref env cr a o ≡ ok (cm, rbac)
      → Policy cr rbac
  unfolding with_ref
  with_ref-eq-ok none cm rbac h = cc
  with_ref-eq-ok (some ref) cm rbac h =
      elim (Option-cases (multiline_group (a.admin_groups ++ a.viewer_groups))) [
        | inl single ↦ config_maps-eq-ok _ cm rbac single (rw (with_ref, single) at h)
        | inr (g, bad) ↦
            let refused : ◌≡◌ {A = Result (Child × Child)}
                (err (failure (bytes "argocd group " ++ quote g ++ bytes " must be a single line")))
                (ok (cm, rbac)) =
              rw (with_ref, bad) at h in
            cc
      ]

module _ (env : Env) (cr : ClusterDex) where
  with_argocd-eq-ok :
      (o : Option ClusterDexArgoCd) (cm rbac : Child)
      → cr.spec.argocd ≡ o
      → with_argocd env cr o ≡ ok (cm, rbac)
      → Policy cr rbac
  unfolding with_argocd
  with_argocd-eq-ok none cm rbac given h = cc
  with_argocd-eq-ok (some a) cm rbac given h =
      with_ref-eq-ok env cr a given a.oidc_client_secret_ref cm rbac h

-- Where the two ConfigMaps are rendered, policy.csv of argocd-rbac-cm has exactly these lines: one
-- for each admin group and each viewer group, in order, that gives it its role, and then the lines of
-- the entries of `rbacPolicyExtra`, each less the line feeds at its end; no group adds a line of its own. The default policy is empty.
pub render_argocd_config_maps-eq-ok :
    (env : Env) (cr : ClusterDex) (cm rbac : Child)
    → render_argocd_config_maps env cr ≡ ok (cm, rbac)
    → Policy cr rbac
unfolding render_argocd_config_maps
render_argocd_config_maps-eq-ok env cr cm rbac h =
    with_argocd-eq-ok env cr cr.spec.argocd cm rbac refl h
