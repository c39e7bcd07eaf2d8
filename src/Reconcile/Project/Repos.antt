-- ===== src/Reconcile/Project/Repos.antt =====
-- `repos` of internal/controller/argoproject_controller.go: what an AppProject allows.
use inari_operator.Base.{
  ◌≡◌, refl, true, List, [], ◌∷◌, ◌++◌, contains, ==_refl, Bool-cases, inl, inr, ◌==◌,
}
use inari_operator.Text.{Str, str_eq}
use inari_operator.Api.Items.{ArgoProject}
use inari_operator.Dex.Settings.{dex_chart_repo_url}
use inari_operator.Reconcile.Project.{repos}

contains-append_left :
    (xs ys : List Str) (r : Str) → contains xs r ≡ true → contains (xs ++ ys) r ≡ true
contains-append_left [] ys r h = cc
contains-append_left (x ∷ xs) ys r h = elim (Bool-cases (x == r)) [
  | inl same ↦ rw same refl
  | inr other ↦ rw other (contains-append_left xs ys r (rw other at h))
]

contains-append_last : (xs : List Str) (r : Str) → contains (xs ++ (r ∷ [])) r ≡ true
contains-append_last [] r = rw (==_refl r) refl
contains-append_last (x ∷ xs) r = elim (Bool-cases (x == r)) [
  | inl same ↦ rw same refl
  | inr other ↦ rw other (contains-append_last xs r)
]

-- The repositories of the AppProject hold the Dex chart's, and each one that the ArgoProject lists.
repos_allow :
    (ap : ArgoProject)
    → (contains (repos ap) dex_chart_repo_url ≡ true)
      × ((r : Str) → contains ap.spec.source_repos r ≡ true → contains (repos ap) r ≡ true)
unfolding repos
repos_allow ap = elim (Bool-cases (contains ap.spec.source_repos dex_chart_repo_url)) [
  | inl listed ↦ rw listed (listed, λ r h. h)
  | inr absent ↦ rw absent (
    contains-append_last ap.spec.source_repos dex_chart_repo_url,
    λ r h. contains-append_left ap.spec.source_repos (dex_chart_repo_url ∷ []) r h,
  )
]
