-- ===== src/Cluster/Errors.antt =====
-- Go's errors as the operator builds and inspects them.
use inari_operator.Base.{ℕ, Bool, true, false, ◌++◌, ◌≡◌, refl, ◌⊎◌, inl, inr}
use inari_operator.Text.{Str, bytes}
use inari_operator.Text.Format.{decimal}

-- The reason of a `StatusError` of the API server: `IsNotFound` is all that the code asks.
pub data ApiReason : Type 0 where
  api_not_found api_other : ApiReason

pub data Error : Type 0 where
  api : ApiReason → Str → Error
  -- `errNotFound` of internal/keycloak/client.go
  keycloak_not_found : Error
  -- `httpError` of internal/keycloak/client.go
  http_error : ℕ → Str → Error
  -- `errors.New`, `fmt.Errorf` without %w, and what a library returns
  failure : Str → Error
  -- `fmt.Errorf` whose last verb is %w
  wrapped : Str → Error → Error

-- `err.Error()`.
unfoldable pub error_text : Error → Str
error_text (api reason message) = message
error_text keycloak_not_found = bytes "keycloak: not found"
error_text (http_error status body) =
    bytes "keycloak: HTTP " ++ decimal status ++ bytes ": " ++ body
error_text (failure message) = message
error_text (wrapped prefix err) = prefix ++ error_text err

-- `apierrors.IsNotFound`.
abbrev pub is_not_found : Error → Bool
is_not_found (api api_not_found message) = true
is_not_found (wrapped prefix err) = is_not_found err
is_not_found _ = false

-- `errors.Is(err, errNotFound)`.
abbrev pub is_keycloak_not_found : Error → Bool
is_keycloak_not_found keycloak_not_found = true
is_keycloak_not_found (wrapped prefix err) = is_keycloak_not_found err
is_keycloak_not_found _ = false

pub data Result {ℓ} (A : Type ℓ) : Type ℓ where
  ok : A → Result A
  err : Error → Result A

-- The `error` of a call that returns nothing else; `ok tt` is nil.
abbrev pub Done : Type 0
Done = Result (Unit {0})

-- `client.IgnoreNotFound`.
abbrev pub ignore_not_found : Done → Done
ignore_not_found (ok u) = ok u
ignore_not_found (err e) = elim (is_not_found e) [ true ↦ ok tt | false ↦ err e ]

-- `fmt.Errorf("…: %w", err)` on the error of a call.
abbrev pub wrap {ℓ} : {A : Type ℓ} → Str → Result A → Result A
wrap prefix (ok a) = ok a
wrap prefix (err e) = err (wrapped prefix e)

pub Result-cases {ℓ} :
    {A : Type ℓ} (r : Result A) → ((a : A) × (r ≡ ok a)) ⊎ ((e : Error) × (r ≡ err e))
Result-cases (ok a) = inl (a, refl)
Result-cases (err e) = inr (e, refl)
