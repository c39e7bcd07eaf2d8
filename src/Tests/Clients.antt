-- ===== src/Tests/Clients.antt =====
-- The theorems on clients of Keycloak and on the paths of realms.
use inari_operator.Base.{◌≡◌, ◌<◌, true, false, All, ◌++◌, arith, ◌∷◌, []}
use inari_operator.Text.{Str, bytes}
use inari_operator.Text.Url.Escape.{unescape, outside, ends_segment}
use inari_operator.Keycloak.Admin.{realm_path}
use inari_operator.Keycloak.Admin.Paths.{realm_path_segment}
use inari_operator.Reconcile.OidcClient.{Target}

abbrev odd_name : Str
odd_name = b'a' ∷ b'/' ∷ b'b' ∷ []

odd_name_bytes : All (λ c. c < 256) odd_name
odd_name_bytes = (omega arith, (omega arith, (omega arith, tt)))

realm_path_segment_example :
    (segment : Str) × (realm_path odd_name ≡ bytes "/admin/realms/" ++ segment)
    × All (λ b. ends_segment b ≡ false) segment
    × (unescape outside segment ≡ odd_name)
realm_path_segment_example = realm_path_segment odd_name odd_name_bytes

abbrev found_realm : Target
found_realm = record { realm = bytes "acme"; ready = true }
