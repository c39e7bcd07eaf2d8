-- ===== src/Keycloak/Admin/Paths.antt =====
-- Which realm a request path addresses.
use inari_operator.Base.{
  ◌<◌, ◌≡◌, refl, sym, ap, ◌∙◌, false, ◌++◌, All, drop, length, drop-length-append,
}
use inari_operator.Text.{Str, bytes}
use inari_operator.Text.Url.{path_escape}
use inari_operator.Text.Url.Escape.{
  unescape, outside, unescape-path_escape, ends_segment, path_escape_within,
}
use inari_operator.Keycloak.Admin.{realm_path}

-- The path of a realm is `/admin/realms/` and one segment, from which the realm can be read back,
-- where the realm's name is a text of bytes: no byte of the segment is `/`, `?` or `#`.
pub realm_path_segment :
    (realm : Str)
    → All (λ c. c < 256) realm
    → (segment : Str) × (realm_path realm ≡ bytes "/admin/realms/" ++ segment)
      × All (λ b. ends_segment b ≡ false) segment
      × (unescape outside segment ≡ realm)
realm_path_segment realm h =
    (path_escape realm, refl, path_escape_within realm, unescape-path_escape realm h)

-- Two realms, their names texts of bytes, have the same path only if they have the same name.
realm_path_injective :
    (a b : Str) → All (λ c. c < 256) a → All (λ c. c < 256) b → realm_path a ≡ realm_path b → a ≡ b
realm_path_injective a b ha hb h =
    let prefix = bytes "/admin/realms/" in
    sym (unescape-path_escape a ha)
    ∙ ap (unescape outside) (
        sym (drop-length-append prefix (path_escape a))
        ∙ ap (drop (length prefix)) h
        ∙ drop-length-append prefix (path_escape b))
    ∙ unescape-path_escape b hb
