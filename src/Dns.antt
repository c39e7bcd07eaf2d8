-- ===== src/Dns.antt =====
-- `dnsNamesInZone` of internal/controller/dns_controller.go.
pub mod Subdomains
use inari_operator.Base.{Bool, ◌||◌, ◌++◌, ◌==◌}
use inari_operator.Text.{Str, str_eq, bytes, has_suffix, trim_suffix}

unfoldable pub dns_names_in_zone : Str → Str → Bool
dns_names_in_zone name zone =
    let name' = trim_suffix name (bytes ".") in
    let zone' = trim_suffix zone (bytes ".") in
    name' == zone' || has_suffix name' (bytes "." ++ zone')
