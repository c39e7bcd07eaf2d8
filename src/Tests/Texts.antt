-- ===== src/Tests/Texts.antt =====
-- The theorems on names, image references and DNS names at concrete texts.
use inari_operator.Base.{◌≡◌, ◌≤◌, ◌↔◌, refl, true, List, [], ◌∷◌, ◌++◌, length, false}
use inari_operator.Text.{Str, bytes, join, str_beq, trim_right, trim_suffix, has_suffix, last_index}
use inari_operator.Text.Format.{hex}
use inari_operator.Names.{tenant_child_name, max_name}
use inari_operator.Names.Bounds.{tenant_child_name-le-max_name}
use inari_operator.Names.Valid.{IsSubdomain, tenant_child_name-IsSubdomain}
use inari_operator.Dns.{dns_names_in_zone}
use inari_operator.Dns.Subdomains.{dns_names_in_zone_iff, name_labels}
use inari_operator.Dex.Image.{split_image_ref, split}
use inari_operator.Dex.Image.Splits.{IsTagged, split_image_ref_sound, split_image_ref_complete}
use inari_operator.Tests.Sample.{sample_digest}

abbrev long_parts : List Str
long_parts =
    bytes "tenant"
    ∷ bytes "a-rather-long-identifier-of-a-tenant-of-the-platform"
    ∷ bytes "issuer-1"
    ∷ []

long_name_length : length (tenant_child_name sample_digest long_parts) ≡ 63
unfolding tenant_child_name bytes join trim_right hex
long_name_length = refl

tenant_child_name-le-max_name_example :
    length (tenant_child_name sample_digest long_parts) ≤ max_name
tenant_child_name-le-max_name_example =
    tenant_child_name-le-max_name sample_digest (λ s. refl) long_parts

long_parts-IsSubdomain : IsSubdomain (join long_parts (bytes "-"))
unfolding bytes join
long_parts-IsSubdomain = refl

tenant_child_name-IsSubdomain_example : IsSubdomain (tenant_child_name sample_digest long_parts)
tenant_child_name-IsSubdomain_example =
    tenant_child_name-IsSubdomain sample_digest (λ s. refl) long_parts long_parts-IsSubdomain

dns_names_in_zone_iff_example :
    (dns_names_in_zone (bytes "www.acme.io") (bytes "acme.io.") ≡ true) ↔ (
      (front : List Str) × (name_labels (bytes "www.acme.io")
        ≡ front ++ name_labels (bytes "acme.io.")))
dns_names_in_zone_iff_example = dns_names_in_zone_iff (bytes "www.acme.io") (bytes "acme.io.")

outside_zone : dns_names_in_zone (bytes "evilacme.io") (bytes "acme.io") ≡ false
unfolding dns_names_in_zone bytes str_beq trim_suffix has_suffix
outside_zone = refl

registry_image :
    split_image_ref (bytes "reg.io:5000/dex:v2") ≡ split (bytes "reg.io:5000/dex") (bytes "v2")
unfolding split_image_ref bytes last_index
registry_image = refl

registry_image-IsTagged :
    IsTagged (bytes "reg.io:5000/dex:v2") (bytes "reg.io:5000/dex") (bytes "v2")
unfolding bytes
registry_image-IsTagged = record {
  parts = refl;
  no_digest = refl;
  tag_no_colon = refl;
  tag_no_slash = refl;
}

split_image_ref_sound_example :
    IsTagged (bytes "reg.io:5000/dex:v2") (bytes "reg.io:5000/dex") (bytes "v2")
split_image_ref_sound_example =
    split_image_ref_sound (bytes "reg.io:5000/dex:v2") (bytes "reg.io:5000/dex") (bytes "v2")
      registry_image

split_image_ref_complete_example :
    split_image_ref (bytes "reg.io:5000/dex:v2") ≡ split (bytes "reg.io:5000/dex") (bytes "v2")
split_image_ref_complete_example =
    split_image_ref_complete (bytes "reg.io:5000/dex:v2") (bytes "reg.io:5000/dex") (bytes "v2")
      registry_image-IsTagged
