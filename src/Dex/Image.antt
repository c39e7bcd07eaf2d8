-- ===== src/Dex/Image.antt =====
-- `splitImageRef` of internal/controller/clusterdex_application.go.
pub mod Splits
use inari_operator.Base.{
  ℕ, suc, Bool, true, false, Option, none, some, List, [], ◌++◌, take, drop, ltb, if◌then◌else◌,
  contains, nat_eq,
}
use inari_operator.Text.{Str, bytes, last_index}
use inari_operator.Text.Format.{quote}

pub data Split : Type 0 where
  split : Str → Str → Split
  refused : Str → Split

-- `idx < 0 || idx < strings.LastIndex(image, "/")`.
tag_missing : Option ℕ → Option ℕ → Bool
tag_missing none slash = true
tag_missing (some i) none = false
tag_missing (some i) (some j) = ltb i j

cut_at : Str → Option ℕ → Split
cut_at image none = split [] image
cut_at image (some i) = split (take i image) (drop (suc i) image)

unfoldable pub split_image_ref : Str → Split
unfolding tag_missing cut_at
split_image_ref image =
    let colon = last_index image b':' in
    if contains image b'@'
    then refused (
        bytes "image "
        ++ quote image
        ++ bytes " must use an explicit tag, digest references are not supported")
    else if tag_missing colon (last_index image b'/')
    then refused (bytes "image " ++ quote image ++ bytes " must include an explicit tag")
    else cut_at image colon
