-- ===== src/Names.antt =====
-- `tenantChildName` of internal/controller/common.go.
pub mod Bounds
pub mod Valid
use inari_operator.Base.{ℕ, ◌-◌, List, [], ◌∷◌, ◌++◌, length, take, leb, if◌then◌else◌, ◌≡◌}
use inari_operator.Text.{Str, bytes, join, trim_right}
use inari_operator.Text.Format.{hex}

-- The longest DNS-1123 label.
abbrev pub max_name : ℕ
max_name = 63

-- `sha256.Sum256` is the argument `sum256`; its digest has 32 bytes.
abbrev pub IsDigest : (Str → List ℕ) → Type 0
IsDigest sum256 = (s : Str) → length (sum256 s) ≡ 32

module _ (sum256 : Str → List ℕ) where
  pub digest_suffix : Str → Str
  digest_suffix s = take 8 (hex (sum256 s))

  pub shortened : Str → Str
  unfolding digest_suffix
  shortened s =
      let suffix = digest_suffix s in
      trim_right (take (max_name - length suffix - 1) s) (bytes "-.") ++ (bytes "-" ++ suffix)

  unfoldable pub tenant_child_name : List Str → Str
  unfolding shortened
  tenant_child_name parts =
      let s = join parts (bytes "-") in if leb (length s) max_name then s else shortened s
