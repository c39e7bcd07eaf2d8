-- ===== src/Names/Bounds.antt =====
-- The length of a child's name.
use inari_operator.Base.{
  ℕ, ◌≡◌, ◌≤◌, List, length, length-append, length-take, take, arith, ◌-◌, ◌∷◌, [],
}
use inari_operator.Text.{Str, bytes, join, trim_right}
use inari_operator.Text.Format.{hex, length-hex}
use inari_operator.Text.Suffixes.{length-trim_right}
use inari_operator.Names.{max_name, IsDigest, digest_suffix, shortened, tenant_child_name}

module _ (sum256 : Str → List ℕ) (digest : IsDigest sum256) where
  pub length-digest_suffix : (s : Str) → length (digest_suffix sum256 s) ≡ 8
  unfolding digest_suffix
  length-digest_suffix s =
      omega (arith, digest s, length-hex (sum256 s), length-take 8 (hex (sum256 s)))

  length-shortened : (s : Str) → length (shortened sum256 s) ≤ max_name
  unfolding shortened bytes
  length-shortened s =
      let suffix = digest_suffix sum256 s in
      let kept = take (max_name - length suffix - 1) s in
      omega (
        arith,
        length-digest_suffix s,
        length-trim_right kept (b'-' ∷ b'.' ∷ []),
        length-take (max_name - length suffix - 1) s,
        length-append (trim_right kept (b'-' ∷ b'.' ∷ [])) (b'-' ∷ suffix),
      )

  -- With a digest of 32 bytes, and whatever the parts, the name has at most 63 bytes.
  pub tenant_child_name-le-max_name :
      (parts : List Str) → length (tenant_child_name sum256 parts) ≤ max_name
  unfolding tenant_child_name
  tenant_child_name-le-max_name parts =
      let s = join parts (bytes "-") in ground (arith, length-shortened s)
