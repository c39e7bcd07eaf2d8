-- ===== src/Names/Valid.antt =====
-- A child's name is a DNS-1123 subdomain where its parts make one.
use inari_operator.Base.{
  ℕ, zero, suc, refl, ap, ◌∙◌, ◌⊎◌, take, drop, length, take-append-drop, ◌≡◌, ◌≢◌, Bool, true,
  ◌&&◌, ◌||◌, List, [], ◌∷◌, ◌++◌, arith, All, if◌then◌else◌, nat_beq, leb, Bool-cases, inl, inr,
}
use inari_operator.Text.{Str, bytes, join, trim_right, trim_cons}
use inari_operator.Text.Format.{hex, is_hex, hex-is_hex}
use inari_operator.Names.{IsDigest, digest_suffix, shortened, tenant_child_name}
use inari_operator.Names.Bounds.{length-digest_suffix}

-- What may follow the bytes read so far: at the start of a label, after a letter or digit, after a
-- dash, or nothing.
pub data Scan : Type 0 where
  start inside dash dead : Scan

abbrev is_alnum : ℕ → Bool
is_alnum c = leb b'0' c && leb c b'9' || leb b'a' c && leb c b'z'

abbrev advance : Scan → ℕ → Scan
advance start c = if is_alnum c then inside else dead
advance inside c =
    if is_alnum c
    then inside
    else if nat_beq c b'-'
    then dash
    else if nat_beq c b'.'
    then start
    else dead
advance dash c = if is_alnum c then inside else if nat_beq c b'-' then dash else dead
advance dead c = dead

abbrev scan : Scan → Str → Scan
scan st [] = st
scan st (c ∷ s) = scan (advance st c) s

-- `[a-z0-9]([-a-z0-9]*[a-z0-9])?(\.[a-z0-9]([-a-z0-9]*[a-z0-9])?)*`.
abbrev pub IsSubdomain : Str → Type 0
IsSubdomain s = scan start s ≡ inside

scan-append : (st : Scan) (s t : Str) → scan st (s ++ t) ≡ scan (scan st s) t
scan-append st [] t = refl
scan-append st (c ∷ s) t = scan-append (advance st c) s t

scan-dead : (s : Str) → scan dead s ≡ dead
scan-dead [] = refl
scan-dead (c ∷ s) = scan-dead s

-- Letters and digits of a digest keep the scan inside a label.
scan-hex : (s : Str) → All (λ c. is_hex c ≡ true) s → scan inside s ≡ inside
scan-hex [] h = refl
scan-hex (c ∷ s) h =
    let alnum : advance inside c ≡ inside = ground (arith, h.0) in rw alnum (scan-hex s h.1)

live_prefix : (st : Scan) (s t : Str) → scan st (s ++ t) ≡ inside → scan st s ≢ dead
live_prefix st s t h e = cc (scan-append st s t, scan-dead t, ap (λ x. scan x t) e)

abbrev separators : Str
separators = b'-' ∷ b'.' ∷ []

trim_last :
    (st : Scan) (c : ℕ)
    → advance st c ≢ dead
    → (trim_cons separators c [] ≡ []) ⊎ (scan st (trim_cons separators c []) ≡ inside)
unfolding trim_cons
trim_last start c h = ground arith
trim_last inside c h = ground arith
trim_last dash c h = ground arith
trim_last dead c h = ground arith

-- A live scan that is trimmed of dashes and dots stands inside a label.
scan-trim_right :
    (st : Scan) (s : Str)
    → scan st s ≢ dead
    → (trim_right s separators ≡ []) ⊎ (scan st (trim_right s separators) ≡ inside)
unfolding trim_right
scan-trim_right st [] h = inl refl
scan-trim_right st (c ∷ s) h = go (trim_right s separators) (scan-trim_right (advance st c) s h)
  where
    live : advance st c ≢ dead
    live e = h (ap (λ x. scan x s) e ∙ scan-dead s)

    go :
        (r : Str)
        → (r ≡ []) ⊎ (scan (advance st c) r ≡ inside)
        → (trim_cons separators c r ≡ []) ⊎ (scan st (trim_cons separators c r) ≡ inside)
    go [] ih = trim_last st c live
    go (y ∷ r) ih = ground arith

trim_right-ne-nil : (c : ℕ) (s : Str) → is_alnum c ≡ true → trim_right (c ∷ s) separators ≢ []
unfolding trim_right
trim_right-ne-nil c s h = go (trim_right s separators)
  where
    go : (r : Str) → trim_cons separators c r ≢ []
    go [] e = ground arith
    go (y ∷ r) e = cc

scan-hex_suffix :
    (s : Str) → All (λ c. is_hex c ≡ true) s → length s ≡ 8 → scan inside (b'-' ∷ s) ≡ inside
scan-hex_suffix [] h e = absurd (omega arith)
scan-hex_suffix (c ∷ s) h e =
    let alnum : advance dash c ≡ inside = ground (arith, h.0) in rw alnum (scan-hex s h.1)

head_alnum : (c : ℕ) (s : Str) → IsSubdomain (c ∷ s) → is_alnum c ≡ true
head_alnum c s h = elim (Bool-cases (is_alnum c)) [
  | inl e ↦ e
  | inr e ↦ let bad : advance start c ≡ dead = rw e in cc (scan-dead s, ap (λ x. scan x s) bad)
]

-- A subdomain that is cut, trimmed and given a suffix of hexadecimal digits.
cut-IsSubdomain :
    (c : ℕ) (s suffix : Str) (n : ℕ)
    → IsSubdomain (c ∷ s)
    → All (λ d. is_hex d ≡ true) suffix
    → length suffix ≡ 8
    → IsSubdomain (trim_right (c ∷ take n s) separators ++ (b'-' ∷ suffix))
cut-IsSubdomain c s suffix n h hexes e =
    let kept = c ∷ take n s in
    let whole : IsSubdomain (kept ++ drop n s) = rw (ap (λ r. c ∷ r) (take-append-drop n s)) h in
    elim (scan-trim_right start kept (live_prefix start kept (drop n s) whole)) [
      | inl empty ↦ absurd (trim_right-ne-nil c (take n s) (head_alnum c s h) empty)
      | inr live ↦
          scan-append start (trim_right kept separators) (b'-' ∷ suffix)
          ∙ ap (λ x. scan x (b'-' ∷ suffix)) live
          ∙ scan-hex_suffix suffix hexes e
    ]

All-take : (n : ℕ) (s : Str) → All (λ c. is_hex c ≡ true) s → All (λ c. is_hex c ≡ true) (take n s)
All-take zero s h = tt
All-take (suc n) [] h = tt
All-take (suc n) (c ∷ s) h = (h.0, All-take n s h.1)

module _ (sum256 : Str → List ℕ) (digest : IsDigest sum256) where
  digest_suffix-hex : (s : Str) → All (λ c. is_hex c ≡ true) (digest_suffix sum256 s)
  unfolding digest_suffix
  digest_suffix-hex s = All-take 8 (hex (sum256 s)) (hex-is_hex (sum256 s))

  shortened-IsSubdomain : (s : Str) → IsSubdomain s → IsSubdomain (shortened sum256 s)
  unfolding shortened bytes
  shortened-IsSubdomain [] h = cc
  shortened-IsSubdomain (c ∷ s) h =
      let eight = length-digest_suffix sum256 digest (c ∷ s) in
      rw eight
        (cut-IsSubdomain c s (digest_suffix sum256 (c ∷ s)) 53 h (digest_suffix-hex (c ∷ s)) eight)

  -- With a digest of 32 bytes, where the joined parts are a DNS-1123 subdomain, so is the name, cut
  -- short or not.
  pub tenant_child_name-IsSubdomain :
      (parts : List Str)
      → IsSubdomain (join parts (bytes "-"))
      → IsSubdomain (tenant_child_name sum256 parts)
  unfolding tenant_child_name
  tenant_child_name-IsSubdomain parts h =
      let s = join parts (bytes "-") in ground (arith, shortened-IsSubdomain s h)
