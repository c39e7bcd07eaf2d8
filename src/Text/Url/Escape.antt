-- ===== src/Text/Url/Escape.antt =====
-- What an escaped path segment holds, and that the text can be read back from it.
use inari_operator.Base.{
  ℕ, ◌+◌, ◌-◌, ◌*◌, ◌/◌, ◌%◌, ◌<◌, ◌≡◌, refl, ap, ◌∙◌, Bool, true, false, ◌||◌, [], ◌∷◌, ◌++◌,
  arith, ltb, nat_beq, nat_eq, All, Bool-cases, inl, inr, if◌then◌else◌, All-append,
}
use inari_operator.Text.{Str}
use inari_operator.Text.Url.{
  path_escape, path_byte, percent, upper_hex, is_unreserved, is_segment_byte,
}

-- Where a reader stands: outside an escape, after `%`, or after its first digit.
pub data Position : Type 0 where
  outside after_percent : Position
  after_digit : ℕ → Position

abbrev digit : ℕ → ℕ
digit c = if ltb c b'A' then c - b'0' else c - b'A' + 10

pub unescape : Position → Str → Str
unescape p [] = []
unescape outside (c ∷ s) =
    let plain = unescape outside s in
    let escaped = unescape after_percent s in if nat_beq c b'%' then escaped else c ∷ plain
unescape after_percent (c ∷ s) = unescape (after_digit (digit c)) s
unescape (after_digit d) (c ∷ s) = (16 * d + digit c) ∷ unescape outside s

digit-upper_hex : (n : ℕ) → n < 16 → digit (upper_hex n) ≡ n
digit-upper_hex n h = ground arith

kept-ne-percent : (c : ℕ) → (is_unreserved c || is_segment_byte c) ≡ true → nat_beq c b'%' ≡ false
kept-ne-percent c h = ground arith

unescape-percent :
    (c : ℕ) (rest : Str)
    → c < 256
    → unescape outside (percent c ++ rest) ≡ c ∷ unescape outside rest
unfolding unescape
unescape-percent c rest h =
    ap (λ d. d ∷ unescape outside rest)
      (omega (
        arith,
        digit-upper_hex (c / 16 % 16) (omega arith),
        digit-upper_hex (c % 16) (omega arith),
      ))

unescape-path_byte :
    (c : ℕ) (rest : Str)
    → c < 256
    → unescape outside (path_byte c ++ rest) ≡ c ∷ unescape outside rest
unfolding unescape path_byte
unescape-path_byte c rest h = elim (Bool-cases (is_unreserved c || is_segment_byte c)) [
  | inl kept ↦ rw (kept, kept-ne-percent c kept)
  | inr escaped ↦ rw escaped (unescape-percent c rest h)
]

-- A text of bytes is read back from its escaped form.
pub unescape-path_escape : (s : Str) → All (λ c. c < 256) s → unescape outside (path_escape s) ≡ s
unfolding path_escape unescape
unescape-path_escape [] h = refl
unescape-path_escape (c ∷ s) h =
    unescape-path_byte c (path_escape s) h.0 ∙ ap (λ r. c ∷ r) (unescape-path_escape s h.1)

-- The bytes that end a segment or a path.
abbrev pub ends_segment : ℕ → Bool
ends_segment c = nat_beq c b'/' || nat_beq c b'?' || nat_beq c b'#'

kept_within : (c : ℕ) → (is_unreserved c || is_segment_byte c) ≡ true → ends_segment c ≡ false
kept_within c h = ground arith

path_byte_within : (c : ℕ) → All (λ b. ends_segment b ≡ false) (path_byte c)
unfolding path_byte
path_byte_within c = elim (Bool-cases (is_unreserved c || is_segment_byte c)) [
  | inl kept ↦ rw kept (kept_within c kept, tt)
  | inr escaped ↦ rw escaped (refl, (ground arith, (ground arith, tt)))
]

-- Whatever the text, its escaped form is one segment: no byte of it is `/`, `?` or `#`.
pub path_escape_within : (s : Str) → All (λ b. ends_segment b ≡ false) (path_escape s)
unfolding path_escape
path_escape_within [] = tt
path_escape_within (c ∷ s) =
    All-append (λ b. ends_segment b ≡ false) (path_byte c) (path_escape s) (path_byte_within c)
      (path_escape_within s)
