-- ===== src/Text/Format.antt =====
-- The verbs %q and %d of `fmt`, and `hex.EncodeToString`. %q escapes as `strconv.Quote` does on ASCII;
-- bytes from 128 up, the printable runes of UTF-8, stand for themselves.
use inari_operator.Base.{
  ℕ, zero, suc, ◌+◌, ◌-◌, ◌/◌, ◌%◌, ◌≡◌, ◌||◌, List, [], ◌∷◌, ◌++◌, leb, ltb, nat_beq,
  if◌then◌else◌, All, length, arith, Bool, true, ◌&&◌,
}
use inari_operator.Text.{Str, bytes}

abbrev hex_digit : ℕ → ℕ
hex_digit n = if ltb n 10 then b'0' + n else b'a' + (n - 10)

-- `hex.EncodeToString`.
unfoldable pub hex : List ℕ → Str
hex [] = []
hex (x ∷ rest) = hex_digit (x / 16 % 16) ∷ hex_digit (x % 16) ∷ hex rest

escaped : ℕ → Str
unfolding bytes hex
escaped c =
    if nat_beq c b'"' || nat_beq c 92
    then 92 ∷ c ∷ []
    else if nat_beq c 7
    then bytes "\\a"
    else if nat_beq c 8
    then bytes "\\b"
    else if nat_beq c 12
    then bytes "\\f"
    else if nat_beq c 10
    then bytes "\\n"
    else if nat_beq c 13
    then bytes "\\r"
    else if nat_beq c 9
    then bytes "\\t"
    else if nat_beq c 11
    then bytes "\\v"
    else if ltb c 32 || nat_beq c 127
    then bytes "\\x" ++ hex (c ∷ [])
    else c ∷ []

escape : Str → Str
unfolding escaped
escape [] = []
escape (c ∷ s) = escaped c ++ escape s

-- The verb %q.
unfoldable pub quote : Str → Str
unfolding escape
quote s = b'"' ∷ escape s ++ (b'"' ∷ [])

digits_upto : ℕ → ℕ → Str → Str
digits_upto zero n rest = rest
digits_upto (suc fuel) n rest =
    let more = digits_upto fuel (n / 10) ((b'0' + n % 10) ∷ rest) in
    if ltb n 10 then (b'0' + n) ∷ rest else more

-- The verb %d: a number has fewer digits than it counts.
unfoldable pub decimal : ℕ → Str
unfolding digits_upto
decimal n = digits_upto (suc n) n []

-- `isHex` on lower case: the bytes that `hex` writes.
abbrev pub is_hex : ℕ → Bool
is_hex c = leb b'0' c && leb c b'9' || leb b'a' c && leb c b'f'

hex_digit-is_hex : (n : ℕ) → is_hex (hex_digit (n % 16)) ≡ true
hex_digit-is_hex n = ground arith

pub length-hex : (l : List ℕ) → length (hex l) ≡ length l + length l
unfolding hex
length-hex [] = omega arith
length-hex (x ∷ l) = omega (arith, length-hex l)

pub hex-is_hex : (l : List ℕ) → All (λ c. is_hex c ≡ true) (hex l)
unfolding hex
hex-is_hex [] = tt
hex-is_hex (x ∷ l) = (hex_digit-is_hex (x / 16), (hex_digit-is_hex x, hex-is_hex l))
