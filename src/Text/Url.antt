-- ===== src/Text/Url.antt =====
-- `url.PathEscape`, `url.QueryEscape` and `url.Values.Encode` of `net/url`.
pub mod Escape
use inari_operator.Base.{
  ℕ, ◌+◌, ◌-◌, ◌/◌, ◌%◌, Bool, true, false, ◌&&◌, ◌||◌, List, [], ◌∷◌, ◌++◌, leb, ltb, nat_beq,
  contains, nat_eq, if◌then◌else◌,
}
use inari_operator.Text.{Str, bytes}

abbrev upper_hex : ℕ → ℕ
upper_hex n = if ltb n 10 then b'0' + n else b'A' + (n - 10)

-- The bytes that both functions leave alone.
abbrev pub is_unreserved : ℕ → Bool
is_unreserved c =
    leb b'a' c && leb c b'z'
    || leb b'A' c && leb c b'Z'
    || leb b'0' c && leb c b'9'
    || nat_beq c b'-'
    || nat_beq c b'_'
    || nat_beq c b'.'
    || nat_beq c b'~'

-- The reserved bytes that may stand in a path segment: $ & + : = @.
abbrev pub is_segment_byte : ℕ → Bool
is_segment_byte c =
    nat_beq c b'$'
    || nat_beq c b'&'
    || nat_beq c b'+'
    || nat_beq c b':'
    || nat_beq c b'='
    || nat_beq c b'@'

abbrev pub percent : ℕ → Str
percent c = b'%' ∷ upper_hex (c / 16 % 16) ∷ upper_hex (c % 16) ∷ []

pub path_byte : ℕ → Str
path_byte c = if is_unreserved c || is_segment_byte c then c ∷ [] else percent c

unfoldable pub path_escape : Str → Str
unfolding path_byte
path_escape [] = []
path_escape (c ∷ s) = path_byte c ++ path_escape s

query_byte : ℕ → Str
query_byte c = if is_unreserved c then c ∷ [] else if nat_beq c b' ' then b'+' ∷ [] else percent c

unfoldable pub query_escape : Str → Str
unfolding query_byte
query_escape [] = []
query_escape (c ∷ s) = query_byte c ++ query_escape s

-- `Encode` of values whose keys are sorted and plain.
unfoldable pub encode_values : List (Str × Str) → Str
encode_values [] = []
encode_values ((k, v) ∷ []) = k ++ bytes "=" ++ query_escape v
encode_values ((k, v) ∷ w ∷ rest) =
    k ++ bytes "=" ++ query_escape v ++ bytes "&" ++ encode_values (w ∷ rest)
