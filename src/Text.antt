-- ===== src/Text.antt =====
-- Go strings and the functions of `strings` and `fmt` that the operator calls. A string is its list
-- of bytes; the literals of the source are ASCII.
pub mod Format
pub mod Suffixes
pub mod Splits
pub mod Url
use Prim.Native.Char.{code}
use inari_operator.Base.{
  ℕ, zero, suc, ◌+◌, ◌-◌, ◌/◌, ◌%◌, ◌≡◌, refl, ap, ◌↔◌, Bool, true, false, ◌&&◌, ◌||◌, Option, none,
  some, List, [], ◌∷◌, ◌++◌, String, arith, Comparable, ◌==◌, nat_eq, nat_beq, nat_beq_iff, length,
  take, drop, contains, leb, ltb, if◌then◌else◌,
}

abbrev pub Str : Type 0
Str = List ℕ

-- A literal of the source.
unfoldable pub bytes : String → Str
bytes String.[] = []
bytes (String.◌∷◌ c s) = code c ∷ bytes s

unfoldable pub str_beq : Str → Str → Bool
str_beq [] [] = true
str_beq [] (y ∷ t) = false
str_beq (x ∷ s) [] = false
str_beq (x ∷ s) (y ∷ t) = nat_beq x y && str_beq s t

pub str_beq_iff : (s t : Str) → (str_beq s t ≡ true) ↔ (s ≡ t)
unfolding str_beq
str_beq_iff [] [] = (λ _. refl, λ _. refl)
str_beq_iff [] (y ∷ t) = (λ h. cc, λ h. cc)
str_beq_iff (x ∷ s) [] = (λ h. cc, λ h. cc)
str_beq_iff (x ∷ s) (y ∷ t) = ground (arith, str_beq_iff s t, nat_beq_iff x y)

instance abbrev pub str_eq : Comparable Str
str_eq = record { equals = str_beq; equals_iff = str_beq_iff }

-- `s == ""`.
abbrev pub is_empty : Str → Bool
is_empty [] = true
is_empty (x ∷ s) = false

-- `strings.HasSuffix`.
unfoldable pub has_suffix : Str → Str → Bool
has_suffix s suffix =
    leb (length suffix) (length s) && (drop (length s - length suffix) s == suffix)

-- `strings.TrimSuffix`.
unfoldable pub trim_suffix : Str → Str → Str
trim_suffix s suffix = if has_suffix s suffix then take (length s - length suffix) s else s

unfoldable pub trim_cons : Str → ℕ → Str → Str
trim_cons cutset x [] = if contains cutset x then [] else x ∷ []
trim_cons cutset x (y ∷ rest) = x ∷ y ∷ rest

-- `strings.TrimRight`.
unfoldable pub trim_right : Str → Str → Str
unfolding trim_cons
trim_right [] cutset = []
trim_right (x ∷ s) cutset = trim_cons cutset x (trim_right s cutset)

-- `strings.LastIndex` of a one-byte text; `none` is -1.
unfoldable pub last_index : Str → ℕ → Option ℕ
last_index [] c = none
last_index (x ∷ s) c = elim (last_index s c) [
  | some i ↦ some (suc i)
  | none ↦ if nat_beq x c then some 0 else none
]

-- `strings.ContainsAny`.
unfoldable pub contains_any : Str → Str → Bool
contains_any [] chars = false
contains_any (x ∷ s) chars = contains chars x || contains_any s chars

-- `strings.Join`.
unfoldable pub join : List Str → Str → Str
join [] sep = []
join (s ∷ []) sep = s
join (s ∷ t ∷ rest) sep = s ++ sep ++ join (t ∷ rest) sep

words_cons : ℕ → Bool → List Str → List Str
words_cons c fresh [] = (c ∷ []) ∷ []
words_cons c true (w ∷ ws) = (c ∷ []) ∷ w ∷ ws
words_cons c false (w ∷ ws) = (c ∷ w) ∷ ws

starts_with_space : Str → Bool
starts_with_space [] = true
starts_with_space (x ∷ s) = nat_beq x b' '

-- `strings.Fields` of a text whose only white space is the blank.
unfoldable pub fields : Str → List Str
unfolding words_cons starts_with_space
fields [] = []
fields (x ∷ s) =
    let rest = fields s in if nat_beq x b' ' then rest else words_cons x (starts_with_space s) rest
