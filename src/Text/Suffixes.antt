-- ===== src/Text/Suffixes.antt =====
-- Laws of the suffix functions: what they test, and what they leave.
use inari_operator.Base.{
  ◌-◌, ◌≤◌, ◌≡◌, ◌↔◌, refl, sym, ap, true, false, [], ◌∷◌, ◌++◌, arith, length, take, drop,
  length-append, take-append-drop, drop-length-append, take-length-append, Bool-cases, ◌⊎◌, inl,
  inr, contains, ◌∙◌, nat_eq,
}
use inari_operator.Text.{Str, str_eq, str_beq_iff, has_suffix, trim_suffix, trim_right, trim_cons}

has_suffix_sound : (s t : Str) → has_suffix s t ≡ true → s ≡ take (length s - length t) s ++ t
unfolding has_suffix
has_suffix_sound s t h =
    let e : drop (length s - length t) s ≡ t =
      ground (arith, str_beq_iff (drop (length s - length t) s) t) in
    sym (take-append-drop (length s - length t) s) ∙ ap (λ r. take (length s - length t) s ++ r) e

append_length_sub : (p t : Str) → length (p ++ t) - length t ≡ length p
append_length_sub p t = omega (arith, length-append p t)

pub has_suffix-append : (p t : Str) → has_suffix (p ++ t) t ≡ true
unfolding has_suffix
has_suffix-append p t =
    rw (append_length_sub p t, drop-length-append p t)
      (ground (arith, length-append p t, str_beq_iff t t))

-- A text has a suffix exactly when it is some text followed by it.
pub has_suffix_iff : (s t : Str) → (has_suffix s t ≡ true) ↔ ((p : Str) × (s ≡ p ++ t))
has_suffix_iff s t = (
  λ h. (take (length s - length t) s, has_suffix_sound s t h),
  λ w. rw w.1 (has_suffix-append w.0 t),
)

pub trim_suffix-append : (p t : Str) → trim_suffix (p ++ t) t ≡ p
unfolding trim_suffix
trim_suffix-append p t = rw (has_suffix-append p t, append_length_sub p t) (take-length-append p t)

pub trim_suffix_none : (s t : Str) → has_suffix s t ≡ false → trim_suffix s t ≡ s
unfolding trim_suffix
trim_suffix_none s t h = rw h

pub trim_suffix_cases : (s t : Str) → (s ≡ trim_suffix s t ++ t) ⊎ (trim_suffix s t ≡ s)
trim_suffix_cases s t = elim (Bool-cases (has_suffix s t)) [
  | inl h ↦ inl (unfold trim_suffix in rw h (has_suffix_sound s t h))
  | inr h ↦ inr (trim_suffix_none s t h)
]

-- `trim_right` takes bytes away at the end.
pub trim_right-prefix : (s cutset : Str) → (q : Str) × (s ≡ trim_right s cutset ++ q)
unfolding trim_right
trim_right-prefix [] cutset = ([], refl)
trim_right-prefix (x ∷ s) cutset =
    let (q, e) = trim_right-prefix s cutset in go (trim_right s cutset) q e
  where
    go : (r q : Str) → s ≡ r ++ q → (q' : Str) × (x ∷ s ≡ trim_cons cutset x r ++ q')
    go [] q e = elim (Bool-cases (contains cutset x)) [
      | inl h ↦ (x ∷ q, rw h (ap (λ r. x ∷ r) e))
      | inr h ↦ (q, rw h (ap (λ r. x ∷ r) e))
    ]
    go (y ∷ r) q e = (q, ap (λ r. x ∷ r) e)

pub length-trim_right : (s cutset : Str) → length (trim_right s cutset) ≤ length s
length-trim_right s cutset =
    let (q, e) = trim_right-prefix s cutset in
    omega (arith, ap length e, length-append (trim_right s cutset) q)
