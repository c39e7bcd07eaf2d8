-- ===== src/Text/Splits.antt =====
-- Laws of `last_index`, `contains` on bytes and `join`.
use inari_operator.Base.{
  ℕ, suc, ◌≤◌, ◌<◌, ◌≡◌, refl, ap, true, false, none, some, [], ◌∷◌, ◌++◌, arith, length, contains,
  nat_eq, take, drop, inl, inr, Option-cases, nat_beq_iff,
}
use mathlib.Core.Bool.{◌||◌}
use inari_operator.Text.{Str, last_index}

pub last_index-none : (s : Str) (c : ℕ) → contains s c ≡ false → last_index s c ≡ none
unfolding last_index
last_index-none [] c h = refl
last_index-none (x ∷ s) c h = ground (arith, last_index-none s c)

pub contains_of_last_index : (s : Str) (c : ℕ) → last_index s c ≡ none → contains s c ≡ false
unfolding last_index
contains_of_last_index [] c h = refl
contains_of_last_index (x ∷ s) c h = ground (arith, contains_of_last_index s c)

-- The last occurrence splits the text, and the byte does not stand behind it.
pub last_index_split :
    (s : Str) (c i : ℕ)
    → last_index s c ≡ some i
    → (s ≡ take i s ++ c ∷ drop (suc i) s) × (contains (drop (suc i) s) c ≡ false) × (i < length s)
unfolding last_index
last_index_split [] c i h = cc
last_index_split (x ∷ s) c i h = elim (Option-cases (last_index s c)) [
  | inl e ↦
      let head : (i ≡ 0) × (x ≡ c) = ground (arith, nat_beq_iff x c) in
      rw (head.0, head.1) (refl, contains_of_last_index s c e, omega arith)
  | inr (j, e) ↦
      let at : i ≡ suc j = ground arith in
      let (eq, free, lt) = last_index_split s c j e in rw at (ap (λ r. x ∷ r) eq, free, omega arith)
]

-- The last occurrence of a byte that the rest does not hold.
pub last_index-append :
    (r : Str) (c : ℕ) (t : Str) → contains t c ≡ false → last_index (r ++ c ∷ t) c ≡ some (length r)
unfolding last_index
last_index-append [] c t h = rw (last_index-none t c h) (ground (arith, nat_beq_iff c c))
last_index-append (x ∷ r) c t h = rw (last_index-append r c t h)

-- A byte that a tail does not hold has its last occurrence before the tail.
pub last_index-append_before :
    (r : Str) (c : ℕ) (t : Str) → contains t c ≡ false → last_index (r ++ t) c ≡ last_index r c
unfolding last_index
last_index-append_before [] c t h = last_index-none t c h
last_index-append_before (x ∷ r) c t h = rw (last_index-append_before r c t h)

pub last_index-lt : (s : Str) (c i : ℕ) → last_index s c ≡ some i → i < length s
last_index-lt s c i h = (last_index_split s c i h).2

-- A byte that a tail holds has its last occurrence in that tail.
pub last_index-append_in :
    (r : Str) (c : ℕ) (t : Str)
    → contains t c ≡ true
    → (j : ℕ) × (last_index (r ++ t) c ≡ some j) × (length r ≤ j)
unfolding last_index
last_index-append_in [] c t h = elim (Option-cases (last_index t c)) [
  | inl e ↦ cc (contains_of_last_index t c e)
  | inr (j, e) ↦ (j, e, omega arith)
]
last_index-append_in (x ∷ r) c t h =
    let (j, e, le) = last_index-append_in r c t h in (suc j, rw e, omega arith)

pub contains-append : (r t : Str) (c : ℕ) → contains (r ++ t) c ≡ (contains r c || contains t c)
contains-append [] t c = refl
contains-append (x ∷ r) t c = ground (arith, contains-append r t c)
