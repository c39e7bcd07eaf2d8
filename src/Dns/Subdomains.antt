-- ===== src/Dns/Subdomains.antt =====
-- Which names lie in a zone, by the labels between the dots.
use inari_operator.Base.{
  ℕ, ◌≡◌, ◌↔◌, ◌⊎◌, inl, inr, refl, sym, ap, ◌∙◌, true, List, [], ◌∷◌, ◌++◌, arith, Bool-cases,
  nat_beq, nat_beq_iff, if◌then◌else◌, ==_iff, append_assoc, ◌==◌,
}
use inari_operator.Text.{Str, str_eq, bytes, has_suffix, trim_suffix}
use inari_operator.Text.Suffixes.{has_suffix_iff}
use inari_operator.Dns.{dns_names_in_zone}
use mathlib.Core.Bool.{◌||◌}

abbrev push : ℕ → List Str → List Str
push c [] = (c ∷ []) ∷ []
push c (l ∷ ls) = (c ∷ l) ∷ ls

-- The texts between the dots.
pub labels : Str → List Str
labels [] = [] ∷ []
labels (c ∷ s) = if nat_beq c b'.' then [] ∷ labels s else push c (labels s)

abbrev dotted : List Str → Str
dotted [] = []
dotted (l ∷ []) = l
dotted (l ∷ m ∷ ls) = l ++ b'.' ∷ dotted (m ∷ ls)

push-append : (c : ℕ) (l : Str) (ls ms : List Str) → push c ((l ∷ ls) ++ ms) ≡ push c (l ∷ ls) ++ ms
push-append c l ls ms = refl

labels-ne-nil : (s : Str) → (l : Str) × (ls : List Str) × (labels s ≡ l ∷ ls)
unfolding labels
labels-ne-nil [] = ([], [], refl)
labels-ne-nil (c ∷ s) =
    let (l, ls, e) = labels-ne-nil s in
    elim (Bool-cases (nat_beq c b'.')) [
      | inl h ↦ ([], labels s, rw h)
      | inr h ↦ (c ∷ l, ls, rw (h, e))
    ]

labels-append : (p z : Str) → labels (p ++ b'.' ∷ z) ≡ labels p ++ labels z
unfolding labels
labels-append [] z = refl
labels-append (c ∷ p) z =
    let (l, ls, e) = labels-ne-nil p in
    elim (Bool-cases (nat_beq c b'.')) [
      | inl h ↦ rw (h, labels-append p z)
      | inr h ↦ rw (h, labels-append p z, e)
    ]

dotted-push : (c : ℕ) (l : Str) (ls : List Str) → dotted (push c (l ∷ ls)) ≡ c ∷ dotted (l ∷ ls)
dotted-push c l [] = refl
dotted-push c l (m ∷ ls) = refl

dotted-labels : (s : Str) → dotted (labels s) ≡ s
unfolding labels
dotted-labels [] = refl
dotted-labels (c ∷ s) =
    let (l, ls, e) = labels-ne-nil s in
    let ih : dotted (l ∷ ls) ≡ s = rw e at (dotted-labels s) in
    elim (Bool-cases (nat_beq c b'.')) [
      | inl h ↦ rw (h, e) (ground (arith, nat_beq_iff c b'.'))
      | inr h ↦ rw (h, e) (dotted-push c l ls ∙ ap (λ r. c ∷ r) ih)
    ]

dotted-append :
    (l : Str) (ls : List Str) (m : Str) (ms : List Str)
    → dotted ((l ∷ ls) ++ m ∷ ms) ≡ dotted (l ∷ ls) ++ b'.' ∷ dotted (m ∷ ms)
dotted-append l [] m ms = refl
dotted-append l (k ∷ ls) m ms =
    rw (dotted-append k ls m ms)
      (sym (append_assoc l (b'.' ∷ dotted (k ∷ ls)) (b'.' ∷ dotted (m ∷ ms))))

-- `name` without a trailing dot, cut into its labels.
abbrev pub name_labels : Str → List Str
name_labels name = labels (trim_suffix name (bytes "."))

IsUnder : Str → Str → Type 0
IsUnder n z = (n ≡ z) ⊎ ((p : Str) × (n ≡ p ++ (bytes "." ++ z)))

in_zone_iff : (n z : Str) → ((n == z || has_suffix n (bytes "." ++ z)) ≡ true) ↔ IsUnder n z
unfolding IsUnder
in_zone_iff n z = ground (arith, ==_iff n z, has_suffix_iff n (bytes "." ++ z))

labels_of_under : (n z : Str) → IsUnder n z → (ls : List Str) × (labels n ≡ ls ++ labels z)
unfolding IsUnder bytes
labels_of_under n z (inl e) = ([], ap labels e)
labels_of_under n z (inr (p, e)) = (labels p, ap labels e ∙ labels-append p z)

IsUnder-of_labels : (n z : Str) (ls : List Str) → labels n ≡ ls ++ labels z → IsUnder n z
unfolding IsUnder bytes
IsUnder-of_labels n z [] e = inl (sym (dotted-labels n) ∙ ap dotted e ∙ dotted-labels z)
IsUnder-of_labels n z (l ∷ ls) e =
    let (m, ms, at) = labels-ne-nil z in
    let e' : labels n ≡ (l ∷ ls) ++ m ∷ ms = rw at at e in
    let z' : dotted (m ∷ ms) ≡ z = rw at at (dotted-labels z) in
    inr (
      dotted (l ∷ ls),
      sym (dotted-labels n)
          ∙ ap dotted e'
          ∙ dotted-append l ls m ms
          ∙ ap (λ r. dotted (l ∷ ls) ++ b'.' ∷ r) z',
    )

-- A name lies in a zone exactly when, trailing dots aside, its labels end in the labels of the zone.
pub dns_names_in_zone_iff :
    (name zone : Str)
    → (dns_names_in_zone name zone ≡ true)
      ↔ ((front : List Str) × (name_labels name ≡ front ++ name_labels zone))
unfolding dns_names_in_zone
dns_names_in_zone_iff name zone =
    let n = trim_suffix name (bytes ".") in
    let z = trim_suffix zone (bytes ".") in
    (
      λ h. labels_of_under n z ((in_zone_iff n z).0 h),
      λ w. (in_zone_iff n z).1 (IsUnder-of_labels n z w.0 w.1),
    )
