-- ===== src/Base/Equality.antt =====
-- Go's `==` on comparable values, for every type that has an instance.
use Prim.Native.Nat.{ℕ}
use mathlib.Core.Path.{◌≡◌, refl}
use mathlib.Core.Logic.{◌↔◌}
use mathlib.Core.Bool.{Bool, true, false, ◌||◌}
use mathlib.Core.List.{List, [], ◌∷◌}
use inari_operator.Base.Tests.{nat_beq, nat_beq_iff}

-- Go's comparable types: a test that decides equality.
pub record Comparable {ℓ} (A : Type ℓ) : Type ℓ where
  pub equals : A → A → Bool
  pub equals_iff : (x y : A) → (equals x y ≡ true) ↔ (x ≡ y)

module _ {ℓ} {A : Type ℓ} ⦃c : Comparable A⦄ where
  infix 50 ◌==◌
  abbrev pub ◌==◌ : A → A → Bool
  ◌==◌ = c.equals

  pub ==_iff : (x y : A) → ((x == y) ≡ true) ↔ (x ≡ y)
  ==_iff x y = c.equals_iff x y

  pub ==_refl : (x : A) → (x == x) ≡ true
  ==_refl x = (c.equals_iff x x).1 refl

  -- `slices.Contains`.
  abbrev pub contains : List A → A → Bool
  contains [] wanted = false
  contains (x ∷ rest) wanted = x == wanted || contains rest wanted

instance abbrev pub nat_eq : Comparable ℕ
nat_eq = record { equals = nat_beq; equals_iff = nat_beq_iff }
