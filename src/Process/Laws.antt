-- ===== src/Process/Laws.antt =====
-- What a process that goes on went through, and which events it leaves out.
use inari_operator.Base.{
  sym, some-injective, ◌≡◌, refl, ap, Bool, Option, none, some, List, [], ◌∷◌, ◌∙◌, true, false,
  inl, inr, arith, if◌then◌else◌,
}
use inari_operator.Text.{Str}
use inari_operator.Cluster.Errors.{ok, err, Done, Result-cases}
use inari_operator.Cluster.Env.{Kind}
use inari_operator.Process.{
  Process, Runtime, Event, manager_started, exit, return, call, must, exit_on, proceed, set_up_for,
  ◌>>=◌,
}

module _ {ℓ κ} {A : Type ℓ} {B : Type κ} where
  proceed-eq-some :
      (o : Option A) (f : A → Process B) (t : List Event) {b : B} {v : List Event}
      → proceed o f t ≡ (some b, v)
      → (a : A) × (o ≡ some a) × (f a t ≡ (some b, v))
  proceed-eq-some (some a) f t h = (a, refl, h)
  proceed-eq-some none f t h = cc

  pub >>=-eq-some :
      (m : Process A) (f : A → Process B) (t : List Event) {b : B} {v : List Event}
      → (m >>= f) t ≡ (some b, v)
      → (a : A) × (u : List Event) × (m t ≡ (some a, u)) × (f a u ≡ (some b, v))
  unfolding ◌>>=◌
  >>=-eq-some m f t h =
      let (a, e, e') = proceed-eq-some (m t).0 f (m t).1 h in (a, (m t).1, λ i. (e i, (m t).1), e')

pub return-eq-some {ℓ} :
    {A : Type ℓ} (a : A) (t : List Event) {b : A} {v : List Event}
    → return a t ≡ (some b, v)
    → (b ≡ a) × (v ≡ t)
return-eq-some a t {b} h = (sym (some-injective a b (ap (λ p. p.0) h)), sym (ap (λ p. p.1) h))

pub must-eq-some :
    (message : Str) (name : Option Str) (c : Done → Event) (f : List Event → Done) (t : List Event)
    {u : Unit {0}} {v : List Event}
    → must message name (call c f) t ≡ (some u, v)
    → v ≡ c (ok tt) ∷ t
unfolding must exit_on ◌>>=◌
must-eq-some message name c f t h = elim (Result-cases (f t)) [
  | inl (x, e) ↦ ground (arith, e)
  | inr (x, e) ↦ ground (arith, e)
]

-- The starts of the manager.
abbrev pub starts : List Event → List Done
starts [] = []
starts (manager_started r ∷ t) = r ∷ starts t
starts (_ ∷ t) = starts t

-- The process does not start the manager.
pub record Waits {ℓ} {A : Type ℓ} (m : Process A) : Type ℓ where
  pub same : (t : List Event) → starts (m t).1 ≡ starts t

module _ {ℓ} {A : Type ℓ} where
  pub Waits-return : (a : A) → Waits (return a)
  Waits-return a = record { same = λ t. refl }

  pub Waits-exit : Waits (exit {A = A})
  Waits-exit = record { same = λ t. refl }

  pub Waits-if : (b : Bool) (m k : Process A) → Waits m → Waits k → Waits (if b then m else k)
  Waits-if true m k hm hk = hm
  Waits-if false m k hm hk = hk

module _ {ℓ} {A B : Type ℓ} where
  Waits-proceed :
      (o : Option A) (f : A → Process B) (t : List Event)
      → ((a : A) → Waits (f a))
      → starts (proceed o f t).1 ≡ starts t
  Waits-proceed (some a) f t h = (h a).same t
  Waits-proceed none f t h = refl

  pub Waits-bind :
      (m : Process A) (f : A → Process B) → Waits m → ((a : A) → Waits (f a)) → Waits (m >>= f)
  unfolding ◌>>=◌
  Waits-bind m f hm hf = record { same = λ t. Waits-proceed (m t).0 f (m t).1 hf ∙ hm.same t }

Waits-exit_on : (message : Str) (name : Option Str) (r : Done) → Waits (exit_on message name r)
unfolding exit_on ◌>>=◌
Waits-exit_on message name (ok u) = record { same = λ t. refl }
Waits-exit_on message name (err e) = record { same = λ t. refl }

pub Waits-must :
    (message : Str) (name : Option Str) (m : Process Done) → Waits m → Waits (must message name m)
unfolding must
Waits-must message name m h = Waits-bind _ _ h (Waits-exit_on message name)

pub Waits-set_up_for : (rt : Runtime) (kind : Kind) → Waits (set_up_for rt kind)
unfolding set_up_for
Waits-set_up_for rt kind = record { same = λ t. refl }

pub ruleset waits_rules =
    (Waits-return, Waits-exit, Waits-if, Waits-must, Waits-set_up_for, Waits-bind)
