-- ===== src/Cluster/Exec/Keeps.antt =====
-- What an action leaves as it was in the trace, one rule for each way to build an action.
use inari_operator.Base.{◌≡◌, refl, ◌∙◌, Bool, true, false, List, [], ◌∷◌, if◌then◌else◌}
use inari_operator.Text.{Str}
use inari_operator.Cluster.Errors.{Error, Result, ok, err}
use inari_operator.Cluster.Env.{Trace, Call, applied, updated}
use inari_operator.Cluster.Exec.{World, Exec, pure, raise, lift, wrapping, attempt, ◌>>=◌, continue}

-- The writes by `CreateOrUpdate` in a trace.
abbrev pub applications : Trace → List Call
applications [] = []
applications (applied a k n r ∷ t) = applied a k n r ∷ applications t
applications (_ ∷ t) = applications t

-- The calls of `Update` in a trace.
abbrev pub updates : Trace → List Call
updates [] = []
updates (updated o d ∷ t) = updated o d ∷ updates t
updates (_ ∷ t) = updates t

-- The action changes nothing of what the view shows of the trace.
pub record Keeps {ℓ} {A : Type ℓ} {X : Type 0} (view : Trace → X) (m : Exec A) : Type ℓ where
  pub same : (w : World) → view (m w).1.trace ≡ view w.trace

module _ {ℓ} {A : Type ℓ} {X : Type 0} (view : Trace → X) where
  pub Keeps-pure : (a : A) → Keeps view (pure a)
  Keeps-pure a = record { same = λ w. refl }

  pub Keeps-raise : (e : Error) → Keeps view (raise {A = A} e)
  Keeps-raise e = record { same = λ w. refl }

  pub Keeps-lift : (r : Result A) → Keeps view (lift r)
  Keeps-lift r = record { same = λ w. refl }

  pub Keeps-wrapping : (prefix : Str) (m : Exec A) → Keeps view m → Keeps view (wrapping prefix m)
  Keeps-wrapping prefix m h = record { same = h.same }

  pub Keeps-attempt : (m : Exec A) → Keeps view m → Keeps view (attempt m)
  unfolding attempt
  Keeps-attempt m h = record { same = h.same }

  pub Keeps-if :
      (b : Bool) (m k : Exec A) → Keeps view m → Keeps view k → Keeps view (if b then m else k)
  Keeps-if true m k hm hk = hm
  Keeps-if false m k hm hk = hk

module _ {ℓ} {A B : Type ℓ} {X : Type 0} (view : Trace → X) where
  Keeps-continue :
      (r : Result A) (f : A → Exec B) (w : World)
      → ((a : A) → Keeps view (f a))
      → view (continue r f w).1.trace ≡ view w.trace
  Keeps-continue (ok a) f w h = (h a).same w
  Keeps-continue (err e) f w h = refl

  pub Keeps-bind :
      (m : Exec A) (f : A → Exec B)
      → Keeps view m
      → ((a : A) → Keeps view (f a))
      → Keeps view (m >>= f)
  unfolding ◌>>=◌
  Keeps-bind m f hm hf = record { same = λ w. Keeps-continue (m w).0 f (m w).1 hf ∙ hm.same w }

pub ruleset keeps_rules =
    (Keeps-pure, Keeps-raise, Keeps-lift, Keeps-wrapping, Keeps-attempt, Keeps-if, Keeps-bind)
