-- ===== src/Cluster/Exec/Emits.antt =====
-- A predicate on every call that an action makes, one rule for each way to build an action.
use inari_operator.Base.{◌≡◌, inl, inr, Bool, true, false, All, if◌then◌else◌}
use inari_operator.Cluster.Errors.{Result-cases, Error, Result, ok, err}
use inari_operator.Text.{Str}
use inari_operator.Cluster.Env.{Trace, Call}
use inari_operator.Cluster.Exec.{
  World, Exec, pure, raise, lift, ask, perform, wrapping, attempt, ◌>>=◌, continue,
}

-- If the calls so far satisfy the predicate, so do those of the action.
pub record Emits {ℓ} {A : Type ℓ} (P : Call → Type 0) (m : Exec A) : Type ℓ where
  pub all : (w : World) → All P w.trace → All P (m w).1.trace

module _ {ℓ} {A : Type ℓ} (P : Call → Type 0) where
  pub Emits-pure : (a : A) → Emits P (pure a)
  Emits-pure a = record { all = λ w h. h }

  pub Emits-raise : (e : Error) → Emits P (raise {A = A} e)
  Emits-raise e = record { all = λ w h. h }

  pub Emits-lift : (r : Result A) → Emits P (lift r)
  Emits-lift r = record { all = λ w h. h }

  pub Emits-ask : (c : Call) (f : Trace → Result A) → P c → Emits P (ask c f)
  Emits-ask c f p = record { all = λ w h. (p, h) }

  pub Emits-perform :
      (c : Result A → Call) (f : Trace → Result A)
      → ((t : Trace) → P (c (f t)))
      → Emits P (perform c f)
  Emits-perform c f p = record { all = λ w h. (p w.trace, h) }

  pub Emits-wrapping : (prefix : Str) (m : Exec A) → Emits P m → Emits P (wrapping prefix m)
  Emits-wrapping prefix m h = record { all = h.all }

  pub Emits-attempt : (m : Exec A) → Emits P m → Emits P (attempt m)
  unfolding attempt
  Emits-attempt m h = record { all = h.all }

  pub Emits-if : (b : Bool) (m k : Exec A) → Emits P m → Emits P k → Emits P (if b then m else k)
  Emits-if true m k hm hk = hm
  Emits-if false m k hm hk = hk

module _ {ℓ} {A B : Type ℓ} (P : Call → Type 0) where
  Emits-continue :
      (r : Result A) (f : A → Exec B) (w : World)
      → ((a : A) → Emits P (f a))
      → All P w.trace
      → All P (continue r f w).1.trace
  Emits-continue (ok a) f w h k = (h a).all w k
  Emits-continue (err e) f w h k = k

  pub Emits-bind :
      (m : Exec A) (f : A → Exec B) → Emits P m → ((a : A) → Emits P (f a)) → Emits P (m >>= f)
  unfolding ◌>>=◌
  Emits-bind m f hm hf = record { all = λ w h. Emits-continue (m w).0 f (m w).1 hf (hm.all w h) }

  -- What is known of the value that the first action returns may be used in the second.
  pub Emits-bind_known :
      (m : Exec A) (f : A → Exec B) (R : A → Type 0)
      → Emits P m
      → ((w v : World) (a : A) → m w ≡ (ok a, v) → R a)
      → ((a : A) → R a → Emits P (f a))
      → Emits P (m >>= f)
  unfolding ◌>>=◌
  Emits-bind_known m f R hm known hf = record {
    all = λ w h. elim (Result-cases (m w).0) [
      | inr (e, failed) ↦ rw failed (hm.all w h)
      | inl (a, went) ↦
          rw went ((hf a (known w (m w).1 a (λ i. (went i, (m w).1)))).all (m w).1 (hm.all w h))
    ];
  }

pub ruleset emits_rules =
    (Emits-pure, Emits-raise, Emits-lift, Emits-wrapping, Emits-attempt, Emits-if, Emits-bind)
