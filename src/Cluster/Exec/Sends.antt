-- ===== src/Cluster/Exec/Sends.antt =====
-- A bound on the requests that an action sends, one rule for each way to build an action.
use inari_operator.Base.{ℕ, suc, ◌+◌, ◌≤◌, Bool, true, false, [], ◌∷◌, arith, if◌then◌else◌}
use inari_operator.Text.{Str}
use inari_operator.Cluster.Errors.{Error, Result, ok, err}
use inari_operator.Cluster.Env.{Env, Trace, Request, sent}
use inari_operator.Cluster.Exec.{World, Exec, pure, raise, lift, wrapping, attempt, ◌>>=◌, continue}
use inari_operator.Cluster.Calls.{send}

-- How many requests a trace holds.
abbrev pub requests : Trace → ℕ
requests [] = 0
requests (sent _ _ ∷ t) = suc (requests t)
requests (_ ∷ t) = requests t

pub record Sends {ℓ} {A : Type ℓ} (n : ℕ) (m : Exec A) : Type ℓ where
  pub at_most : (w : World) → requests (m w).1.trace ≤ requests w.trace + n

module _ {ℓ} {A : Type ℓ} where
  pub Sends-pure : (a : A) → Sends 0 (pure a)
  Sends-pure a = record { at_most = λ w. omega arith }

  pub Sends-raise : (e : Error) → Sends 0 (raise {A = A} e)
  Sends-raise e = record { at_most = λ w. omega arith }

  pub Sends-lift : (r : Result A) → Sends 0 (lift r)
  Sends-lift r = record { at_most = λ w. omega arith }

  pub Sends-wrapping : {n : ℕ} (prefix : Str) (m : Exec A) → Sends n m → Sends n (wrapping prefix m)
  Sends-wrapping prefix m h = record { at_most = h.at_most }

  pub Sends-attempt : {n : ℕ} (m : Exec A) → Sends n m → Sends n (attempt m)
  unfolding attempt
  Sends-attempt m h = record { at_most = h.at_most }

  pub Sends-if :
      {n : ℕ} (b : Bool) (m k : Exec A) → Sends n m → Sends n k → Sends n (if b then m else k)
  Sends-if true m k hm hk = hm
  Sends-if false m k hm hk = hk

  pub Sends-le : {n k : ℕ} (m : Exec A) → Sends n m → n ≤ k → Sends k m
  Sends-le m h le = record { at_most = λ w. omega (arith, h.at_most w) }

module _ {ℓ} {A B : Type ℓ} where
  Sends-continue :
      (k : ℕ) (r : Result A) (f : A → Exec B) (w : World)
      → ((a : A) → Sends k (f a))
      → requests (continue r f w).1.trace ≤ requests w.trace + k
  Sends-continue k (ok a) f w h = (h a).at_most w
  Sends-continue k (err e) f w h = omega arith

  pub Sends-bind :
      {n k : ℕ} (m : Exec A) (f : A → Exec B)
      → Sends n m
      → ((a : A) → Sends k (f a))
      → Sends (n + k) (m >>= f)
  unfolding ◌>>=◌
  Sends-bind {n} {k} m f hm hf = record {
    at_most = λ w. omega (arith, hm.at_most w, Sends-continue k (m w).0 f (m w).1 hf);
  }

pub Sends-send : (env : Env) (request : Request) → Sends 1 (send env request)
unfolding send
Sends-send env request = record { at_most = λ w. omega arith }
