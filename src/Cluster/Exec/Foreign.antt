-- ===== src/Cluster/Exec/Foreign.antt =====
-- Errors that are not `errNotFound`, one rule for each way to build an action.
use inari_operator.Base.{◌≡◌, refl, Bool, true, false, not, if◌then◌else◌}
use inari_operator.Text.{Str}
use inari_operator.Cluster.Errors.{Error, Result, ok, err, wrap, is_keycloak_not_found}
use inari_operator.Cluster.Env.{Env, Trace, Request}
use inari_operator.Cluster.Exec.{World, Exec, pure, raise, lift, wrapping, ◌>>=◌, continue}
use inari_operator.Cluster.Calls.{send}

-- `errors.Is(err, errNotFound)` does not hold.
abbrev pub is_foreign {ℓ} : {A : Type ℓ} → Result A → Bool
is_foreign (ok a) = true
is_foreign (err e) = not (is_keycloak_not_found e)

pub record Foreign {ℓ} {A : Type ℓ} (m : Exec A) : Type ℓ where
  pub holds : (w : World) → is_foreign (m w).0 ≡ true

is_foreign-wrap {ℓ} :
    {A : Type ℓ} (prefix : Str) (r : Result A) → is_foreign (wrap prefix r) ≡ is_foreign r
is_foreign-wrap prefix (ok a) = refl
is_foreign-wrap prefix (err e) = refl

module _ {ℓ} {A : Type ℓ} where
  pub Foreign-pure : (a : A) → Foreign (pure a)
  Foreign-pure a = record { holds = λ w. refl }

  pub Foreign-raise : (e : Error) → is_keycloak_not_found e ≡ false → Foreign (raise {A = A} e)
  Foreign-raise e h = record { holds = λ w. rw h refl }

  pub Foreign-lift : (r : Result A) → is_foreign r ≡ true → Foreign (lift r)
  Foreign-lift r h = record { holds = λ w. h }

  pub Foreign-wrapping : (prefix : Str) (m : Exec A) → Foreign m → Foreign (wrapping prefix m)
  Foreign-wrapping prefix m h = record {
    holds = λ w. rw (is_foreign-wrap prefix (m w).0) (h.holds w);
  }

  pub Foreign-if : (b : Bool) (m k : Exec A) → Foreign m → Foreign k → Foreign (if b then m else k)
  Foreign-if true m k hm hk = hm
  Foreign-if false m k hm hk = hk

module _ {ℓ} {A B : Type ℓ} where
  Foreign-continue :
      (r : Result A) (f : A → Exec B) (w : World)
      → is_foreign r ≡ true
      → ((a : A) → Foreign (f a))
      → is_foreign (continue r f w).0 ≡ true
  Foreign-continue (ok a) f w h k = (k a).holds w
  Foreign-continue (err e) f w h k = h

  pub Foreign-bind :
      (m : Exec A) (f : A → Exec B) → Foreign m → ((a : A) → Foreign (f a)) → Foreign (m >>= f)
  unfolding ◌>>=◌
  Foreign-bind m f hm hf = record {
    holds = λ w. Foreign-continue (m w).0 f (m w).1 (hm.holds w) hf;
  }

-- What is documented of the libraries: they return errors of their own.
pub record ReturnsForeign (env : Env) : Type 0 where
  pub parse_url : (url : Str) → is_foreign (env.parse_url url) ≡ true
  pub send : (t : Trace) (request : Request) → is_foreign (env.send t request) ≡ true
  pub decode_token : (body : Str) → is_foreign (env.json.decode_token body) ≡ true

pub Foreign-send :
    (env : Env) → ReturnsForeign env → (request : Request) → Foreign (send env request)
unfolding send
Foreign-send env foreign request = record { holds = λ w. foreign.send w.trace request }

pub ruleset foreign_rules = (
  Foreign-pure, Foreign-raise, Foreign-lift, Foreign-wrapping, Foreign-if, Foreign-bind,
  Foreign-send,
)
