-- ===== src/Cluster/Exec.antt =====
-- Functions that make calls and may return an error. What was done before the error stays done, so
-- the world comes back beside it.
pub mod Inversion
pub mod Sends
pub mod Emits
pub mod Keeps
pub mod Foreign
use inari_operator.Base.{ℕ, Bool, true, false, List, ◌∷◌}
use inari_operator.Text.{Str}
use inari_operator.Cluster.Errors.{Error, Result, ok, err, Done, wrap}
use inari_operator.Cluster.Env.{Env, Trace, Call}

-- The calls so far, and the cached token of the Keycloak client.
pub record World : Type 0 where
  pub trace : Trace
  pub token : Str
  pub token_exp : ℕ

abbrev pub Exec {ℓ} : Type ℓ → Type ℓ
Exec A = World → Result A × World

abbrev pub log : Call → World → World
log c w = record w { trace = c ∷ w.trace }

module _ {ℓ} {A : Type ℓ} where
  abbrev pub pure : A → Exec A
  pure a w = (ok a, w)

  abbrev pub raise : Error → Exec A
  raise e w = (err e, w)

  abbrev pub lift : Result A → Exec A
  lift r w = (r, w)

  -- A call whose answer the trace does not record.
  abbrev pub ask : Call → (Trace → Result A) → Exec A
  ask c f w = (f w.trace, log c w)

  -- A call that is recorded with its answer.
  abbrev pub perform : (Result A → Call) → (Trace → Result A) → Exec A
  perform c f w = let r = f w.trace in (r, log (c r) w)

  -- `x, err := m`: the error as a value.
  unfoldable pub attempt : Exec A → Exec (Result A)
  attempt m w = let (r, w') = m w in (ok r, w')

  abbrev pub wrapping : Str → Exec A → Exec A
  wrapping prefix m w = let (r, w') = m w in (wrap prefix r, w')

module _ {ℓ κ} {A : Type ℓ} {B : Type κ} where
  abbrev pub continue : Result A → (A → Exec B) → Exec B
  continue (ok a) f w = f a w
  continue (err e) f w = (err e, w)

  infixl 5 ◌>>=◌ ◌>>◌
  unfoldable pub ◌>>=◌ : Exec A → (A → Exec B) → Exec B
  ◌>>=◌ m f w = let (r, w') = m w in continue r f w'

  abbrev pub ◌>>◌ : Exec A → Exec B → Exec B
  m >> k = m >>= λ _. k
