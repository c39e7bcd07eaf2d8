-- ===== src/Cluster/Exec/Inversion.antt =====
-- What a chain of actions that succeeds went through.
use inari_operator.Base.{◌⊎◌, inl, inr, ◌≡◌, refl, ap, sym, ◌∷◌, ◌∙◌}
use inari_operator.Cluster.Errors.{Error, Result, ok, err, wrap}
use inari_operator.Cluster.Calls.{send}
use inari_operator.Text.{Str}
use inari_operator.Cluster.Exec.{World, Exec, ◌>>=◌, wrapping, continue, lift, Env, log}
use inari_operator.Cluster.Env.{Request, Response, sent}

module _ {ℓ κ} {A : Type ℓ} {B : Type κ} where
  continue-eq-ok :
      (r : Result A) (w : World) (f : A → Exec B) {b : B} {v : World}
      → continue r f w ≡ (ok b, v)
      → (a : A) × (r ≡ ok a) × (f a w ≡ (ok b, v))
  continue-eq-ok (ok a) w f h = (a, refl, h)
  continue-eq-ok (err e) w f h = cc

  pub >>=-eq-ok :
      (m : Exec A) (f : A → Exec B) (w : World) {b : B} {v : World}
      → (m >>= f) w ≡ (ok b, v)
      → (a : A) × (u : World) × (m w ≡ (ok a, u)) × (f a u ≡ (ok b, v))
  unfolding ◌>>=◌
  >>=-eq-ok m f w h =
      let (a, e, e') = continue-eq-ok (m w).0 (m w).1 f h in (a, (m w).1, λ i. (e i, (m w).1), e')

module _ {ℓ κ} {A : Type ℓ} {B : Type κ} where
  recast :
      (x : Error) {e : Error}
      → ◌≡◌ {A = Result B} (err x) (err e)
      → ◌≡◌ {A = Result A} (err x) (err e)
  recast x h = ap (λ r. elim r [ ok b ↦ err x | err y ↦ err y ]) h

  continue-eq-err :
      (r : Result A) (w : World) (f : A → Exec B) {e : Error} {v : World}
      → continue r f w ≡ (err e, v)
      → ((r ≡ err e) × (w ≡ v)) ⊎ ((a : A) × (r ≡ ok a) × (f a w ≡ (err e, v)))
  continue-eq-err (ok a) w f h = inr (a, refl, h)
  continue-eq-err (err x) w f h = inl (recast x (ap (λ p. p.0) h), ap (λ p. p.1) h)

  -- What a chain of actions that fails went through.
  pub >>=-eq-err :
      (m : Exec A) (f : A → Exec B) (w : World) {e : Error} {v : World}
      → (m >>= f) w ≡ (err e, v)
      → (m w ≡ (err e, v)) ⊎ ((a : A) × (u : World) × (m w ≡ (ok a, u)) × (f a u ≡ (err e, v)))
  unfolding ◌>>=◌
  >>=-eq-err m f w h = elim (continue-eq-err (m w).0 (m w).1 f h) [
    | inl (failed, same) ↦ inl (λ i. (failed i, same i))
    | inr (a, went, rest) ↦ inr (a, (m w).1, λ i. (went i, (m w).1), rest)
  ]

module _ {ℓ} {A : Type ℓ} where
  wrap-eq-ok : (prefix : Str) (r : Result A) {a : A} → wrap prefix r ≡ ok a → r ≡ ok a
  wrap-eq-ok prefix (ok a) h = h
  wrap-eq-ok prefix (err e) h = cc

  pub wrapping-eq-ok :
      (prefix : Str) (m : Exec A) (w : World) {a : A} {v : World}
      → wrapping prefix m w ≡ (ok a, v)
      → m w ≡ (ok a, v)
  wrapping-eq-ok prefix m w h = λ i. (wrap-eq-ok prefix (m w).0 (ap (λ p. p.0) h) i, (h i).1)

  pub lift-eq-ok : (r : Result A) (w : World) {a : A} {v : World} → lift r w ≡ (ok a, v) → v ≡ w
  lift-eq-ok r w h = λ i. (sym h i).1

pub send-eq-ok :
    (env : Env) (request : Request) (w : World) {resp : Response} {v : World}
    → send env request w ≡ (ok resp, v)
    → v.trace ≡ sent request (ok resp) ∷ w.trace
unfolding send
send-eq-ok env request w {resp} {v} h =
    let answer : env.send w.trace request ≡ ok resp = ap (λ p. p.0) h in
    let world : log (sent request (env.send w.trace request)) w ≡ v = ap (λ p. p.1) h in
    sym (ap (λ u. u.trace) world) ∙ ap (λ r. sent request r ∷ w.trace) answer
