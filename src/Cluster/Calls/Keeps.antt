-- ===== src/Cluster/Calls/Keeps.antt =====
-- The calls, for a view that does not show them.
use inari_operator.Base.{◌≡◌, refl, Bool-cases, ◌∷◌, inl, inr}
use inari_operator.Text.{Str}
use inari_operator.Api.{Key}
use inari_operator.Api.Items.{Object}
use inari_operator.Cluster.Errors.{Done, Result}
use inari_operator.Cluster.Children.{ChildKind, Child}
use inari_operator.Cluster.Env.{
  Env, Trace, Kind, EventType, Actor, read, updated, status_updated, deleted, connected, emitted,
  applied,
}
use inari_operator.Cluster.Exec.Keeps.{Keeps, applications, updates, keeps_rules}
use inari_operator.Cluster.Calls.{
  update, update_status, event, Result, connect, create_or_update, Child, applied,
}

-- The view shows only requests, `CreateOrUpdate` and `Update`.
pub record Ignores {X : Type 0} (view : Trace → X) : Type 0 where
  pub on_read : (k : Kind) (n : Key) (t : Trace) → view (read k n ∷ t) ≡ view t
  pub on_status_updated :
      (o : Object) (d : Done) (t : Trace) → view (status_updated o d ∷ t) ≡ view t
  pub on_deleted :
      (a : Actor) (k : ChildKind) (n : Key) (d : Done) (t : Trace)
      → view (deleted a k n d ∷ t) ≡ view t
  pub on_connected : (u : Str) (d : Done) (t : Trace) → view (connected u d ∷ t) ≡ view t
  pub on_emitted :
      (k : Kind) (n : Key) (e : EventType) (r m : Str) (t : Trace)
      → view (emitted k n e r m ∷ t) ≡ view t

pub Ignores-applications : Ignores applications
Ignores-applications = record {
  on_read = λ k n t. refl;
  on_status_updated = λ o d t. refl;
  on_deleted = λ a k n d t. refl;
  on_connected = λ u d t. refl;
  on_emitted = λ k n e r m t. refl;
}

module _ (env : Env) {X : Type 0} {view : Trace → X} (ignores : Ignores view) where
  pub Keeps-update_status : (obj : Object) → Keeps view (update_status env obj)
  unfolding update_status
  Keeps-update_status obj = record { same = λ w. ignores.on_status_updated obj _ w.trace }

  pub Keeps-event :
      (k : Kind) (n : Key) (e : EventType) (r m : Str) → Keeps view (event env k n e r m)
  unfolding event
  Keeps-event k n e r m = record {
    same = λ w. elim (Bool-cases env.has_recorder) [
      | inl recording ↦ rw recording (ignores.on_emitted k n e r m w.trace)
      | inr silent ↦ rw silent refl
    ];
  }

  pub Keeps-connect : (user : Str) → Keeps view (connect env user)
  unfolding connect
  Keeps-connect user = record { same = λ w. ignores.on_connected user _ w.trace }

-- The view shows no `Update` either.
abbrev pub IgnoresUpdated : {X : Type 0} → (Trace → X) → Type 0
IgnoresUpdated view = (o : Object) (d : Done) (t : Trace) → view (updated o d ∷ t) ≡ view t

pub IgnoresUpdated-applications : IgnoresUpdated applications
IgnoresUpdated-applications o d t = refl

pub Ignores-updates : Ignores updates
Ignores-updates = record {
  on_read = λ k n t. refl;
  on_status_updated = λ o d t. refl;
  on_deleted = λ a k n d t. refl;
  on_connected = λ u d t. refl;
  on_emitted = λ k n e r m t. refl;
}

pub Keeps-update :
    (env : Env) {X : Type 0} {view : Trace → X}
    → IgnoresUpdated view
    → (obj : Object) → Keeps view (update env obj)
unfolding update
Keeps-update env ignores obj = record { same = λ w. ignores obj _ w.trace }

-- The view shows no `CreateOrUpdate` either.
abbrev pub IgnoresApplied : {X : Type 0} → (Trace → X) → Type 0
IgnoresApplied view =
    (a : Actor) (k : ChildKind) (n : Key) (r : Result Child) (t : Trace)
    → view (applied a k n r ∷ t) ≡ view t

pub Keeps-create_or_update :
    (env : Env) {X : Type 0} {view : Trace → X}
    → IgnoresApplied view
    → (actor : Actor) (child : Child) (mutate : Child → Result Child)
    → Keeps view (create_or_update env actor child mutate)
unfolding create_or_update
Keeps-create_or_update env ignores actor child mutate = record {
  same = λ w. ignores actor child.kind child.key _ w.trace;
}

pub ruleset call_keeps_rules =
    (keeps_rules, Keeps-update, Keeps-update_status, Keeps-event, Keeps-connect)
