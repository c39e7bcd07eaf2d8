-- ===== src/Process.antt =====
-- The process of cmd/main.go until the manager runs: what it logs and asks of controller-runtime, in
-- order, and `os.Exit(1)`.
pub mod Laws
use inari_operator.Base.{Bool, Option, none, some, List, ◌∷◌}
use inari_operator.Text.{Str}
use inari_operator.Cluster.Errors.{Error, ok, err, Done}
use inari_operator.Cluster.Env.{Kind}

-- The fields of `ctrl.Options` that are set, less the scheme.
pub record ManagerOptions : Type 0 where
  pub metrics_bind_address : Str
  pub health_probe_bind_address : Str
  pub leader_election : Bool
  pub leader_election_id : Str

pub data Event : Type 0 where
  -- `setupLog.Info` and `setupLog.Error`, with the controller that it names, if it names one
  logged_info : Str → Event
  logged_error : Error → Str → Option Str → Event
  -- `ctrl.GetConfigOrDie` and `ctrl.NewManager`
  config_loaded : Done → Event
  manager_created : ManagerOptions → Done → Event
  -- `ctrl.NewControllerManagedBy(mgr).For(…).Complete(r)`
  completed : Kind → Done → Event
  health_check_added ready_check_added : Str → Done → Event
  -- `mgr.Start`, which returns when the process is told to stop
  manager_started : Done → Event

-- The answers of controller-runtime, which may depend on all that happened before, last event first.
pub record Runtime : Type 0 where
  pub get_config : List Event → Done
  pub new_manager : List Event → ManagerOptions → Done
  pub complete : List Event → Kind → Done
  pub add_healthz_check : List Event → Str → Done
  pub add_readyz_check : List Event → Str → Done
  pub start : List Event → Done

-- `none` is `os.Exit(1)`.
abbrev pub Process {ℓ} : Type ℓ → Type ℓ
Process A = List Event → Option A × List Event

abbrev pub exit {ℓ} : {A : Type ℓ} → Process A
exit t = (none, t)

abbrev pub return {ℓ} : {A : Type ℓ} → A → Process A
return a t = (some a, t)

abbrev pub note : Event → Process (Unit {0})
note e t = (some tt, e ∷ t)

-- A call of the runtime, recorded with its answer.
abbrev pub call : (Done → Event) → (List Event → Done) → Process Done
call c f t = let r = f t in (some r, c r ∷ t)

module _ {ℓ κ} {A : Type ℓ} {B : Type κ} where
  abbrev pub proceed : Option A → (A → Process B) → Process B
  proceed (some a) f t = f a t
  proceed none f t = (none, t)

  infixl 5 ◌>>=◌ ◌>>◌
  unfoldable pub ◌>>=◌ : Process A → (A → Process B) → Process B
  ◌>>=◌ m f t = let (r, t') = m t in proceed r f t'

  abbrev pub ◌>>◌ : Process A → Process B → Process B
  m >> k = m >>= λ _. k

exit_on : Str → Option Str → Done → Process (Unit {0})
exit_on message name (ok u) = return tt
exit_on message name (err e) = note (logged_error e message name) >> exit

-- `if err := …; err != nil { setupLog.Error(err, message, …); os.Exit(1) }`.
unfoldable pub must : Str → Option Str → Process Done → Process (Unit {0})
unfolding exit_on
must message name m = do r ← m; exit_on message name r

-- `SetupWithManager`, for the kind that the reconciler is `For`.
unfoldable pub set_up_for : Runtime → Kind → Process Done
set_up_for rt kind = call (completed kind) (λ t. rt.complete t kind)
