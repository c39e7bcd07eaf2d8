-- ===== src/Cluster/Calls.antt =====
-- The calls as actions.
pub mod Writes
pub mod Keeps
use inari_operator.Base.{if◌then◌else◌}
use inari_operator.Text.{Str}
use inari_operator.Api.{Key}
use inari_operator.Api.Items.{Object}
use inari_operator.Cluster.Errors.{Result, ok}
use inari_operator.Cluster.Children.{Child, ChildKind}
use inari_operator.Cluster.Env.{
  Env, Trace, Actor, Kind, EventType, Request, Response, read, updated, status_updated, deleted,
  applied, connected, sent, emitted,
}
use inari_operator.Cluster.Exec.{Exec, ask, perform, log}

-- `r.Get` into an object of one kind.
abbrev pub fetch {ℓ} : {A : Type ℓ} → Kind → Key → (Trace → Key → Result A) → Exec A
fetch kind key get = ask (read kind key) (λ t. get t key)

module _ (env : Env) where
  unfoldable pub update : Object → Exec (Unit {0})
  update obj = perform (updated obj) (λ t. env.update t obj)

  unfoldable pub update_status : Object → Exec (Unit {0})
  update_status obj = perform (status_updated obj) (λ t. env.update_status t obj)

  unfoldable pub delete_child : Actor → ChildKind → Key → Exec (Unit {0})
  delete_child actor kind key =
      perform (deleted actor kind key) (λ t. env.delete_child t actor kind key)

  unfoldable pub create_or_update : Actor → Child → (Child → Result Child) → Exec Child
  create_or_update actor child mutate =
      perform (applied actor child.kind child.key) (λ t. env.create_or_update t actor child mutate)

  unfoldable pub connect : Str → Exec (Unit {0})
  connect user = perform (connected user) (λ t. env.new_client t user)

  unfoldable pub send : Request → Exec Response
  send request = perform (sent request) (λ t. env.send t request)

  -- `event` of internal/controller/common.go: nothing without a recorder.
  unfoldable pub event : Kind → Key → EventType → Str → Str → Exec (Unit {0})
  event kind key type reason message w =
      if env.has_recorder then (ok tt, log (emitted kind key type reason message) w) else (ok tt, w)
