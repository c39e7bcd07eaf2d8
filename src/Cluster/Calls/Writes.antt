-- ===== src/Cluster/Calls/Writes.antt =====
-- What the calls add to a trace, for a predicate that only restricts what is written.
use inari_operator.Base.{◌≡◌, inl, inr, Bool-cases}
use inari_operator.Text.{Str}
use inari_operator.Api.{Key}
use inari_operator.Api.Items.{Object}
use inari_operator.Cluster.Errors.{Error, Result, ok, err, Result-cases, Done}
use inari_operator.Cluster.Children.{Child, ChildKind}
use inari_operator.Cluster.Children.Labelled.{AppliesMutate}
use inari_operator.Cluster.Env.{
  read, updated, status_updated, deleted, connected, sent, emitted, Request, Response, Env, Call,
  Actor, Kind, EventType, applied, Trace,
}
use inari_operator.Cluster.Calls.{
  send, update_status, delete_child, create_or_update, connect, event, fetch,
}
use inari_operator.Cluster.Exec.Emits.{Emits, emits_rules}

-- The predicate holds of every call but a `CreateOrUpdate` that succeeds.
pub record OnlyWrites (P : Call → Type 0) : Type 0 where
  pub on_read : (k : Kind) (n : Key) → P (read k n)
  pub on_updated : (o : Object) (d : Done) → P (updated o d)
  pub on_status_updated : (o : Object) (d : Done) → P (status_updated o d)
  pub on_deleted : (a : Actor) (k : ChildKind) (n : Key) (d : Done) → P (deleted a k n d)
  pub on_refused : (a : Actor) (k : ChildKind) (n : Key) (e : Error) → P (applied a k n (err e))
  pub on_connected : (u : Str) (d : Done) → P (connected u d)
  pub on_sent : (r : Request) (a : Result Response) → P (sent r a)
  pub on_emitted : (k : Kind) (n : Key) (t : EventType) (r m : Str) → P (emitted k n t r m)

module _ (env : Env) {P : Call → Type 0} (only : OnlyWrites P) where
  pub Emits-update_status : (obj : Object) → Emits P (update_status env obj)
  unfolding update_status
  Emits-update_status obj = record { all = λ w h. (only.on_status_updated obj _, h) }

  pub Emits-delete_child : (a : Actor) (k : ChildKind) (n : Key) → Emits P (delete_child env a k n)
  unfolding delete_child
  Emits-delete_child a k n = record { all = λ w h. (only.on_deleted a k n _, h) }

  pub Emits-connect : (u : Str) → Emits P (connect env u)
  unfolding connect
  Emits-connect u = record { all = λ w h. (only.on_connected u _, h) }

  pub Emits-event : (k : Kind) (n : Key) (t : EventType) (r m : Str) → Emits P (event env k n t r m)
  unfolding event
  Emits-event k n t r m = record {
    all = λ w h. elim (Bool-cases env.has_recorder) [
      | inl recording ↦ rw recording (only.on_emitted k n t r m, h)
      | inr silent ↦ rw silent h
    ];
  }

  pub Emits-fetch :
      {A : Type 0} (k : Kind) (n : Key) (f : Trace → Key → Result A) → Emits P (fetch k n f)
  Emits-fetch k n f = record { all = λ w h. (only.on_read k n, h) }

  pub Emits-send : (r : Request) → Emits P (send env r)
  unfolding send
  Emits-send r = record { all = λ w h. (only.on_sent r _, h) }

  pub Emits-create_or_update :
      AppliesMutate env
      → (a : Actor) (child : Child) (mutate : Child → Result Child)
      → ((found left : Child)
          → mutate found ≡ ok left
          → P (applied a child.kind child.key (ok left)))
      → Emits P (create_or_update env a child mutate)
  unfolding create_or_update
  Emits-create_or_update lawful a child mutate writes = record {
    all = λ w h. elim (Result-cases (env.create_or_update w.trace a child mutate)) [
      | inl (left, e) ↦
          let (found, made) = lawful w.trace a child mutate left e in
          rw e (writes found left made, h)
      | inr (x, e) ↦ rw e (only.on_refused a child.kind child.key x, h)
    ];
  }

pub ruleset call_rules = (
  emits_rules, Emits-update_status, Emits-delete_child, Emits-connect, Emits-event, Emits-fetch,
  Emits-send,
)
