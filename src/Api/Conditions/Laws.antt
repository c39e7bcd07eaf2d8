-- ===== src/Api/Conditions/Laws.antt =====
-- What the three functions leave in the list, for any lawful list functions.
use inari_operator.Base.{
  ℕ, ◌≡◌, Bool, true, false, Option, none, some, List, ◌==◌, nat_eq, if◌then◌else◌,
}
use inari_operator.Text.{Str, bytes, str_eq, str_beq}
use inari_operator.Api.{Condition, true_status, false_status}
use inari_operator.Api.Conditions.{
  ConditionList, IsLawful, ConditionType, ready, reconciling, failed, type_name, condition,
  reason_error, reason_reconciling, set_ready, set_failed, set_reconciling, status_conditions_ready,
}

abbrev same_type : ConditionType → ConditionType → Bool
same_type ready ready = true
same_type reconciling reconciling = true
same_type failed failed = true
same_type _ _ = false

module _ (meta : ConditionList) (lawful : IsLawful meta) where
  open meta use {find_status_condition as find}

  -- The three conditions that a list records.
  abbrev pub view : List Condition → ConditionType → Option Condition
  view cs t = find cs (type_name t)

  -- With list functions that behave as documented, `SetReady` records Ready=True for the generation
  -- and clears the other two.
  pub view-set_ready :
      (cs : List Condition) (generation : ℕ) (reason message : Str) (t : ConditionType)
      → view (set_ready meta cs generation reason message) t ≡ (
          if same_type t ready
          then some (condition ready true_status generation reason message)
          else none)
  unfolding set_ready bytes str_beq
  view-set_ready cs generation reason message ready = simp (lawful.find-set, lawful.find-remove)
  view-set_ready cs generation reason message reconciling = simp lawful.find-remove
  view-set_ready cs generation reason message failed = simp lawful.find-remove

  -- With list functions that behave as documented, `SetFailed` records Failed=True and Ready=False,
  -- and leaves Reconciling as it was.
  pub view-set_failed :
      (cs : List Condition) (generation : ℕ) (message : Str) (t : ConditionType)
      → view (set_failed meta cs generation message) t ≡ (
          if same_type t reconciling
          then view cs reconciling
          else if same_type t failed
          then some (condition failed true_status generation reason_error message)
          else some (condition ready false_status generation reason_error message))
  unfolding set_failed bytes str_beq
  view-set_failed cs generation message ready = simp lawful.find-set
  view-set_failed cs generation message reconciling = simp lawful.find-set
  view-set_failed cs generation message failed = simp lawful.find-set

  -- With list functions that behave as documented, `SetReconciling` records Reconciling=True and
  -- Ready=False, and leaves Failed as it was.
  pub view-set_reconciling :
      (cs : List Condition) (generation : ℕ) (message : Str) (t : ConditionType)
      → view (set_reconciling meta cs generation message) t ≡ (
          if same_type t failed
          then view cs failed
          else if same_type t reconciling
          then some (condition reconciling true_status generation reason_reconciling message)
          else some (condition ready false_status generation reason_reconciling message))
  unfolding set_reconciling bytes str_beq
  view-set_reconciling cs generation message ready = simp lawful.find-set
  view-set_reconciling cs generation message reconciling = simp lawful.find-set
  view-set_reconciling cs generation message failed = simp lawful.find-set

  -- With list functions that behave as documented, after `SetReady` the idempotence test holds for
  -- that generation and for no other.
  pub status_conditions_ready-set_ready :
      (cs : List Condition) (generation other : ℕ) (reason message : Str)
      → status_conditions_ready meta (set_ready meta cs generation reason message) other
        ≡ (generation == other)
  unfolding status_conditions_ready
  status_conditions_ready-set_ready cs generation other reason message =
      rw (view-set_ready cs generation reason message ready)

  -- With list functions that behave as documented, after `SetFailed` the idempotence test fails for
  -- every generation.
  pub status_conditions_ready-set_failed :
      (cs : List Condition) (generation other : ℕ) (message : Str)
      → status_conditions_ready meta (set_failed meta cs generation message) other ≡ false
  unfolding status_conditions_ready
  status_conditions_ready-set_failed cs generation other message =
      rw (view-set_failed cs generation message ready)
