-- ===== src/Api/Conditions.antt =====
-- api/v1alpha1/shared_types.go: the Ready, Reconciling and Failed conditions, over the list functions
-- of `k8s.io/apimachinery/pkg/api/meta`.
pub mod Laws
use inari_operator.Base.{
  ℕ, Bool, true, false, ◌&&◌, Option, none, some, List, ◌≡◌, ◌==◌, nat_eq, if◌then◌else◌,
}
use inari_operator.Text.{Str, bytes, str_eq}
use inari_operator.Api.{Condition, ConditionStatus, true_status, false_status, unknown_status}

-- `meta.SetStatusCondition`, `RemoveStatusCondition`, `FindStatusCondition` and
-- `IsStatusConditionTrue`.
pub record ConditionList : Type 0 where
  pub set_status_condition : List Condition → Condition → List Condition
  pub remove_status_condition : List Condition → Str → List Condition
  pub find_status_condition : List Condition → Str → Option Condition
  pub is_status_condition_true : List Condition → Str → Bool

pub data ConditionType : Type 0 where
  ready reconciling failed : ConditionType

-- `ConditionReady`, `ConditionReconciling`, `ConditionFailed`.
abbrev pub type_name : ConditionType → Str
type_name ready = bytes "Ready"
type_name reconciling = bytes "Reconciling"
type_name failed = bytes "Failed"

abbrev pub reason_reconciling : Str
reason_reconciling = bytes "Reconciling"

abbrev pub reason_ready : Str
reason_ready = bytes "Ready"

abbrev pub reason_error : Str
reason_error = bytes "ReconcileError"

abbrev pub condition : ConditionType → ConditionStatus → ℕ → Str → Str → Condition
condition t status generation reason message = record {
  type = type_name t;
  status = status;
  observed_generation = generation;
  reason = reason;
  message = message;
}

abbrev pub is_true : ConditionStatus → Bool
is_true true_status = true
is_true false_status = false
is_true unknown_status = false

-- Their documented behaviour.
pub record IsLawful (meta : ConditionList) : Type 0 where
  pub find-set :
      (cs : List Condition) (c : Condition) (t : Str)
      → meta.find_status_condition (meta.set_status_condition cs c) t
        ≡ (if c.type == t then some c else meta.find_status_condition cs t)
  pub find-remove :
      (cs : List Condition) (s t : Str)
      → meta.find_status_condition (meta.remove_status_condition cs s) t
        ≡ (if s == t then none else meta.find_status_condition cs t)
  pub is_true-find :
      (cs : List Condition) (t : Str)
      → meta.is_status_condition_true cs t
        ≡ elim (meta.find_status_condition cs t) [ none ↦ false | some c ↦ is_true c.status ]

module _ (meta : ConditionList) where
  open meta use {set_status_condition as set, remove_status_condition as remove}
  open meta use {find_status_condition as find}

  -- `SetReady`.
  unfoldable pub set_ready : List Condition → ℕ → Str → Str → List Condition
  set_ready conditions generation reason message =
      let conditions = set conditions (condition ready true_status generation reason message) in
      remove (remove conditions (type_name failed)) (type_name reconciling)

  -- `SetReconciling`.
  unfoldable pub set_reconciling : List Condition → ℕ → Str → List Condition
  set_reconciling conditions generation message =
      let conditions =
        set conditions (condition reconciling true_status generation reason_reconciling message) in
      set conditions (condition ready false_status generation reason_reconciling message)

  -- `SetFailed`.
  unfoldable pub set_failed : List Condition → ℕ → Str → List Condition
  set_failed conditions generation message =
      let conditions =
        set conditions (condition failed true_status generation reason_error message) in
      set conditions (condition ready false_status generation reason_error message)

  ready_for : ℕ → Option Condition → Bool
  ready_for generation none = false
  ready_for generation (some c) = is_true c.status && c.observed_generation == generation

  -- `statusConditionsReady` of internal/controller/common.go.
  unfoldable pub status_conditions_ready : List Condition → ℕ → Bool
  unfolding ready_for
  status_conditions_ready conditions generation =
      ready_for generation (find conditions (type_name ready))
