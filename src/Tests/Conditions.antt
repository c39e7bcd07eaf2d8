-- ===== src/Tests/Conditions.antt =====
-- The theorems on conditions, on a list that holds one of another type.
use inari_operator.Base.{◌≡◌, false, some, List, [], ◌∷◌, nat_beq}
use inari_operator.Text.{bytes}
use inari_operator.Api.{Condition, true_status}
use inari_operator.Api.Conditions.{
  condition, failed, set_ready, set_failed, status_conditions_ready, reason_error,
}
use inari_operator.Api.Conditions.Laws.{
  view, view-set_failed, status_conditions_ready-set_ready, status_conditions_ready-set_failed,
}
use inari_operator.Tests.Sample.{sample_meta, sample_meta-IsLawful}

abbrev before : List Condition
before = condition failed true_status 2 (bytes "ReconcileError") (bytes "no zone") ∷ []

view-set_failed_example :
    view sample_meta sample_meta-IsLawful
      (set_failed sample_meta before 3 (bytes "no realm"))
      failed
    ≡ some (condition failed true_status 3 reason_error (bytes "no realm"))
view-set_failed_example =
    view-set_failed sample_meta sample_meta-IsLawful before 3 (bytes "no realm") failed

status_conditions_ready-set_ready_example :
    status_conditions_ready sample_meta
      (set_ready sample_meta before 3 (bytes "Ready") (bytes "done"))
      4
    ≡ nat_beq 3 4
status_conditions_ready-set_ready_example =
    status_conditions_ready-set_ready sample_meta sample_meta-IsLawful before 3 4 (bytes "Ready")
      (bytes "done")

status_conditions_ready-set_failed_example :
    status_conditions_ready sample_meta (set_failed sample_meta before 3 (bytes "no realm")) 3
    ≡ false
status_conditions_ready-set_failed_example =
    status_conditions_ready-set_failed sample_meta sample_meta-IsLawful before 3 3
      (bytes "no realm")
