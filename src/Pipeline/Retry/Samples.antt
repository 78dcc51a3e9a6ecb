-- ===== src/Pipeline/Retry/Samples.antt =====
-- A subscription through the retry and time-out stages, at concrete inputs.
use azure_iot_dev.Prelude.{ℕ, ◌≡◌, refl, false, Option, none, List, [], ◌∷◌, arith}
use azure_iot_dev.Errors.{Error, operation_error}
use azure_iot_dev.Pipeline.Ops.{mqtt_subscribe}
use azure_iot_dev.Pipeline.Operation.{returned, raised, Action}
use azure_iot_dev.Pipeline.Retry.{retry_run_op, complete_op, do_retry}
use azure_iot_dev.Pipeline.Retry.Cycles.{
  fresh, timed_out, time_out, answered, retried_until_answered,
}
use azure_iot_dev.Pipeline.Retry.Late.{answered_late, late_answer_raises}

abbrev nothing : ℕ → Option Error → List Action
nothing callback error = []

retried_until_answered_example :
    complete_op nothing 5 none
      (do_retry (
        time_out nothing mqtt_subscribe refl 0 1
          (retry_run_op (fresh mqtt_subscribe (2 ∷ 3 ∷ []) 0)).1)).1
    ≡ (returned, answered nothing mqtt_subscribe refl none (2 ∷ 3 ∷ []) 2)
retried_until_answered_example =
    retried_until_answered nothing mqtt_subscribe refl none (2 ∷ 3 ∷ []) 0 0 1 refl
      ((omega arith, refl), ((omega arith, refl), tt))

late_answer_raises_example :
    do_retry (complete_op nothing 3 none (timed_out mqtt_subscribe (2 ∷ 3 ∷ []) 0)).1 ≡ (
      raised operation_error,
      record (answered_late nothing mqtt_subscribe refl none (2 ∷ 3 ∷ []) 0) {
        retry_timer = false;
        waiting = false;
      },
    )
late_answer_raises_example =
    late_answer_raises nothing mqtt_subscribe refl none (2 ∷ 3 ∷ []) 0 0
      ((omega arith, refl), ((omega arith, refl), tt))
