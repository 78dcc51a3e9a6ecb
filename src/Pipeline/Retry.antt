-- ===== src/Pipeline/Retry.antt =====
-- `RetryStage` and `OpTimeoutStage` of
-- azure-iot-device/azure/iot/device/common/pipeline/pipeline_stages_base.py, which stand one above
-- the other, for one operation: it passes both, and its completion calls their callbacks. A timer
-- is there or not; when it expires is a choice of the caller, and so is when the operation is
-- completed by the stages below.
pub mod Cycles
pub mod Late
pub mod Samples
use azure_iot_dev.Prelude.{
  ℕ, suc, Bool, true, false, ◌&&◌, Option, none, some, List, [], ◌∷◌, ◌==◌, if◌then◌else◌,
}
use azure_iot_dev.Errors.{Error, operation_timeout}
use azure_iot_dev.Pipeline.Ops.{OpKind, mqtt_subscribe, mqtt_unsubscribe}
use azure_iot_dev.Pipeline.Operation.{
  Operation, Outcome, returned, raised, out_of_fuel, Action, halt, add_callback, complete,
}

-- The keys of `retry_intervals` and of `timeout_intervals`, which are the same.
abbrev pub in_intervals : OpKind → Bool
in_intervals mqtt_subscribe = true
in_intervals mqtt_unsubscribe = true
in_intervals _ = false

abbrev pub is_timeout : Option Error → Bool
is_timeout (some operation_timeout) = true
is_timeout _ = false

-- `_should_retry`
unfoldable pub should_retry : OpKind → Option Error → Bool
should_retry kind error = in_intervals kind && is_timeout error

-- The numbers of the stages' own callbacks, `_do_retry_if_necessary` and `_clear_timer`.
abbrev pub retry_callback : ℕ
retry_callback = 0

abbrev pub clear_callback : ℕ
clear_callback = 1

-- `waiting` says that the operation is in `ops_waiting_to_retry`, and `sent` counts how often it was
-- sent down.
pub record Watched : Type 0 where
  pub kind : OpKind
  pub op : Operation
  pub timeout_timer : Bool
  pub retry_timer : Bool
  pub waiting : Bool
  pub sent : ℕ

-- What the callbacks do to the operation itself: `_do_retry_if_necessary` halts the completion if
-- there is to be a retry, and `_clear_timer` only clears its timer. `others` is what the callbacks
-- of other stages and of the user do.
unfoldable pub program : (ℕ → Option Error → List Action) → OpKind → ℕ → Option Error → List Action
unfolding should_retry
program others kind callback error =
    if callback == retry_callback
    then (if should_retry kind error then halt ∷ [] else [])
    else if callback == clear_callback
    then []
    else others callback error

-- What a callback does to the timers and to `ops_waiting_to_retry`.
unfoldable pub on_call : OpKind → ℕ × Option Error → Watched → Watched
unfolding should_retry
on_call kind (callback, error) w =
    if callback == retry_callback
    then (if should_retry kind error
        then record w { retry_timer = true; waiting = true }
        else record w { retry_timer = false })
    else if callback == clear_callback
    then record w { timeout_timer = false }
    else w

unfoldable pub on_calls : OpKind → List (ℕ × Option Error) → Watched → Watched
unfolding on_call
on_calls kind [] w = w
on_calls kind (call ∷ rest) w = on_calls kind rest (on_call kind call w)

abbrev and_then : Outcome × Operation → Watched → (Watched → Outcome × Watched) → Outcome × Watched
and_then (returned, op) w next = next (record w { op = op })
and_then (raised e, op) w next = (raised e, record w { op = op })
and_then (out_of_fuel, op) w next = (out_of_fuel, record w { op = op })

abbrev send_op_down : Watched → Outcome × Watched
send_op_down w = (returned, record w { sent = suc w.sent })

-- `OpTimeoutStage._run_op`: the timer is made first.
unfoldable pub timeout_run_op : Watched → Outcome × Watched
timeout_run_op w =
    if in_intervals w.kind
    then and_then (add_callback clear_callback w.op) (record w { timeout_timer = true })
        send_op_down
    else send_op_down w

-- `RetryStage._run_op`
unfoldable pub retry_run_op : Watched → Outcome × Watched
unfolding timeout_run_op
retry_run_op w =
    if in_intervals w.kind
    then and_then (add_callback retry_callback w.op) w timeout_run_op
    else timeout_run_op w

module _ (others : ℕ → Option Error → List Action) where
  -- The operation is completed, by a stage below or by a timer.
  unfoldable pub complete_op : ℕ → Option Error → Watched → Outcome × Watched
  unfolding program on_calls
  complete_op fuel error w =
      let (outcome, op) =
        complete (program others w.kind) fuel error (record w.op { calls = [] }) in
      (outcome, on_calls w.kind op.calls (record w { op = op }))

  -- `on_timeout` of `OpTimeoutStage`; a timer that was cancelled calls nothing.
  unfoldable pub on_timeout : ℕ → Watched → Outcome × Watched
  unfolding complete_op
  on_timeout fuel w =
      if w.timeout_timer then complete_op fuel (some operation_timeout) w else (returned, w)

-- `do_retry` of `RetryStage`
unfoldable pub do_retry : Watched → Outcome × Watched
unfolding retry_run_op
do_retry w =
    if w.retry_timer
    then retry_run_op (record w { retry_timer = false; waiting = false })
    else (returned, w)
