-- ===== src/Pipeline/Operation.antt =====
-- `PipelineOperation` of azure-iot-device/azure/iot/device/common/pipeline/pipeline_ops_base.py:
-- the callback stack of an operation and its completion. A callback is a number; what it does to
-- the operation that it is called for is a list of calls of the operation's own methods, which may
-- end in an exception of its own.
pub mod Invariant
pub mod Completion
pub mod Termination
pub mod Samples
use azure_iot_dev.Prelude.{
  ℕ, zero, suc, Bool, true, false, ◌||◌, Option, none, some, List, [], ◌∷◌, ◌++◌, if◌then◌else◌,
}
use azure_iot_dev.Errors.{Error, operation_error}

-- `calls` is no field of the class: it lists the callbacks that were triggered, in order, with the
-- error that each was given.
pub record Operation : Type 0 where
  pub callback_stack : List ℕ
  pub completed : Bool
  pub completing : Bool
  pub error : Option Error
  pub calls : List (ℕ × Option Error)

-- How a call of a method ends. `out_of_fuel` stands for a completion that does not end.
pub data Outcome : Type 0 where
  returned : Outcome
  raised : Error → Outcome
  out_of_fuel : Outcome

pub data Action : Type 0 where
  halt : Action
  add : ℕ → Action
  finish : Option Error → Action
  throw : Error → Action

abbrev pub Method : Type 0
Method = Operation → Outcome × Operation

-- The constructor, which stores its callback; the last element of Python's list is the first here.
unfoldable pub new_operation : ℕ → Operation
new_operation callback = record {
  callback_stack = callback ∷ [];
  completed = false;
  completing = false;
  error = none;
  calls = [];
}

unfoldable pub add_callback : ℕ → Method
add_callback callback op =
    if op.completed
    then (raised operation_error, op)
    else if op.completing
    then (raised operation_error, op)
    else (returned, record op { callback_stack = callback ∷ op.callback_stack })

-- The callback of a worker operation that is no argument completes the operation that spawned it;
-- one that the caller gives is added on top, and so is called before.
unfoldable pub spawn_worker_op : ℕ → Option ℕ → Outcome × Operation
unfolding add_callback new_operation
spawn_worker_op on_worker_op_complete none = (returned, new_operation on_worker_op_complete)
spawn_worker_op on_worker_op_complete (some provided_callback) =
    add_callback provided_callback (new_operation on_worker_op_complete)

unfoldable pub halt_completion : Method
halt_completion op =
    if op.completing
    then (returned, record op { completing = false; error = none })
    else (raised operation_error, op)

-- The guard and the start of `complete`, before the loop.
unfoldable pub begin_completion : (Option Error → Method) → Option Error → Method
begin_completion loop error op =
    if op.completed || op.completing
    then (raised operation_error, op)
    else loop error (record op { completing = true; error = error })

act : (Option Error → Method) → Action → Method
unfolding add_callback halt_completion
act complete halt op = halt_completion op
act complete (add callback) op = add_callback callback op
act complete (finish error) op = complete error op
act complete (throw error) op = (raised error, op)

-- The body of a callback: the first exception ends it.
unfoldable pub run_actions : (Option Error → Method) → List Action → Method
unfolding act
run_actions complete [] op = (returned, op)
run_actions complete (a ∷ rest) op =
    let (outcome, after) = act complete a op in
    let later = run_actions complete rest after in
    elim outcome [
      | returned ↦ later
      | raised e ↦ (raised e, after)
      | out_of_fuel ↦ (out_of_fuel, after)
    ]

-- What follows the `while` loop.
unfoldable pub end_completion : Method
end_completion op =
    (returned, if op.completing then record op { completing = false; completed = true } else op)

-- The `except` clause of the loop: `halt_completion` may raise too, and either way it is an
-- `OperationError` that leaves.
unfoldable pub fail_completion : Method
unfolding halt_completion
fail_completion op = (raised operation_error, (halt_completion op).1)

module _ (program : ℕ → Option Error → List Action) where
  -- A round of the loop, with `recur` for the rounds that follow, at the top of the stack.
  unfoldable pub trigger : (Option Error → Method) → Option Error → ℕ → List ℕ → Method
  unfolding run_actions begin_completion fail_completion
  trigger recur error callback rest op =
      let popped = record op {
        callback_stack = rest;
        calls = op.calls ++ (callback, error) ∷ [];
      } in
      let (outcome, after) = run_actions (begin_completion recur) (program callback error) popped in
      let later = recur error after in
      elim outcome [
        | returned ↦ later
        | raised e ↦ fail_completion after
        | out_of_fuel ↦ (out_of_fuel, after)
      ]

  unfoldable pub loop_round : (Option Error → Method) → Option Error → List ℕ → Method
  unfolding trigger end_completion fail_completion
  loop_round recur error [] op = end_completion op
  loop_round recur error (callback ∷ rest) op =
      if op.completing
      then if op.completed then fail_completion op else trigger recur error callback rest op
      else end_completion op

  unfoldable pub completion_loop : ℕ → Option Error → Method
  unfolding loop_round
  completion_loop zero error op = (out_of_fuel, op)
  completion_loop (suc fuel) error op = loop_round (completion_loop fuel) error op.callback_stack op

  unfoldable pub complete : ℕ → Option Error → Method
  unfolding completion_loop begin_completion
  complete fuel = begin_completion (completion_loop fuel)
