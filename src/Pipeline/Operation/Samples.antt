-- ===== src/Pipeline/Operation/Samples.antt =====
-- The completion of an operation at concrete inputs.
use azure_iot_dev.Prelude.{
  arith, ◌⊎◌, false, ◌==◌, if◌then◌else◌, ℕ, ◌≡◌, refl, true, false, Option, none, List, [], ◌∷◌,
}
use azure_iot_dev.Errors.{Error, operation_timeout}
use azure_iot_dev.Pipeline.Operation.{
  act, new_operation, returned, Action, halt, add, finish, throw, complete,
}
use azure_iot_dev.Pipeline.Operation.Invariant.{session, session-IsSound}
use azure_iot_dev.Pipeline.Operation.Termination.{completes_nothing, has_ended, complete_terminates}
use azure_iot_dev.Pipeline.Operation.Completion.{idle, complete_plain}

-- Callback 7 halts the completion, callback 8 raises, and the others do nothing to the operation.
abbrev program : ℕ → Option Error → List Action
program n error = if n == 7 then halt ∷ [] else if n == 8 then throw operation_timeout ∷ [] else []

session-IsSound_example :
    let op = session program 9 (add 7 ∷ finish none ∷ finish none ∷ []) (new_operation 1) in
    (op.completed ≡ false) ⊎ (op.completing ≡ false × op.callback_stack ≡ [])
session-IsSound_example = session-IsSound program 9 (add 7 ∷ finish none ∷ finish none ∷ []) 1

-- The first completion is halted by callback 7, and the second one ends.
session_completes :
    session program 9 (add 7 ∷ finish none ∷ finish none ∷ []) (new_operation 1) ≡ record {
      callback_stack = [];
      completed = true;
      completing = false;
      error = none;
      calls = (7, none) ∷ (1, none) ∷ [];
    }
unfolding session act complete new_operation
session_completes = refl

complete_plain_example : complete program 3 none (idle (2 ∷ 1 ∷ []) none []) ≡ (
  returned,
  record {
    callback_stack = [];
    completed = true;
    completing = false;
    error = none;
    calls = (2, none) ∷ (1, none) ∷ [];
  },
)
complete_plain_example = complete_plain program none (2 ∷ 1 ∷ []) none [] 0 (refl, (refl, tt))

program-completes_nothing :
    (error : Option Error) (c : ℕ) → completes_nothing (program c error) ≡ true
program-completes_nothing error c = ground arith

-- Callback 8 raises, and the completion ends there.
complete_terminates_example :
    has_ended (complete program 4 none (idle (2 ∷ 8 ∷ 1 ∷ []) none [])).0 ≡ true
complete_terminates_example =
    complete_terminates program 4 none (idle (2 ∷ 8 ∷ 1 ∷ []) none [])
      (program-completes_nothing none) (omega arith)
