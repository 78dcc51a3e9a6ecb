-- ===== src/Pipeline/Operation/Completion.antt =====
-- What `complete` does with callbacks that return, that halt the completion, and that raise.
use mathlib.Core.List.{map-append, append_assoc, append-nil}
use native.Mathlib.Nat.{zero-add, suc-add}
use azure_iot_dev.Prelude.{
  ap, sym, ◌∙◌, ℕ, suc, ◌+◌, ◌≡◌, refl, true, false, Option, none, some, List, [], ◌∷◌, ◌++◌, map,
  arith, length, All,
}
use azure_iot_dev.Errors.{Error, operation_error}
use azure_iot_dev.Pipeline.Operation.{
  Operation, returned, raised, Action, halt, throw, completion_loop, complete, spawn_worker_op,
}

abbrev pub Calls : Type 0
Calls = List (ℕ × Option Error)

-- An operation that waits for completion, and one in the middle of it.
abbrev pub idle : List ℕ → Option Error → Calls → Operation
idle stack error calls = record {
  callback_stack = stack;
  completed = false;
  completing = false;
  error = error;
  calls = calls;
}

abbrev running : List ℕ → Option Error → Calls → Operation
running stack error calls = record {
  callback_stack = stack;
  completed = false;
  completing = true;
  error = error;
  calls = calls;
}

abbrev pub given : Option Error → List ℕ → Calls
given error = map (λ c. (c, error))

module _ (program : ℕ → Option Error → List Action) (error : Option Error) where
  -- The callback leaves the operation alone.
  abbrev pub IsPlain : ℕ → Type 0
  IsPlain c = program c error ≡ []

  round_plain :
      (c : ℕ) (stack : List ℕ) (fuel : ℕ) (calls : Calls)
      → IsPlain c
      → completion_loop program (suc fuel) error (running (c ∷ stack) error calls)
        ≡ completion_loop program fuel error (running stack error (calls ++ (c, error) ∷ []))
  unfolding completion_loop
  round_plain c stack fuel calls h = ground (arith, h)

  loop_plain :
      (before rest : List ℕ) (fuel : ℕ) (calls : Calls)
      → All IsPlain before
      → completion_loop program (length before + fuel) error (running (before ++ rest) error calls)
        ≡ completion_loop program fuel error (running rest error (calls ++ given error before))
  loop_plain [] rest fuel calls h = rw (zero-add, append-nil)
  loop_plain (c ∷ before) rest fuel calls h = rw suc-add (
      round_plain c (before ++ rest) (length before + fuel) calls h.0
      ∙ loop_plain before rest fuel (calls ++ (c, error) ∷ []) h.1
      ∙ ap (λ made. completion_loop program fuel error (running rest error made))
          (append_assoc calls ((c, error) ∷ []) (given error before)))

  round_halting :
      (c : ℕ) (rest : List ℕ) (fuel : ℕ) (calls : Calls)
      → program c error ≡ halt ∷ []
      → completion_loop program (suc (suc fuel)) error (running (c ∷ rest) error calls)
        ≡ (returned, idle rest none (calls ++ (c, error) ∷ []))
  unfolding completion_loop
  round_halting c [] fuel calls halts = ground (arith, halts)
  round_halting c (d ∷ rest) fuel calls halts = ground (arith, halts)

  round_raising :
      (c : ℕ) (rest : List ℕ) (fuel : ℕ) (calls : Calls) (e : Error)
      → program c error ≡ throw e ∷ []
      → completion_loop program (suc fuel) error (running (c ∷ rest) error calls)
        ≡ (raised operation_error, idle rest none (calls ++ (c, error) ∷ []))
  unfolding completion_loop
  round_raising c rest fuel calls e throws = ground (arith, throws)

  loop_end :
      (fuel : ℕ) (calls : Calls)
      → completion_loop program (suc fuel) error (running [] error calls)
        ≡ (returned, record (idle [] error calls) { completed = true })
  unfolding completion_loop
  loop_end fuel calls = refl

  given-append :
      (before : List ℕ) (c : ℕ) (calls : Calls)
      → (calls ++ given error before) ++ (c, error) ∷ [] ≡ calls ++ given error (before ++ c ∷ [])
  given-append before c calls = rw (append_assoc, map-append)

  module _ (stack : List ℕ) (old : Option Error) (calls : Calls) where
    -- An operation that is not completed, and whose callbacks return and leave it alone, is
    -- completed by `complete`: every callback is called once, the last added first, each with the
    -- error, which the operation keeps. More rounds than callbacks are enough.
    pub complete_plain :
        (extra : ℕ)
        → All IsPlain stack
        → complete program (length stack + suc extra) error (idle stack old calls) ≡ (
          returned,
          record {
            callback_stack = [];
            completed = true;
            completing = false;
            error = error;
            calls = calls ++ given error stack;
          },
        )
    unfolding complete
    complete_plain extra h =
        ap
          (λ all.
            completion_loop program (length stack + suc extra) error (running all error calls))
          (sym (append-nil stack))
        ∙ loop_plain stack [] (suc extra) calls h
        ∙ loop_end extra (calls ++ given error stack)

  -- A spawned worker operation whose callbacks leave it alone calls the callback that was provided,
  -- then the one that completes the operation that spawned it, both with its own error.
  worker_calls :
      (on_worker_op_complete provided_callback extra : ℕ)
      → IsPlain on_worker_op_complete
      → IsPlain provided_callback
      → (complete program
          (2 + suc extra)
          error
          (spawn_worker_op on_worker_op_complete (some provided_callback)).1).1.calls
        ≡ (provided_callback, error) ∷ (on_worker_op_complete, error) ∷ []
  unfolding spawn_worker_op
  worker_calls w c extra hw hc =
      ap (λ r. r.1.calls) (complete_plain (c ∷ w ∷ []) none [] extra (hc, (hw, tt)))

  module _ (before : List ℕ) (c : ℕ) (rest : List ℕ) (old : Option Error) (calls : Calls) where
    -- If the callbacks of an operation that is not completed leave it alone down to one that halts
    -- the completion, then `complete` calls those and that one once each, in order, and leaves the
    -- operation not completed, its error cleared, with the callbacks below still to be called. More
    -- rounds than callbacks that are called are enough.
    pub complete_halting :
        (extra : ℕ)
        → All IsPlain before
        → program c error ≡ halt ∷ []
        → complete program
            (length before + suc (suc extra))
            error
            (idle (before ++ c ∷ rest) old calls)
          ≡ (returned, idle rest none (calls ++ given error (before ++ c ∷ [])))
    unfolding complete
    complete_halting extra h halts =
        loop_plain before (c ∷ rest) (suc (suc extra)) calls h
        ∙ round_halting c rest extra (calls ++ given error before) halts
        ∙ rw given-append

    -- If the callbacks of an operation that is not completed leave it alone down to one that
    -- raises, then `complete` calls those and that one once each, in order, and raises an
    -- `OperationError`; the operation is not completed, its error is cleared, and the callbacks
    -- below are kept.
    pub complete_raising :
        (e : Error) (extra : ℕ)
        → All IsPlain before
        → program c error ≡ throw e ∷ []
        → complete program (length before + suc extra) error (idle (before ++ c ∷ rest) old calls)
          ≡ (raised operation_error, idle rest none (calls ++ given error (before ++ c ∷ [])))
    unfolding complete
    complete_raising e extra h throws =
        loop_plain before (c ∷ rest) (suc extra) calls h
        ∙ round_raising c rest extra (calls ++ given error before) e throws
        ∙ rw given-append
