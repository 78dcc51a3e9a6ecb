-- ===== src/Pipeline/Retry/Late.antt =====
-- An answer that comes between the time-out and the retry.
use azure_iot_dev.Prelude.{
  ℕ, suc, ◌+◌, ◌≡◌, ap, ◌∙◌, true, false, Option, none, List, [], length, All,
}
use azure_iot_dev.Errors.{Error, operation_error}
use azure_iot_dev.Pipeline.Ops.{OpKind}
use azure_iot_dev.Pipeline.Operation.{returned, raised, Action, add_callback}
use azure_iot_dev.Pipeline.Operation.Completion.{given, complete_plain}
use azure_iot_dev.Pipeline.Retry.{in_intervals, Watched, program, on_calls, complete_op, do_retry}
use azure_iot_dev.Pipeline.Retry.Cycles.{timed_out, IsUser, users-IsPlain, on_calls-users}

module _ (others : ℕ → Option Error → List Action) (kind : OpKind)
    (watched : in_intervals kind ≡ true) where
  -- The state after an answer that came between the time-out and the retry.
  abbrev pub answered_late : Option Error → List ℕ → ℕ → Watched
  answered_late error stack sent = record (timed_out kind stack sent) {
    op = record {
      callback_stack = [];
      completed = true;
      completing = false;
      error = error;
      calls = given error stack;
    };
  }

  complete-late :
      (error : Option Error) (stack : List ℕ) (sent extra : ℕ)
      → All (IsUser others kind watched error) stack
      → complete_op others (length stack + suc extra) error (timed_out kind stack sent)
        ≡ (returned, answered_late error stack sent)
  unfolding complete_op
  complete-late error stack sent extra users =
      ap (λ r. (r.0, on_calls kind r.1.calls (record (timed_out kind stack sent) { op = r.1 })))
        (complete_plain (program others kind) error stack none [] extra
          (users-IsPlain others kind watched error stack users))
      ∙ ap (λ w. (returned, w))
          (on_calls-users others kind watched error stack (answered_late error stack sent) users)

  retry-late :
      (error : Option Error) (stack : List ℕ) (sent : ℕ)
      → do_retry (answered_late error stack sent) ≡ (
        raised operation_error,
        record (answered_late error stack sent) { retry_timer = false; waiting = false },
      )
  unfolding do_retry add_callback
  retry-late error stack sent = rw watched

  -- If the answer to a subscription or unsubscription comes after the time-out and before the
  -- retry, it completes the operation, but the retry is not called off: when its timer expires, the
  -- stage runs the completed operation again, and that raises an `OperationError`.
  pub late_answer_raises :
      (error : Option Error) (stack : List ℕ) (sent extra : ℕ)
      → All (IsUser others kind watched error) stack
      → do_retry (complete_op others (length stack + suc extra) error (timed_out kind stack sent)).1
        ≡ (
          raised operation_error,
          record (answered_late error stack sent) { retry_timer = false; waiting = false },
        )
  late_answer_raises error stack sent extra users =
      ap (λ r. do_retry r.1) (complete-late error stack sent extra users)
      ∙ retry-late error stack sent
