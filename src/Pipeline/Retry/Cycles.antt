-- ===== src/Pipeline/Retry/Cycles.antt =====
-- A subscription that times out is sent again, until it is answered.
use azure_iot_dev.Prelude.{
  ◌<◌, ℕ, zero, suc, ◌+◌, ◌≡◌, refl, ap, ◌∙◌, true, false, Option, none, some, List, [], ◌∷◌, arith,
  length, All,
}
use azure_iot_dev.Errors.{Error, operation_timeout}
use azure_iot_dev.Pipeline.Ops.{OpKind}
use azure_iot_dev.Pipeline.Operation.{Outcome, returned, Action, halt, add_callback}
use azure_iot_dev.Pipeline.Operation.Completion.{Calls}
use azure_iot_dev.Pipeline.Operation.Completion.{
  idle, given, IsPlain, complete_plain, complete_halting,
}
use azure_iot_dev.Pipeline.Retry.{
  in_intervals, is_timeout, retry_callback, clear_callback, Watched, on_call, program, on_calls,
  retry_run_op, complete_op, on_timeout, do_retry,
}

-- An operation with these callbacks, which neither stage holds.
abbrev pub fresh : OpKind → List ℕ → ℕ → Watched
fresh kind stack sent = record {
  kind = kind;
  op = idle stack none [];
  timeout_timer = false;
  retry_timer = false;
  waiting = false;
  sent = sent;
}

-- The operation is below the stages, with both of their callbacks and a timer.
abbrev pub below : OpKind → List ℕ → ℕ → Calls → Watched
below kind stack sent calls = record {
  kind = kind;
  op = idle (clear_callback ∷ retry_callback ∷ stack) none calls;
  timeout_timer = true;
  retry_timer = false;
  waiting = false;
  sent = suc sent;
}

abbrev timeout_calls : Calls
timeout_calls =
    (clear_callback, some operation_timeout) ∷ (retry_callback, some operation_timeout) ∷ []

-- The operation has timed out and waits for its retry.
abbrev pub timed_out : OpKind → List ℕ → ℕ → Watched
timed_out kind stack sent = record {
  kind = kind;
  op =
      idle stack none
        ((clear_callback, some operation_timeout) ∷ (retry_callback, some operation_timeout) ∷ []);
  timeout_timer = false;
  retry_timer = true;
  waiting = true;
  sent = suc sent;
}

module _ (others : ℕ → Option Error → List Action) (kind : OpKind)
    (watched : in_intervals kind ≡ true) where
  run_op-below :
      (stack : List ℕ) (sent : ℕ)
      → retry_run_op (fresh kind stack sent) ≡ (returned, below kind stack sent [])
  unfolding retry_run_op add_callback
  run_op-below stack sent = rw watched

  do_retry-below :
      (stack : List ℕ) (sent : ℕ)
      → do_retry (timed_out kind stack sent) ≡ (returned, below kind stack (suc sent) timeout_calls)
  unfolding do_retry add_callback
  do_retry-below stack sent = rw watched

  halts : program others kind retry_callback (some operation_timeout) ≡ halt ∷ []
  unfolding program
  halts = rw watched

  clears : (error : Option Error) → IsPlain (program others kind) error clear_callback
  unfolding program
  clears error = refl

  -- When its timer expires, the operation is not completed: none of the callbacks above the two
  -- stages is called, and it waits for its retry.
  on_timeout-below :
      (stack : List ℕ) (sent extra : ℕ) (calls : Calls)
      → on_timeout others (1 + suc (suc extra)) (below kind stack sent calls)
        ≡ (returned, timed_out kind stack sent)
  unfolding on_timeout
  on_timeout-below stack sent extra calls =
      ap (λ r. (r.0, on_calls kind r.1.calls (record (below kind stack sent calls) { op = r.1 })))
        (complete_halting (program others kind) (some operation_timeout) (clear_callback ∷ [])
          retry_callback stack none [] extra (clears (some operation_timeout), tt) halts)
      ∙ rw watched

  -- The operation times out so many times, and is retried before each but the first.
  pub time_out : ℕ → ℕ → Watched → Watched
  time_out extra zero w = (on_timeout others (1 + suc (suc extra)) w).1
  time_out extra (suc n) w =
      (on_timeout others (1 + suc (suc extra)) (do_retry (time_out extra n w)).1).1

  time_out-below :
      (extra n : ℕ) (stack : List ℕ) (sent : ℕ) (calls : Calls)
      → time_out extra n (below kind stack sent calls) ≡ timed_out kind stack (n + sent)
  unfolding time_out
  time_out-below extra zero stack sent calls =
      ap (λ r. r.1) (on_timeout-below stack sent extra calls)
      ∙ ap (timed_out kind stack) (omega arith)
  time_out-below extra (suc n) stack sent calls =
      ap (λ w. (on_timeout others (1 + suc (suc extra)) (do_retry w).1).1)
        (time_out-below extra n stack sent calls)
      ∙ ap (λ r. (on_timeout others (1 + suc (suc extra)) r.1).1) (do_retry-below stack (n + sent))
      ∙ ap (λ r. r.1) (on_timeout-below stack (suc (n + sent)) extra timeout_calls)
      ∙ ap (timed_out kind stack) (omega arith)

  not_timeout :
      (error : Option Error)
      → is_timeout error ≡ false
      → IsPlain (program others kind) error retry_callback
  unfolding program
  not_timeout error other = rw (watched, other)

  -- A callback of another stage or of the user, which leaves the operation alone.
  abbrev pub IsUser : Option Error → ℕ → Type 0
  IsUser error c = (1 < c) × (others c error ≡ [])

  user-IsPlain :
      (error : Option Error) (c : ℕ) → IsUser error c → IsPlain (program others kind) error c
  unfolding program
  user-IsPlain error c h = ground (arith, h.0, h.1)

  pub users-IsPlain :
      (error : Option Error) (stack : List ℕ)
      → All (IsUser error) stack
      → All (IsPlain (program others kind) error) stack
  users-IsPlain error [] h = tt
  users-IsPlain error (c ∷ stack) h = (user-IsPlain error c h.0, users-IsPlain error stack h.1)

  on_call-user :
      (error : Option Error) (c : ℕ) (w : Watched) → IsUser error c → on_call kind (c, error) w ≡ w
  unfolding on_call
  on_call-user error c w h = ground (arith, h.0)

  pub on_calls-users :
      (error : Option Error) (stack : List ℕ) (w : Watched)
      → All (IsUser error) stack
      → on_calls kind (given error stack) w ≡ w
  unfolding on_calls
  on_calls-users error [] w h = refl
  on_calls-users error (c ∷ stack) w h =
      ap (on_calls kind (given error stack)) (on_call-user error c w h.0)
      ∙ on_calls-users error stack w h.1

  -- The operation is completed: every callback was called once, with the error, and no timer runs.
  abbrev pub answered : Option Error → List ℕ → ℕ → Watched
  answered error stack sent = record {
    kind = kind;
    op = record {
      callback_stack = [];
      completed = true;
      completing = false;
      error = error;
      calls = given error (clear_callback ∷ retry_callback ∷ stack);
    };
    timeout_timer = false;
    retry_timer = false;
    waiting = false;
    sent = suc sent;
  }

  retry_call :
      (error : Option Error) (w : Watched)
      → is_timeout error ≡ false
      → on_call kind (retry_callback, error) w ≡ record w { retry_timer = false }
  unfolding on_call
  retry_call error w other = ground (arith, watched, other)

  own_calls :
      (error : Option Error) (rest : Calls) (w : Watched)
      → is_timeout error ≡ false
      → on_calls kind ((clear_callback, error) ∷ (retry_callback, error) ∷ rest) w
        ≡ on_calls kind rest (record w { timeout_timer = false; retry_timer = false })
  unfolding on_calls
  own_calls error rest w other =
      ap (on_calls kind rest) (retry_call error (record w { timeout_timer = false }) other)

  complete-below :
      (error : Option Error) (stack : List ℕ) (sent extra : ℕ) (calls : Calls)
      → is_timeout error ≡ false
      → All (IsUser error) stack
      → complete_op others
          (suc (suc (length stack)) + suc extra)
          error
          (below kind stack sent calls)
        ≡ (returned, answered error stack sent)
  unfolding complete_op
  complete-below error stack sent extra calls other users =
      ap (λ r. (r.0, on_calls kind r.1.calls (record (below kind stack sent calls) { op = r.1 })))
        (complete_plain (program others kind) error (clear_callback ∷ retry_callback ∷ stack) none
          [] extra (clears error, (not_timeout error other, users-IsPlain error stack users)))
      ∙ ap (λ w. (returned, w))
          (own_calls error (given error stack)
              (record (answered error stack sent) { timeout_timer = true }) other
            ∙ on_calls-users error stack (answered error stack sent) users)

  -- A subscription or unsubscription that times out is not completed but sent down again after each
  -- time-out, however many there are; once it is completed by anything but a time-out, each callback
  -- of the stages above, which leaves the operation alone, is called once with that outcome, and
  -- neither stage has a timer left.
  pub retried_until_answered :
      (error : Option Error) (stack : List ℕ) (sent extra rounds : ℕ)
      → is_timeout error ≡ false
      → All (IsUser error) stack
      → complete_op others
          (suc (suc (length stack)) + suc extra)
          error
          (do_retry (time_out extra rounds (retry_run_op (fresh kind stack sent)).1)).1
        ≡ (returned, answered error stack (suc (rounds + sent)))
  retried_until_answered error stack sent extra rounds other users =
      ap (λ r. finish (do_retry (time_out extra rounds r.1)).1) (run_op-below stack sent)
      ∙ ap (λ w. finish (do_retry w).1) (time_out-below extra rounds stack sent [])
      ∙ ap (λ r. finish r.1) (do_retry-below stack (rounds + sent))
      ∙ complete-below error stack (suc (rounds + sent)) extra timeout_calls other users
    where
      finish : Watched → Outcome × Watched
      finish w = complete_op others (suc (suc (length stack)) + suc extra) error w
