-- ===== src/Pipeline/SasToken/Single.antt =====
-- At most one reauthorization is under way or waits to be retried.
use azure_iot_dev.Prelude.{
  ℕ, ◌+◌, ◌-◌, ◌≤◌, ◌≡◌, refl, ◌∙◌, Bool, Option, none, some, List, [], ◌∷◌, ◌++◌, arith, ◌⊎◌, inl,
  inr, ap, length,
}
use azure_iot_dev.Errors.{Error}
use azure_iot_dev.Pipeline.Ops.{Op, shutdown}
use azure_iot_dev.Pipeline.SasToken.{
  SasToken, Stage, sent_down, initial, cancelled, cancel_reauth_retry_timer, reauthorize_connection,
  run_op, renewed, renew_token, alarm_called, alarm_expires, on_reauthorize_complete,
  reauthorize_completes, retry_expires, Stimulus, arrive, set_sastoken, set_connected, alarm_time,
  alarm_call, reauthorized, retry, step, run,
}

-- Nothing is under way; or a reauthorization is; or the timer runs that the stage holds.
abbrev pub IsSingle : Stage → Type 0
IsSingle s =
    (s.reauthorizing ≡ 0 × s.running ≡ [])
    ⊎ (s.reauthorizing ≡ 1 × s.running ≡ [])
    ⊎ (timer : ℕ) × (s.reauthorizing ≡ 0)
      × (s.running ≡ timer ∷ [])
      × (s.reauth_retry_timer ≡ some timer)

-- No call of an alarm is taken up while a reauthorization is under way.
abbrev Apart : Stimulus → Stage → Type 0
Apart (alarm_call now signs) s = s.reauthorizing ≡ 0
Apart _ s = Unit

without_none : (held : Option ℕ) → cancelled held [] ≡ []
without_none none = refl
without_none (some timer) = refl

without_self : (timer : ℕ) → cancelled (some timer) (timer ∷ []) ≡ []
without_self timer = ground arith

-- After the cancellation no timer runs.
cancel_lem : (s : Stage) → IsSingle s → (cancel_reauth_retry_timer s).running ≡ []
unfolding cancel_reauth_retry_timer
cancel_lem s (inl (idle, empty)) =
    ap (cancelled s.reauth_retry_timer) empty ∙ without_none s.reauth_retry_timer
cancel_lem s (inr (inl (one, empty))) =
    ap (cancelled s.reauth_retry_timer) empty ∙ without_none s.reauth_retry_timer
cancel_lem s (inr (inr (timer, idle, waits, held))) =
    ap (cancelled s.reauth_retry_timer) waits
    ∙ ap (λ h. cancelled h (timer ∷ [])) held
    ∙ without_self timer

module _ (timeout_max : ℕ) where
  abbrev pub AllApart : List Stimulus → Stage → Type 0
  AllApart [] s = Unit
  AllApart (e ∷ es) s = Apart e s × AllApart es (step timeout_max e s)

  run_op-IsSingle :
      (now : ℕ) (op : Op) (s : Stage) → IsSingle s → IsSingle (run_op timeout_max now op s)
  unfolding run_op
  run_op-IsSingle now op s h = ground (arith, cancel_lem s h)

  call-IsSingle :
      (now : ℕ) (signs : Bool) (s : Stage)
      → s.reauthorizing ≡ 0
      → IsSingle s
      → IsSingle (alarm_called timeout_max now signs s)
  unfolding alarm_called renew_token renewed reauthorize_connection
  call-IsSingle now signs s still h =
      let taken = record s { alarm_calls = s.alarm_calls - 1 } in ground (arith, cancel_lem taken h)

  expires-IsSingle : (s : Stage) → IsSingle s → IsSingle (alarm_expires s)
  unfolding alarm_expires
  expires-IsSingle s h = ground arith

  complete-IsSingle :
      (error : Option Error) (s : Stage) → IsSingle s → IsSingle (reauthorize_completes error s)
  unfolding reauthorize_completes on_reauthorize_complete
  complete-IsSingle error s h = ground arith

  retry-IsSingle : (timer : ℕ) (s : Stage) → IsSingle s → IsSingle (retry_expires timer s)
  unfolding retry_expires reauthorize_connection
  retry-IsSingle timer s h = ground arith

  step-IsSingle :
      (e : Stimulus) (s : Stage) → Apart e s → IsSingle s → IsSingle (step timeout_max e s)
  unfolding step
  step-IsSingle (arrive now op) s apart h = run_op-IsSingle now op s h
  step-IsSingle (set_sastoken token) s apart h = h
  step-IsSingle (set_connected b) s apart h = h
  step-IsSingle alarm_time s apart h = expires-IsSingle s h
  step-IsSingle (alarm_call now signs) s apart h = call-IsSingle now signs s apart h
  step-IsSingle (reauthorized error) s apart h = complete-IsSingle error s h
  step-IsSingle (retry timer) s apart h = retry-IsSingle timer s h

  run-IsSingle :
      (es : List Stimulus) (s : Stage)
      → AllApart es s
      → IsSingle s
      → IsSingle (run timeout_max es s)
  unfolding run
  run-IsSingle [] s apart h = h
  run-IsSingle (e ∷ es) s apart h =
      run-IsSingle es (step timeout_max e s) apart.1 (step-IsSingle e s apart.0 h)

  initial-IsSingle : (token : Option SasToken) (b : Bool) → IsSingle (initial token b)
  unfolding initial
  initial-IsSingle token b = inl (refl, refl)

  at_most_one : (s : Stage) → IsSingle s → s.reauthorizing + length s.running ≤ 1
  at_most_one s h = ground arith

  -- If no call of an alarm is taken up while a reauthorization is under way, then whatever happens, at most one
  -- reauthorization is under way or waits for its retry timer.
  pub single_reauthorization :
      (token : Option SasToken) (connection_retry : Bool) (es : List Stimulus)
      → AllApart es (initial token connection_retry)
      → let s = run timeout_max es (initial token connection_retry) in
        s.reauthorizing + length s.running ≤ 1
  single_reauthorization token connection_retry es apart =
      at_most_one (run timeout_max es (initial token connection_retry))
        (run-IsSingle es _ apart (initial-IsSingle token connection_retry))

  pub shutdown_lem :
      (now : ℕ) (op : Op) (s : Stage)
      → op.kind ≡ shutdown
      → IsSingle s
      → run_op timeout_max now op s ≡ record s {
        token_update_alarm = none;
        reauth_retry_timer = none;
        running = [];
        outputs = s.outputs ++ sent_down op ∷ [];
      }
  unfolding run_op
  shutdown_lem now op s stops h = ground (arith, cancel_lem s h)

  -- If no call of an alarm was taken up while a reauthorization was under way, then, whatever has happened, a
  -- shutdown leaves neither an alarm nor a retry timer running, goes down, and does nothing else.
  pub shutdown_stops_timers :
      (token : Option SasToken) (connection_retry : Bool) (es : List Stimulus) (now : ℕ) (op : Op)
      → AllApart es (initial token connection_retry)
      → op.kind ≡ shutdown
      → let s = run timeout_max es (initial token connection_retry) in
        step timeout_max (arrive now op) s ≡ record s {
          token_update_alarm = none;
          reauth_retry_timer = none;
          running = [];
          outputs = s.outputs ++ sent_down op ∷ [];
        }
  unfolding step
  shutdown_stops_timers token connection_retry es now op apart stops =
      shutdown_lem now op _ stops
        (run-IsSingle es _ apart (initial-IsSingle token connection_retry))
