-- ===== src/Pipeline/SasToken/Failure.antt =====
-- A failed signing ends the renewal of the token.
use azure_iot_dev.Prelude.{
  ℕ, ◌+◌, ◌≡◌, refl, Bool, true, false, none, some, List, [], ◌∷◌, arith, All, if◌then◌else◌, sym,
  subst,
}
use azure_iot_dev.Pipeline.Ops.{Op}
use azure_iot_dev.Pipeline.SasToken.{
  SasToken, Stage, cancel_reauth_retry_timer, refresh, starts_alarm, reauthorize_connection, run_op,
  renew_token, rings, alarm_called, alarm_expires, on_reauthorize_complete, reauthorize_completes,
  retry_expires, Stimulus, arrive, set_sastoken, set_connected, alarm_time, alarm_call,
  reauthorized, retry, step, run,
}

-- Neither an operation for which the stage sets an alarm, nor another token.
abbrev pub is_idle : Stimulus → Bool
is_idle (arrive now op) = if starts_alarm op.kind then false else true
is_idle (set_sastoken token) = false
is_idle _ = true

record IsStopped (token : SasToken) (s : Stage) : Type 0 where
  silent : s.token_update_alarm ≡ none
  none_waits : s.alarm_calls ≡ 0
  held : s.sastoken ≡ some token

module _ (timeout_max : ℕ) (token : SasToken) where
  run_op-IsStopped :
      (now : ℕ) (op : Op) (s : Stage)
      → starts_alarm op.kind ≡ false
      → IsStopped token s
      → IsStopped token (run_op timeout_max now op s)
  unfolding run_op cancel_reauth_retry_timer
  run_op-IsStopped now op s other h = ground arith

  call-IsStopped :
      (now : ℕ) (signs : Bool) (s : Stage)
      → IsStopped token s
      → IsStopped token (alarm_called timeout_max now signs s)
  unfolding alarm_called
  call-IsStopped now signs s h = ground (arith, h)

  expires-IsStopped : (s : Stage) → IsStopped token s → IsStopped token (alarm_expires s)
  unfolding alarm_expires
  expires-IsStopped s h = ground (arith, h)

  step-IsStopped :
      (e : Stimulus) (s : Stage)
      → is_idle e ≡ true
      → IsStopped token s
      → IsStopped token (step timeout_max e s)
  unfolding step reauthorize_completes on_reauthorize_complete retry_expires reauthorize_connection
  step-IsStopped (arrive now op) s idle h = run_op-IsStopped now op s (ground arith) h
  step-IsStopped (set_sastoken other) s idle h = absurd (ground arith)
  step-IsStopped (set_connected b) s idle h = ground arith
  step-IsStopped alarm_time s idle h = expires-IsStopped s h
  step-IsStopped (alarm_call now signs) s idle h = call-IsStopped now signs s h
  step-IsStopped (reauthorized error) s idle h = ground arith
  step-IsStopped (retry timer) s idle h = ground arith

  run-IsStopped :
      (es : List Stimulus) (s : Stage)
      → All (λ e. is_idle e ≡ true) es
      → IsStopped token s
      → IsStopped token (run timeout_max es s)
  unfolding run
  run-IsStopped [] s idle h = h
  run-IsStopped (e ∷ es) s idle h =
      run-IsStopped es (step timeout_max e s) idle.1 (step-IsStopped e s idle.0 h)

module _ (timeout_max : ℕ) where
  rings-IsStopped :
      (now : ℕ) (token : SasToken) (s : Stage)
      → token.renewable ≡ true
      → s.token_update_alarm ≡ none
      → s.alarm_calls ≡ 0
      → IsStopped (refresh now false token) (rings timeout_max now false (some token) s)
  unfolding renew_token refresh cancel_reauth_retry_timer
  rings-IsStopped now token s renews silent none_waits = ground arith

  goes_off :
      (time : ℕ) (s : Stage)
      → s.token_update_alarm ≡ some time
      → s.alarm_calls ≡ 0
      → alarm_expires s ≡ record s { token_update_alarm = none; alarm_calls = 1 }
  unfolding alarm_expires
  goes_off time s set none_waits = ground (arith, set, none_waits)

  -- The alarm goes off and its call is taken up.
  failing-IsStopped :
      (now time : ℕ) (token : SasToken) (s : Stage)
      → s.sastoken ≡ some token
      → token.renewable ≡ true
      → s.token_update_alarm ≡ some time
      → s.alarm_calls ≡ 0
      → IsStopped
          (refresh now false token)
          (run timeout_max (alarm_time ∷ alarm_call now false ∷ []) s)
  unfolding run step alarm_called
  failing-IsStopped now time token s e renews set none_waits =
      let taken = record s { token_update_alarm = none; alarm_calls = 0 } in
      subst (λ t. IsStopped (refresh now false token) (alarm_called timeout_max now false t))
        (sym (goes_off time s set none_waits))
        (subst
          (λ found. IsStopped (refresh now false token) (rings timeout_max now false found taken))
          (sym e) (rings-IsStopped now token taken renews refl refl))

  -- If the alarm of a renewable token goes off while no call of an alarm waits, and the signing fails
  -- when its call is taken up, then, until an initialization or a reauthorization arrives or the token
  -- is replaced, no alarm is set again, whatever else happens; and the token states a new expiry
  -- although its text is still the one that was signed for the old one.
  pub failed_signing_ends_renewal :
      (now time : ℕ) (token : SasToken) (es : List Stimulus) (s : Stage)
      → s.sastoken ≡ some token
      → token.renewable ≡ true
      → s.token_update_alarm ≡ some time
      → s.alarm_calls ≡ 0
      → All (λ e. is_idle e ≡ true) es
      → let after = run timeout_max (alarm_time ∷ alarm_call now false ∷ es) s in
        (after.token_update_alarm ≡ none)
        × (after.sastoken ≡ some (record token { expiry_time = now + token.ttl }))
  unfolding run refresh
  failed_signing_ends_renewal now time token es s e renews set none_waits idle =
      let h =
        run-IsStopped timeout_max (refresh now false token) es _ idle
          (failing-IsStopped now time token s e renews set none_waits) in
      (h.silent, h.held)
