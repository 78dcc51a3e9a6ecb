-- ===== src/Pipeline/SasToken/Alarm.antt =====
-- When the alarm of the stage is set.
use azure_iot_dev.Prelude.{
  ℕ, ◌-◌, ◌≤◌, ◌<◌, ◌⊎◌, ◌≡◌, refl, Bool, true, false, Option, none, some, List, [], ◌∷◌, arith,
  All, if◌then◌else◌, inl, inr, Bool-cases, if_ind, ◌∙◌, is_some, ◌==◌,
}
use azure_iot_dev.Pipeline.Ops.{Op, initialize}
use azure_iot_dev.Pipeline.SasToken.{
  SasToken, Stage, default_token_update_margin, refresh, starts_alarm, is_shutdown,
  reauthorize_connection, update_time, start_token_update_alarm, run_op, renewed, renew_token,
  rings, alarm_called, alarm_expires, on_reauthorize_complete, reauthorize_completes, retry_expires,
  Stimulus, arrive, set_sastoken, set_connected, alarm_time, alarm_call, reauthorized, retry, step,
  run,
}

-- The alarm is set, at the latest when the margin before the expiry begins.
abbrev pub IsSetInTime : SasToken → Option ℕ → Type 0
IsSetInTime token none = ⊥
IsSetInTime token (some time) = time ≤ token.expiry_time - default_token_update_margin

-- The alarm is set in time or its call is to be taken up, and the text of the token states its
-- expiry.
record IsRenewed (token : SasToken) (s : Stage) : Type 0 where
  held : s.sastoken ≡ some token
  renews : token.renewable ≡ true
  current : token.signed_for ≡ token.expiry_time
  watched : IsSetInTime token s.token_update_alarm ⊎ (0 < s.alarm_calls)

abbrev IsCovered : Stage → Type 0
IsCovered s = (token : SasToken) × IsRenewed token s

-- No shutdown, no other token, and no failure of a signing.
abbrev pub is_harmless : Stimulus → Bool
is_harmless (arrive now op) = if is_shutdown op.kind then false else true
is_harmless (set_sastoken token) = false
is_harmless (alarm_call now signs) = signs
is_harmless _ = true

module _ (timeout_max : ℕ) where
  update_time_lem :
      (now : ℕ) (token : SasToken)
      → update_time timeout_max now token ≤ token.expiry_time - default_token_update_margin
  unfolding update_time
  update_time_lem now token = ground arith

  started :
      (now : ℕ) (token : SasToken) (s : Stage)
      → s.sastoken ≡ some token
      → token.renewable ≡ true
      → token.signed_for ≡ token.expiry_time
      → IsCovered (start_token_update_alarm timeout_max now token s)
  started now token s e renews current = (
    token,
    record {
      held = e;
      renews = renews;
      current = current;
      watched = inl (update_time_lem now token);
    },
  )

  kept :
      (s t : Stage)
      → t.sastoken ≡ s.sastoken
      → t.token_update_alarm ≡ s.token_update_alarm
      → t.alarm_calls ≡ s.alarm_calls
      → IsCovered s
      → IsCovered t
  kept s t e f g (token, h) = (
    token,
    record {
      held = e ∙ h.held;
      renews = h.renews;
      current = h.current;
      watched = rw (f, g) h.watched;
    },
  )

  starts-IsCovered :
      (now : ℕ) (op : Op) (token : SasToken) (s : Stage)
      → starts_alarm op.kind ≡ true
      → s.sastoken ≡ some token
      → token.renewable ≡ true
      → token.signed_for ≡ token.expiry_time
      → IsCovered (run_op timeout_max now op s)
  unfolding run_op
  starts-IsCovered now op token s starts e renews current =
      let set : (run_op timeout_max now op s).token_update_alarm
          ≡ some (update_time timeout_max now token) =
        ground (arith, e, starts) in
      (
        token,
        record {
          held = ground (arith, e, starts);
          renews = renews;
          current = current;
          watched = rw set (inl (update_time_lem now token));
        },
      )

  run_op-IsCovered :
      (now : ℕ) (op : Op) (s : Stage)
      → is_shutdown op.kind ≡ false
      → IsCovered s
      → IsCovered (run_op timeout_max now op s)
  unfolding run_op
  run_op-IsCovered now op s stays (token, h) = elim (Bool-cases (starts_alarm op.kind)) [
    | inl starts ↦ starts-IsCovered now op token s starts h.held h.renews h.current
    | inr other ↦
        kept s (run_op timeout_max now op s) (ground (arith, other, stays))
          (ground (arith, other, stays)) (ground (arith, other, stays)) (token, h)
  ]

  renewed-IsCovered :
      (now : ℕ) (token : SasToken) (s : Stage)
      → s.sastoken ≡ some token
      → token.renewable ≡ true
      → token.signed_for ≡ token.expiry_time
      → IsCovered (renewed timeout_max now token s)
  unfolding renewed reauthorize_connection
  renewed-IsCovered now token s e renews current = elim (Bool-cases s.connected) [
    | inl up ↦
        started now token (if s.connected then reauthorize_connection s else s) (ground (arith, e))
          renews current
    | inr down ↦
        started now token (if s.connected then reauthorize_connection s else s) (ground (arith, e))
          renews current
  ]

  renew_token-IsCovered :
      (now : ℕ) (token : SasToken) (s : Stage)
      → token.renewable ≡ true
      → IsCovered (renew_token timeout_max now true token s)
  unfolding renew_token refresh
  renew_token-IsCovered now token s renews = renewed-IsCovered now _ _ refl renews refl

  rings-IsCovered :
      (now : ℕ) (found : Option SasToken) (token : SasToken) (s : Stage)
      → found ≡ some token
      → token.renewable ≡ true
      → IsCovered (rings timeout_max now true found s)
  rings-IsCovered now none token s e renews = absurd (ground arith)
  rings-IsCovered now (some other) token s e renews =
      if_ind IsCovered other.renewable (λ yes. renew_token-IsCovered now other s yes)
        (λ no. absurd (ground arith))

  call-IsCovered :
      (now : ℕ) (s : Stage) → IsCovered s → IsCovered (alarm_called timeout_max now true s)
  unfolding alarm_called
  call-IsCovered now s (token, h) =
      if_ind IsCovered (s.alarm_calls == 0) (λ none_waits. (token, h))
        (λ waits.
          rings-IsCovered now s.sastoken token (record s { alarm_calls = s.alarm_calls - 1 }) h.held
            h.renews)

  expires-IsCovered : (s : Stage) → IsCovered s → IsCovered (alarm_expires s)
  unfolding alarm_expires
  expires-IsCovered s (token, h) =
      if_ind IsCovered (is_some s.token_update_alarm)
        (λ set. (
          token,
          record {
            held = h.held;
            renews = h.renews;
            current = h.current;
            watched = inr (omega arith);
          },
        ))
        (λ silent. (token, h))

  step-IsCovered :
      (e : Stimulus) (s : Stage)
      → is_harmless e ≡ true
      → IsCovered s
      → IsCovered (step timeout_max e s)
  unfolding step reauthorize_completes on_reauthorize_complete retry_expires reauthorize_connection
  step-IsCovered (arrive now op) s fine h = run_op-IsCovered now op s (ground arith) h
  step-IsCovered (set_sastoken token) s fine h = absurd (ground arith)
  step-IsCovered (set_connected b) s fine h = kept s _ refl refl refl h
  step-IsCovered alarm_time s fine h = expires-IsCovered s h
  step-IsCovered (alarm_call now true) s fine h = call-IsCovered now s h
  step-IsCovered (alarm_call now false) s fine h = absurd (ground arith)
  step-IsCovered (reauthorized error) s fine h =
      kept s (reauthorize_completes error s) (ground arith) (ground arith) (ground arith) h
  step-IsCovered (retry timer) s fine h =
      kept s (retry_expires timer s) (ground arith) (ground arith) (ground arith) h

  run-IsCovered :
      (es : List Stimulus) (s : Stage)
      → All (λ e. is_harmless e ≡ true) es
      → IsCovered s
      → IsCovered (run timeout_max es s)
  unfolding run
  run-IsCovered [] s fine h = h
  run-IsCovered (e ∷ es) s fine h =
      run-IsCovered es (step timeout_max e s) fine.1 (step-IsCovered e s fine.0 h)

  -- Once the pipeline is initialized with a renewable token, and as long as it is not shut down,
  -- the token is not replaced by another and every signing succeeds: whatever else happens, the
  -- token in use states its own expiry, and an alarm is set that goes off to renew it no later
  -- than 120 seconds before it expires, or one has gone off and the renewal is to be taken up.
  pub token_stays_renewed :
      (now : ℕ) (op : Op) (token : SasToken) (es : List Stimulus) (s : Stage)
      → op.kind ≡ initialize
      → s.sastoken ≡ some token
      → token.renewable ≡ true
      → token.signed_for ≡ token.expiry_time
      → All (λ e. is_harmless e ≡ true) es
      → let after = run timeout_max (arrive now op ∷ es) s in
        (held : SasToken) × (after.sastoken ≡ some held)
        × (held.signed_for ≡ held.expiry_time)
        × (IsSetInTime held after.token_update_alarm ⊎ (0 < after.alarm_calls))
  unfolding run step
  token_stays_renewed now op token es s starts e renews current fine =
      let begun = starts-IsCovered now op token s (ground (arith, starts)) e renews current in
      let (held, h) = run-IsCovered es (run_op timeout_max now op s) fine begun in
      (held, h.held, h.current, h.watched)
