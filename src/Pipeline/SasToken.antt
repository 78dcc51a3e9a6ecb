-- ===== src/Pipeline/SasToken.antt =====
-- `SasTokenStage` of
-- azure-iot-device/azure/iot/device/common/pipeline/pipeline_stages_base.py, with the life of the
-- token that it renews (`RenewableSasToken` of
-- azure-iot-device/azure/iot/device/common/auth/sastoken.py). Times are seconds since the epoch, of
-- whole seconds. An alarm that goes off calls its function on the pipeline thread, which takes the call
-- up later; the call of a retry timer is taken up at once here.
pub mod Alarm
pub mod Failure
pub mod Single
pub mod Retries
pub mod Samples
use azure_iot_dev.Prelude.{
  ℕ, suc, ◌+◌, ◌-◌, Bool, true, false, not, ◌&&◌, ◌||◌, Option, none, some, List, [], ◌∷◌, ◌++◌,
  ltb, ◌==◌, if◌then◌else◌, is_some,
}
use azure_iot_dev.Errors.{Error, sas_token_error}
use azure_iot_dev.Pipeline.Ops.{
  Op, OpKind, initialize, shutdown, reauthorize, Event, new_sastoken_required_event,
}

-- A token: a renewable one has a time to live, and `signed_for` is the expiry that its text states.
pub record SasToken : Type 0 where
  pub renewable : Bool
  pub expiry_time : ℕ
  pub ttl : ℕ
  pub signed_for : ℕ

-- What the stage has asked of the outside, in order. `sent_reauthorize` is the operation that
-- `_reauthorize` makes.
pub data Output : Type 0 where
  sent_down : Op → Output
  sent_reauthorize : Output
  sent_up : Event → Output
  reported : Error → Output

-- `sastoken`, `connected` and `connection_retry` are the nucleus's. The alarm is the time for which
-- it is set; none stands also for one that has gone off, whose call is counted by `alarm_calls` until
-- it is taken up, and cannot be cancelled. `reauth_retry_timer` names the timer that
-- the stage holds, and `running` those that run, of which the next gets the number `next_timer`.
-- `reauthorizing` counts the operations of `_reauthorize` that are still to complete.
pub record Stage : Type 0 where
  pub sastoken : Option SasToken
  pub connected : Bool
  pub connection_retry : Bool
  pub token_update_alarm : Option ℕ
  pub alarm_calls : ℕ
  pub reauth_retry_timer : Option ℕ
  pub running : List ℕ
  pub next_timer : ℕ
  pub reauthorizing : ℕ
  pub outputs : List Output

unfoldable pub initial : Option SasToken → Bool → Stage
initial sastoken connection_retry = record {
  sastoken = sastoken;
  connected = false;
  connection_retry = connection_retry;
  token_update_alarm = none;
  alarm_calls = 0;
  reauth_retry_timer = none;
  running = [];
  next_timer = 0;
  reauthorizing = 0;
  outputs = [];
}

abbrev pub emit : Output → Stage → Stage
emit output s = record s { outputs = s.outputs ++ output ∷ [] }

abbrev pub default_token_update_margin : ℕ
default_token_update_margin = 120

abbrev pub without : ℕ → List ℕ → List ℕ
without timer [] = []
without timer (t ∷ rest) = if t == timer then rest else t ∷ without timer rest

abbrev pub has : ℕ → List ℕ → Bool
has timer [] = false
has timer (t ∷ rest) = t == timer || has timer rest

abbrev cancel_token_update_alarm : Stage → Stage
cancel_token_update_alarm s = record s { token_update_alarm = none }

abbrev pub cancelled : Option ℕ → List ℕ → List ℕ
cancelled none running = running
cancelled (some timer) running = without timer running

-- A timer that has ended is cancelled without effect.
unfoldable pub cancel_reauth_retry_timer : Stage → Stage
cancel_reauth_retry_timer s = record s {
  reauth_retry_timer = none;
  running = cancelled s.reauth_retry_timer s.running;
}

-- `RenewableSasToken.refresh` at the time `now`: the expiry is set first, and then the token is
-- built, which fails if the signing does.
unfoldable pub refresh : ℕ → Bool → SasToken → SasToken
refresh now signs token =
    if signs
    then record token { expiry_time = now + token.ttl; signed_for = now + token.ttl }
    else record token { expiry_time = now + token.ttl }

abbrev pub starts_alarm : OpKind → Bool
starts_alarm initialize = true
starts_alarm reauthorize = true
starts_alarm _ = false

abbrev pub is_shutdown : OpKind → Bool
is_shutdown shutdown = true
is_shutdown _ = false

-- `_reauthorize` up to its callback.
unfoldable pub reauthorize_connection : Stage → Stage
reauthorize_connection s = emit sent_reauthorize (record s { reauthorizing = suc s.reauthorizing })

-- `timeout_max` is `threading.TIMEOUT_MAX`.
module _ (timeout_max : ℕ) where
  -- A time before the epoch is 0 here; an alarm rings for both at once.
  unfoldable pub update_time : ℕ → SasToken → ℕ
  update_time now token =
      let due = token.expiry_time - default_token_update_margin in
      if ltb timeout_max (due - now) then now + timeout_max else due

  abbrev pub start_token_update_alarm : ℕ → SasToken → Stage → Stage
  start_token_update_alarm now token s = record s {
    token_update_alarm = some (update_time now token);
  }

  abbrev pub restart : ℕ → Option SasToken → Stage → Stage
  restart now none s = s
  restart now (some token) s = start_token_update_alarm now token s

  unfoldable pub run_op : ℕ → Op → Stage → Stage
  unfolding update_time cancel_reauth_retry_timer
  run_op now op s = emit (sent_down op) (
      if starts_alarm op.kind && is_some s.sastoken
      then restart now s.sastoken s
      else if is_shutdown op.kind
      then cancel_reauth_retry_timer (cancel_token_update_alarm s)
      else s)

  -- `renew_token`, after the refresh.
  unfoldable pub renewed : ℕ → SasToken → Stage → Stage
  unfolding update_time reauthorize_connection
  renewed now token s =
      start_token_update_alarm now token (if s.connected then reauthorize_connection s else s)

  unfoldable pub renew_token : ℕ → Bool → SasToken → Stage → Stage
  unfolding renewed cancel_reauth_retry_timer refresh
  renew_token now signs token s =
      let after = refresh now signs token in
      let calm = record (cancel_reauth_retry_timer s) { sastoken = some after } in
      if signs then renewed now after calm else emit (reported sas_token_error) calm

  abbrev pub rings : ℕ → Bool → Option SasToken → Stage → Stage
  rings now signs none s = s
  rings now signs (some token) s =
      if token.renewable
      then renew_token now signs token s
      else emit (sent_up new_sastoken_required_event) s

  -- The thread takes up the call of an alarm, if there is one; `signs` says whether the signing
  -- succeeds. That the token is still of the kind for which the alarm was set holds since the client
  -- replaces a token by one of its kind.
  unfoldable pub alarm_called : ℕ → Bool → Stage → Stage
  unfolding renew_token
  alarm_called now signs s =
      if s.alarm_calls == 0
      then s
      else rings now signs s.sastoken (record s { alarm_calls = s.alarm_calls - 1 })

-- The alarm goes off, if there is one.
unfoldable pub alarm_expires : Stage → Stage
alarm_expires s =
    if is_some s.token_update_alarm
    then record s { token_update_alarm = none; alarm_calls = suc s.alarm_calls }
    else s

-- The callback of `_reauthorize`.
unfoldable pub on_reauthorize_complete : Option Error → Stage → Stage
on_reauthorize_complete none s = s
on_reauthorize_complete (some error) s =
    let failed = emit (reported error) s in
    if not s.connected && s.connection_retry
    then record failed {
      reauth_retry_timer = some s.next_timer;
      running = s.next_timer ∷ s.running;
      next_timer = suc s.next_timer;
    }
    else failed

-- An operation of `_reauthorize` completes, if there is one.
unfoldable pub reauthorize_completes : Option Error → Stage → Stage
unfolding on_reauthorize_complete
reauthorize_completes error s =
    if s.reauthorizing == 0
    then s
    else on_reauthorize_complete error (record s { reauthorizing = s.reauthorizing - 1 })

-- `retry_reauthorize`, when a timer that runs expires.
unfoldable pub retry_expires : ℕ → Stage → Stage
unfolding reauthorize_connection
retry_expires timer s =
    let ended = record s { running = without timer s.running } in
    if has timer s.running then if s.connected then ended else reauthorize_connection ended else s

pub data Stimulus : Type 0 where
  arrive : (now : ℕ) → Op → Stimulus
  set_sastoken : SasToken → Stimulus
  set_connected : Bool → Stimulus
  alarm_time : Stimulus
  alarm_call : (now : ℕ) (signs : Bool) → Stimulus
  reauthorized : Option Error → Stimulus
  retry : (timer : ℕ) → Stimulus

module _ (timeout_max : ℕ) where
  unfoldable pub step : Stimulus → Stage → Stage
  unfolding run_op alarm_expires alarm_called reauthorize_completes retry_expires
  step (arrive now op) s = run_op timeout_max now op s
  step (set_sastoken token) s = record s { sastoken = some token }
  step (set_connected b) s = record s { connected = b }
  step alarm_time s = alarm_expires s
  step (alarm_call now signs) s = alarm_called timeout_max now signs s
  step (reauthorized error) s = reauthorize_completes error s
  step (retry timer) s = retry_expires timer s

  unfoldable pub run : List Stimulus → Stage → Stage
  run [] s = s
  run (e ∷ rest) s = run rest (step e s)
