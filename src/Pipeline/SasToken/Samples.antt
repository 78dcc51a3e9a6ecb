-- ===== src/Pipeline/SasToken/Samples.antt =====
-- The SAS token stage at concrete inputs.
use azure_iot_dev.Prelude.{ℕ, ◌<◌, ◌⊎◌, ◌≡◌, refl, true, false, none, some, List, [], ◌∷◌}
use azure_iot_dev.Errors.{operation_timeout}
use azure_iot_dev.Pipeline.Ops.{Op, initialize, shutdown}
use azure_iot_dev.Pipeline.SasToken.{
  SasToken, sent_down, sent_reauthorize, reported, Stage, run_op, cancel_reauth_retry_timer,
  refresh, update_time, reauthorize_connection, renewed, renew_token, alarm_expires, alarm_called,
  on_reauthorize_complete, reauthorize_completes, retry_expires, Stimulus, arrive, set_connected,
  alarm_time, alarm_call, reauthorized, retry, step, run,
}
use azure_iot_dev.Pipeline.SasToken.Alarm.{IsSetInTime, token_stays_renewed}
use azure_iot_dev.Pipeline.SasToken.Failure.{failed_signing_ends_renewal}

-- `threading.TIMEOUT_MAX` of a platform on which it is about 49.7 days.
abbrev timeout_max : ℕ
timeout_max = 4294967

abbrev token : SasToken
token = record { renewable = true; expiry_time = 4600; ttl = 3600; signed_for = 4600 }

abbrev start : Op
start = record { id = 1; kind = initialize; needs_connection = false }

abbrev stop : Op
stop = record { id = 2; kind = shutdown; needs_connection = false }

-- The connection comes up, the token is renewed, the reauthorization fails with the connection
-- down, and is retried.
abbrev renewal : List Stimulus
renewal =
    set_connected true
    ∷ alarm_time
    ∷ alarm_call 4480 true
    ∷ set_connected false
    ∷ reauthorized (some operation_timeout)
    ∷ retry 0
    ∷ []

abbrev fresh : Stage
fresh = record {
  sastoken = some token;
  connected = false;
  connection_retry = true;
  token_update_alarm = none;
  alarm_calls = 0;
  reauth_retry_timer = none;
  running = [];
  next_timer = 0;
  reauthorizing = 0;
  outputs = [];
}

run-renewal : run timeout_max (arrive 1000 start ∷ renewal) fresh ≡ record fresh {
  sastoken = some (record token { expiry_time = 8080; signed_for = 8080 });
  token_update_alarm = some 7960;
  reauth_retry_timer = some 0;
  next_timer = 1;
  reauthorizing = 1;
  outputs = sent_down start ∷ sent_reauthorize ∷ reported operation_timeout ∷ sent_reauthorize ∷ [];
}
unfolding run step run_op update_time alarm_expires alarm_called renew_token renewed refresh
    cancel_reauth_retry_timer reauthorize_connection reauthorize_completes on_reauthorize_complete
    retry_expires
run-renewal = refl

-- A token that outlives the longest alarm is renewed when that ends.
update_time-capped : update_time timeout_max 1000 (record token { expiry_time = 9999999 }) ≡ 4295967
unfolding update_time
update_time-capped = refl

token_stays_renewed_example :
    let after = run timeout_max (arrive 1000 start ∷ renewal) fresh in
    (held : SasToken) × (after.sastoken ≡ some held)
    × (held.signed_for ≡ held.expiry_time)
    × (IsSetInTime held after.token_update_alarm ⊎ (0 < after.alarm_calls))
token_stays_renewed_example =
    token_stays_renewed timeout_max 1000 start token renewal fresh refl refl refl refl
      (refl, (refl, (refl, (refl, (refl, (refl, tt))))))

abbrev armed : Stage
armed = record fresh { token_update_alarm = some 4480 }

failed_signing_ends_renewal_example :
    let after =
      run timeout_max (alarm_time ∷ alarm_call 4480 false ∷ set_connected true ∷ []) armed in
    (after.token_update_alarm ≡ none)
    × (after.sastoken ≡ some (record token { expiry_time = 8080 }))
failed_signing_ends_renewal_example =
    failed_signing_ends_renewal timeout_max 4480 4480 token (set_connected true ∷ []) armed refl
      refl refl refl (refl, tt)

abbrev under_way : Stage
under_way = record fresh { reauthorizing = 1; next_timer = 3 }
