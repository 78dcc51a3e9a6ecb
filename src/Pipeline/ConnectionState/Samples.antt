-- ===== src/Pipeline/ConnectionState/Samples.antt =====
-- Small runs of the connection state stage, and the theorems at concrete inputs.
use azure_iot_dev.Prelude.{
  arith, ℕ, ◌<◌, ◌≡◌, refl, ◌⊎◌, true, false, none, some, List, [], ◌∷◌, ◌++◌, map,
}
use azure_iot_dev.Errors.{Error, operation_timeout, connection_failed_error, unauthorized_error}
use azure_iot_dev.Pipeline.Ops.{
  Op, OpKind, connect, disconnect, reauthorize, shutdown, connected_event, disconnected_event,
}
use azure_iot_dev.Pipeline.ConnectionState.{
  connected, disconnected, connecting, reauthorizing, in_intermediate_states, at_once,
  retry_interval, sent_down, sent_up, Stage, initial, Stimulus, arrive, event, finish, timer_time,
  timer_call, return_to_loop, step, run,
}
use azure_iot_dev.Pipeline.ConnectionState.Transitions.{Change}
use azure_iot_dev.Pipeline.ConnectionState.Alone.{connections_sent, state_transitions}
use azure_iot_dev.Pipeline.ConnectionState.Reconnect.{
  reconnects_sent, disconnect_ends_reconnection, expired_timer_outlives_disconnect,
}
use azure_iot_dev.Pipeline.ConnectionState.Persistence.{
  attempts, attempted, retrying, reconnect_persists,
}
use azure_iot_dev.Pipeline.ConnectionState.Waiting.{
  outstanding, stranded, waiting_is_awake, early_success_strands,
}

abbrev op : ℕ → OpKind → Op
op id kind = record { id = id; kind = kind; needs_connection = false }

-- Connected by operation 1, and nothing else.
abbrev up : Stage
up = record {
  state = connected;
  waiting_ops = [];
  reconnect_timer = none;
  counting = false;
  loose_timers = 0;
  expired = 0;
  connection_retry = true;
  loops = [];
  done = 1 ∷ [];
  watched = [];
  reconnects = 0;
  outputs = sent_down (op 1 connect) ∷ sent_up connected_event ∷ [];
}

abbrev log_on : List Stimulus
log_on = arrive (op 1 connect) ∷ event connected_event ∷ finish 1 none ∷ []

run-log_on : run log_on (initial true) ≡ up
unfolding run step initial
run-log_on = refl

-- A disconnect waits for the reauthorization, and goes down once that has failed.
run-waits_for :
    (run
      (arrive (op 2 reauthorize)
        ∷ arrive (op 3 disconnect)
        ∷ finish 2 (some unauthorized_error)
        ∷ return_to_loop
        ∷ return_to_loop
        ∷ [])
      up).outputs
    ≡ up.outputs ++ sent_down (op 2 reauthorize) ∷ sent_down (op 3 disconnect) ∷ []
unfolding run step
run-waits_for = refl

-- A shutdown cancels the operations that wait, and then goes down itself.
run-shutdown :
    (run
      (arrive (op 2 reauthorize)
        ∷ arrive (op 3 disconnect)
        ∷ arrive (op 4 shutdown)
        ∷ return_to_loop
        ∷ return_to_loop
        ∷ [])
      up).waiting_ops
    ≡ []
unfolding run step
run-shutdown = refl

abbrev reauthorizing_now : List Stimulus
reauthorizing_now = log_on ++ arrive (op 2 reauthorize) ∷ []

-- A disconnect comes while the reauthorization is in progress.
state_transitions_example :
    let s = run reauthorizing_now (initial true) in
    Change (arrive (op 3 disconnect)) s.state (step (arrive (op 3 disconnect)) s).state
    × ((in_intermediate_states s.state ≡ false)
        ⊎ (connections_sent (step (arrive (op 3 disconnect)) s).outputs
            ≡ connections_sent s.outputs))
state_transitions_example = state_transitions true reauthorizing_now (arrive (op 3 disconnect))

run-reauthorizes : (run reauthorizing_now (initial true)).state ≡ reauthorizing
unfolding run step initial
run-reauthorizes = refl

-- The connection is lost, and the disconnect comes before the timer has expired.
abbrev lost : Stage
lost = record up { state = disconnected; reconnect_timer = some at_once; counting = true }

abbrev hang_up : List Stimulus
hang_up = event disconnected_event ∷ timer_time ∷ timer_call ∷ []

disconnect_ends_reconnection_example :
    (reconnects_sent (run (arrive (op 2 disconnect) ∷ hang_up) lost).outputs ≡ 0)
    × ((run (arrive (op 2 disconnect) ∷ hang_up) lost).reconnect_timer ≡ none)
disconnect_ends_reconnection_example =
    disconnect_ends_reconnection (op 2 disconnect) hang_up lost refl refl refl refl refl
      (refl, (refl, (refl, tt)))

abbrev expired_too_soon : Stage
expired_too_soon = record lost { counting = false; expired = 1 }

run-expired :
    run (event disconnected_event ∷ timer_time ∷ []) up
    ≡ record expired_too_soon { outputs = up.outputs ++ sent_up disconnected_event ∷ [] }
unfolding run step
run-expired = refl

expired_timer_outlives_disconnect_example :
    let after = run (arrive (op 2 disconnect) ∷ finish 2 none ∷ timer_call ∷ []) expired_too_soon in
    (after.state ≡ connecting) × (reconnects_sent after.outputs ≡ 1)
expired_timer_outlives_disconnect_example =
    expired_timer_outlives_disconnect (op 2 disconnect) expired_too_soon refl refl (omega arith)

abbrev failures : List Error
failures = connection_failed_error ∷ operation_timeout ∷ []

reconnect_persists_example :
    run (event disconnected_event ∷ attempts failures) up
    ≡ retrying retry_interval
        ((up.outputs ++ sent_up disconnected_event ∷ []) ++ attempted failures)
        up
reconnect_persists_example = reconnect_persists up refl refl failures refl (refl, (refl, tt))

waiting_is_awake_example :
    ((run log_on (initial true)).waiting_ops ≡ []) ⊎ (0 < outstanding (run log_on (initial true)))
unfolding run step initial
waiting_is_awake_example = waiting_is_awake true log_on (tt, (tt, (refl, tt)))

-- As after a disconnect that failed: DISCONNECTED, while the transport is still connected.
abbrev failed_to_disconnect : Stage
failed_to_disconnect = record up { state = disconnected }

early_success_strands_example :
    run
      (arrive (op 2 connect) ∷ finish 2 none ∷ map arrive (op 3 disconnect ∷ op 4 connect ∷ []))
      failed_to_disconnect
    ≡ stranded (op 2 connect) (op 3 disconnect ∷ op 4 connect ∷ []) failed_to_disconnect
early_success_strands_example =
    early_success_strands (op 2 connect) (op 3 disconnect ∷ op 4 connect ∷ []) failed_to_disconnect
      refl (refl, (refl, tt)) refl refl
