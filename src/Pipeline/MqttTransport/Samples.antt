-- ===== src/Pipeline/MqttTransport/Samples.antt =====
-- The MQTT transport stage at concrete inputs.
use azure_iot_dev.Prelude.{ℕ, ◌+◌, ◌≡◌, refl, true, false, none, some, List, [], ◌∷◌, ◌++◌}
use azure_iot_dev.Errors.{operation_timeout, connection_dropped_error}
use azure_iot_dev.Pipeline.Ops.{
  Op, OpKind, initialize, connect, reauthorize, mqtt_publish, connected_event, disconnected_event,
}
use azure_iot_dev.Pipeline.MqttTransport.{
  completed, sent_up, called_connect, called_disconnect, requested, Raises, Stage, initial, run_op,
  start_connect, complete_op, run_connection_op, run_kind, cancel_pending,
}
use azure_iot_dev.Pipeline.MqttTransport.Handlers.{
  finish_connected, resume, Stimulus, arrive, mqtt_connected, return_to_call, set_connected,
  watchdog, acknowledged, pipeline_thread, acknowledge, run_queued, watchdog_expires, bark, step,
  run,
}
use azure_iot_dev.Pipeline.MqttTransport.Guards.{Guards, barks}
use azure_iot_dev.Pipeline.MqttTransport.Watchdog.{connect_is_watched}
use azure_iot_dev.Pipeline.MqttTransport.Counts.{hit, answered, under_way}
use azure_iot_dev.Pipeline.MqttTransport.Conservation.{arrivals, operations_conserved}
use azure_iot_dev.Pipeline.MqttTransport.Reauthorize.{connection_renewed, reauthorize_renews}

abbrev op_of_kind : ℕ → OpKind → Op
op_of_kind id kind = record { id = id; kind = kind; needs_connection = false }

abbrev fine : Raises
fine = record {
  connect_raises = none;
  disconnect_raises = none;
  shutdown_raises = none;
  create_raises = none;
  request_raises = none;
}

-- A connect whose connection never comes up is timed out by its watchdog; the second one succeeds,
-- and a publish is acknowledged.
abbrev session : List Stimulus
session =
    arrive fine (op_of_kind 0 initialize)
    ∷ arrive fine (op_of_kind 1 connect)
    ∷ watchdog 0 fine
    ∷ arrive fine (op_of_kind 2 connect)
    ∷ mqtt_connected
    ∷ set_connected true
    ∷ return_to_call fine
    ∷ arrive fine (op_of_kind 3 mqtt_publish)
    ∷ acknowledged 3
    ∷ pipeline_thread
    ∷ arrive fine (op_of_kind 4 connect)
    ∷ []

run-session :
    (run session (initial true)).outputs
    ≡ completed (op_of_kind 0 initialize) none
      ∷ called_connect
      ∷ called_disconnect false
      ∷ completed (op_of_kind 1 connect) (some operation_timeout)
      ∷ called_connect
      ∷ sent_up connected_event
      ∷ completed (op_of_kind 2 connect) none
      ∷ requested (op_of_kind 3 mqtt_publish)
      ∷ completed (op_of_kind 3 mqtt_publish) none
      ∷ called_connect
      ∷ []
unfolding run step run_op run_kind run_connection_op start_connect resume finish_connected initial
    cancel_pending complete_op watchdog_expires bark acknowledge run_queued
run-session = refl

connect_is_watched_example :
    Guards
      (run session (initial true)).pending_connection_op
      (run session (initial true)).watchdogs
      (barks (run session (initial true)).suspended)
unfolding run step run_op run_kind run_connection_op start_connect resume finish_connected initial
    cancel_pending complete_op watchdog_expires bark acknowledge run_queued
connect_is_watched_example =
    connect_is_watched true session
      (refl, (refl, (refl, (refl, (refl, (refl, (refl, (refl, (refl, (refl, (refl, tt)))))))))))

operations_conserved_example :
    answered (hit 4) (run session (initial true)).outputs
      + under_way (hit 4) (run session (initial true))
    ≡ arrivals (hit 4) session
unfolding run step run_op run_kind run_connection_op start_connect resume finish_connected initial
    cancel_pending complete_op watchdog_expires bark acknowledge run_queued
operations_conserved_example =
    operations_conserved 4 true session
      (refl, (refl, (refl, (refl, (refl, (refl, (refl, (refl, (refl, (refl, (refl, tt)))))))))))

abbrev connected : Stage
connected = record (initial true) {
  transport = true;
  connected = true;
  in_flight = op_of_kind 3 mqtt_publish ∷ [];
}

reauthorize_renews_example :
    let op : Op = op_of_kind 5 reauthorize in
    let t : Stage = run (connection_renewed fine op (some connection_dropped_error)) connected in
    (t.outputs
      ≡ ((((connected.outputs ++ called_disconnect false ∷ []) ++ sent_up disconnected_event ∷ [])
            ++ called_connect ∷ [])
          ++ sent_up connected_event ∷ [])
        ++ completed op none ∷ [])
    × (t.pending_connection_op ≡ none)
    × (t.in_flight ≡ connected.in_flight)
unfolding initial
reauthorize_renews_example =
    reauthorize_renews fine 5 false (some connection_dropped_error) connected refl refl refl refl
