-- ===== src/Pipeline/Connection/Samples.antt =====
-- The lock and the transport at concrete inputs.
use azure_iot_dev.Prelude.{ℕ, ◌≡◌, refl, true, false, none, List, [], ◌∷◌}
use azure_iot_dev.Pipeline.Ops.{Op, OpKind, connect, disconnect}
use azure_iot_dev.Pipeline.ConnectionLock
use azure_iot_dev.Pipeline.MqttTransport
use azure_iot_dev.Pipeline.MqttTransport.{Raises}
use azure_iot_dev.Pipeline.MqttTransport.Handlers
use azure_iot_dev.Pipeline.Connection.{
  start, Move, arrive, return_to_lock, set_connected, in_transport, pass_down, pass_up, step, run,
}
use azure_iot_dev.Pipeline.Connection.Exclusion.{lock_protects_transport}

abbrev op_of_kind : ℕ → OpKind → Op
op_of_kind id kind = record { id = id; kind = kind; needs_connection = false }

abbrev fine : Raises
fine = record {
  connect_raises = none;
  disconnect_raises = none;
  shutdown_raises = none;
  create_raises = none;
  request_raises = none;
}

-- A disconnect arrives while a connect is in progress, and comes down when that has completed.
abbrev session : List Move
session =
    arrive (op_of_kind 1 connect)
    ∷ arrive (op_of_kind 2 disconnect)
    ∷ pass_down fine
    ∷ in_transport Handlers.mqtt_connected
    ∷ set_connected true
    ∷ in_transport (Handlers.return_to_call fine)
    ∷ pass_up
    ∷ return_to_lock
    ∷ []

lock_protects_transport_example : (run session (start true)).transport.pending_connection_op ≡ none
unfolding run step start ConnectionLock.initial MqttTransport.initial ConnectionLock.step
    ConnectionLock.run_op ConnectionLock.on_operation_complete ConnectionLock.unblock
    ConnectionLock.resume ConnectionLock.release ConnectionLock.release_op Handlers.step
    Handlers.resume Handlers.finish_connected MqttTransport.run_op MqttTransport.run_kind
    MqttTransport.run_connection_op MqttTransport.start_connect
lock_protects_transport_example =
    lock_protects_transport true session (op_of_kind 2 disconnect) []
      (refl, (refl, (refl, (refl, (refl, (refl, (refl, (refl, tt)))))))) refl refl
