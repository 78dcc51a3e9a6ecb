-- ===== src/Transport/MqttTransport/Calls.antt =====
-- The requests of `MQTTTransport` of azure-iot-device/azure/iot/device/common/mqtt_transport.py, the
-- functions that paho calls, and the runs.
use azure_iot_dev.Prelude.{
  ℕ, zero, suc, Bool, true, false, Option, none, some, List, [], ◌∷◌, if◌then◌else◌,
}
use azure_iot_dev.Errors.{Error, protocol_client_error, value_error, type_error}
use azure_iot_dev.Text.{Text}
use azure_iot_dev.Transport.OperationManager.{
  establish_operation, complete_operation, cancel_all_operations, initial,
}
use azure_iot_dev.Transport.MqttTransport.{
  Paho, create_error_from_connack_rc_code, create_error_from_rc_code, Output, paho_subscribe,
  paho_unsubscribe, paho_publish, on_mqtt_connected, on_mqtt_connection_failure,
  on_mqtt_disconnected, on_mqtt_message_received, Transport, emit, Result,
  force_transport_disconnect_and_cleanup, shutdown, Exception, value_exception, type_exception,
  Returned, returns, raises, connect, disconnect,
}

-- `__init__`, for the state that is modelled.
unfoldable pub new_transport : Bool → Transport
unfolding initial
new_transport websockets = record {
  websockets = websockets;
  has_handlers = false;
  handles_disconnect = true;
  loop_runs = false;
  op_manager = initial;
  outputs = [];
}

-- What paho returns for a request: a code and the mid.
abbrev pub Reply : Type 0
Reply = Returned (ℕ × ℕ)

abbrev pub establish : ℕ → Option ℕ → Transport → Transport
establish mid callback t = record t { op_manager = establish_operation mid callback t.op_manager }

abbrev pub replied : Paho → ℕ → ℕ → Option ℕ → Transport → Result
replied p zero mid callback t = (establish mid callback t, none)
replied p (suc n) mid callback t = (t, some (create_error_from_rc_code p (suc n)))

-- `except ValueError: raise` and `except Exception`
abbrev pub error_of_subscribe : Exception → Error
error_of_subscribe value_exception = value_error
error_of_subscribe _ = protocol_client_error

abbrev pub error_of_publish : Exception → Error
error_of_publish value_exception = value_error
error_of_publish type_exception = type_error
error_of_publish _ = protocol_client_error

unfoldable pub subscribe : Paho → Reply → Option ℕ → Transport → Result
unfolding create_error_from_rc_code establish_operation
subscribe p (returns (rc, mid)) callback t = replied p rc mid callback (emit paho_subscribe t)
subscribe p (raises e) callback t = (emit paho_subscribe t, some (error_of_subscribe e))

unfoldable pub unsubscribe : Paho → Reply → Option ℕ → Transport → Result
unfolding create_error_from_rc_code establish_operation
unsubscribe p (returns (rc, mid)) callback t = replied p rc mid callback (emit paho_unsubscribe t)
unsubscribe p (raises e) callback t = (emit paho_unsubscribe t, some (error_of_subscribe e))

unfoldable pub publish : Paho → Reply → Option ℕ → Transport → Result
unfolding create_error_from_rc_code establish_operation
publish p (returns (rc, mid)) callback t = replied p rc mid callback (emit paho_publish t)
publish p (raises e) callback t = (emit paho_publish t, some (error_of_publish e))

abbrev pub handle : Output → Transport → Transport
handle output t = if t.has_handlers then emit output t else t

abbrev pub connack : Paho → ℕ → Output
connack p zero = on_mqtt_connected
connack p (suc n) = on_mqtt_connection_failure (create_error_from_connack_rc_code p (suc n))

-- `on_connect`; what a handler raises is caught.
unfoldable pub on_connect : Paho → ℕ → Transport → Transport
unfolding create_error_from_connack_rc_code
on_connect p rc t = handle (connack p rc) t

abbrev pub disconnected : Paho → ℕ → Transport → Transport
disconnected p zero t = handle (on_mqtt_disconnected none) t
disconnected p (suc n) t =
    handle (on_mqtt_disconnected (some (create_error_from_rc_code p (suc n))))
      (force_transport_disconnect_and_cleanup t)

-- `on_disconnect`, while the transport exists and paho still has it.
unfoldable pub on_disconnect : Paho → ℕ → Transport → Transport
unfolding create_error_from_rc_code force_transport_disconnect_and_cleanup
on_disconnect p rc t = if t.handles_disconnect then disconnected p rc t else t

-- `on_subscribe`, `on_unsubscribe` and `on_publish`
unfoldable pub on_acknowledged : ℕ → Transport → Transport
unfolding complete_operation
on_acknowledged mid t = record t { op_manager = complete_operation mid t.op_manager }

unfoldable pub on_message : Text → Transport → Transport
on_message topic t = handle (on_mqtt_message_received topic) t

-- `transport._op_manager.cancel_all_operations()`, which the transport stage calls by itself when a
-- connection is lost that is not to be renewed.
unfoldable pub cancel_in_flight : Transport → Transport
unfolding cancel_all_operations
cancel_in_flight t = record t { op_manager = cancel_all_operations t.op_manager }

pub data RequestKind : Type 0 where
  subscribing unsubscribing publishing : RequestKind

-- What the pipeline and paho call.
pub data Stimulus : Type 0 where
  set_handlers : Stimulus
  call_connect : Returned ℕ → Stimulus
  call_disconnect : (clear_inflight : Bool) → Returned ℕ → Stimulus
  call_request : RequestKind → Reply → (callback : Option ℕ) → Stimulus
  call_shutdown call_cancel_in_flight : Stimulus
  connack_received disconnect_noticed acknowledged : ℕ → Stimulus
  message_received : Text → Stimulus

abbrev pub request : RequestKind → Paho → Reply → Option ℕ → Transport → Result
request subscribing p r callback t = subscribe p r callback t
request unsubscribing p r callback t = unsubscribe p r callback t
request publishing p r callback t = publish p r callback t

unfoldable pub step : Paho → Stimulus → Transport → Transport
unfolding connect disconnect shutdown subscribe unsubscribe publish on_connect on_disconnect
    on_acknowledged on_message cancel_in_flight
step p set_handlers t = record t { has_handlers = true }
step p (call_connect r) t = (connect p r t).0
step p (call_disconnect clear_inflight r) t = (disconnect p clear_inflight r t).0
step p (call_request kind r callback) t = (request kind p r callback t).0
step p call_shutdown t = shutdown t
step p call_cancel_in_flight t = cancel_in_flight t
step p (connack_received rc) t = on_connect p rc t
step p (disconnect_noticed rc) t = on_disconnect p rc t
step p (acknowledged mid) t = on_acknowledged mid t
step p (message_received topic) t = on_message topic t

unfoldable pub run : Paho → List Stimulus → Transport → Transport
unfolding step
run p [] t = t
run p (e ∷ rest) t = run p rest (step p e t)
