-- ===== src/Transport/MqttTransport/Samples.antt =====
-- The MQTT transport at concrete inputs.
use azure_iot_dev.Prelude.{◌≡◌, refl, true, false, some, List, [], ◌∷◌}
use azure_iot_dev.Errors.{connection_dropped_error, connection_failed_error, protocol_client_error}
use azure_iot_dev.Transport.OperationManager
use azure_iot_dev.Transport.MqttTransport.{
  Paho, create_error_from_rc_code, socket_error, value_exception, returns, raises, connect, lookup,
  paho_rc_to_error,
}
use azure_iot_dev.Transport.MqttTransport.Calls.{
  new_transport, publishing, subscribing, Stimulus, set_handlers, call_connect, call_request,
  call_shutdown, call_cancel_in_flight, connack_received, disconnect_noticed, acknowledged, run,
}
use azure_iot_dev.Transport.MqttTransport.Requests.{manager_requests, transport_refines_manager}
use azure_iot_dev.Transport.MqttTransport.Connect.{Connects, connect_raises_documented}

-- Codes as paho's version 1 has them.
abbrev paho : Paho
paho = record {
  connack_refused_protocol_version = 1;
  connack_refused_identifier_rejected = 2;
  connack_refused_server_unavailable = 3;
  connack_refused_bad_username_password = 4;
  connack_refused_not_authorized = 5;
  mqtt_err_nomem = 1;
  mqtt_err_protocol = 2;
  mqtt_err_inval = 3;
  mqtt_err_no_conn = 4;
  mqtt_err_conn_refused = 5;
  mqtt_err_not_found = 6;
  mqtt_err_conn_lost = 7;
  mqtt_err_tls = 8;
  mqtt_err_payload_size = 9;
  mqtt_err_not_supported = 10;
  mqtt_err_auth = 11;
  mqtt_err_acl_denied = 12;
  mqtt_err_unknown = 13;
  mqtt_err_errno = 14;
  mqtt_err_queue_size = 15;
  mqtt_err_keepalive = 16;
}

rc_codes :
    (create_error_from_rc_code paho 1 ≡ connection_dropped_error)
    × (create_error_from_rc_code paho 5 ≡ connection_failed_error)
    × (create_error_from_rc_code paho 99 ≡ protocol_client_error)
unfolding create_error_from_rc_code lookup paho_rc_to_error
rc_codes = (refl, refl, refl)

abbrev session : List Stimulus
session =
    set_handlers
    ∷ call_connect (returns 0)
    ∷ connack_received 0
    ∷ call_request publishing (returns (0, 7)) (some 70)
    ∷ call_request subscribing (raises value_exception) (some 80)
    ∷ acknowledged 7
    ∷ call_request publishing (returns (0, 8)) (some 90)
    ∷ disconnect_noticed 7
    ∷ call_cancel_in_flight
    ∷ call_shutdown
    ∷ []

transport_refines_manager_example :
    (run paho session (new_transport true)).op_manager
    ≡ OperationManager.run (manager_requests session) (new_transport true).op_manager
transport_refines_manager_example = transport_refines_manager paho session (new_transport true)

connect_raises_documented_example :
    Connects
      (raises socket_error)
      (connect paho (raises socket_error) (new_transport false)).0
      (connect paho (raises socket_error) (new_transport false)).1
connect_raises_documented_example =
    connect_raises_documented paho (raises socket_error) (new_transport false)
