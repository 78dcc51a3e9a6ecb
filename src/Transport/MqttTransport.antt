-- ===== src/Transport/MqttTransport.antt =====
-- `MQTTTransport` of azure-iot-device/azure/iot/device/common/mqtt_transport.py: its errors, and the
-- methods that the pipeline calls. The package paho is not read here: its codes are a parameter, and
-- what its calls return or raise are arguments. Its `disconnect` and `loop_stop` do not raise in the
-- clean-up. The set-up of its client and of the SSL context, and `username_pw_set`, which passes the
-- credentials on, are left out.
pub mod Calls
pub mod Requests
pub mod Connect
pub mod Shutdown
pub mod Samples
use azure_iot_dev.Prelude.{
  ℕ, zero, suc, Bool, true, false, Option, none, some, List, [], ◌∷◌, ◌++◌, ◌==◌, if◌then◌else◌,
}
use azure_iot_dev.Errors.{
  Error, connection_failed_error, connection_dropped_error, no_connection_error, unauthorized_error,
  protocol_client_error, tls_exchange_auth_error, protocol_proxy_error,
}
use azure_iot_dev.Text.{Text, codes, contains}
use azure_iot_dev.Transport.OperationManager.{Manager, establish_operation, cancel_all_operations}

-- The codes of paho that the tables name.
pub record Paho : Type 0 where
  pub connack_refused_protocol_version : ℕ
  pub connack_refused_identifier_rejected : ℕ
  pub connack_refused_server_unavailable : ℕ
  pub connack_refused_bad_username_password : ℕ
  pub connack_refused_not_authorized : ℕ
  pub mqtt_err_nomem : ℕ
  pub mqtt_err_protocol : ℕ
  pub mqtt_err_inval : ℕ
  pub mqtt_err_no_conn : ℕ
  pub mqtt_err_conn_refused : ℕ
  pub mqtt_err_not_found : ℕ
  pub mqtt_err_conn_lost : ℕ
  pub mqtt_err_tls : ℕ
  pub mqtt_err_payload_size : ℕ
  pub mqtt_err_not_supported : ℕ
  pub mqtt_err_auth : ℕ
  pub mqtt_err_acl_denied : ℕ
  pub mqtt_err_unknown : ℕ
  pub mqtt_err_errno : ℕ
  pub mqtt_err_queue_size : ℕ
  pub mqtt_err_keepalive : ℕ

-- A dictionary from codes to error classes; a later entry of a literal replaces an earlier one.
abbrev pub Table : Type 0
Table = List (ℕ × Error)

abbrev or_entry : Option Error → ℕ → ℕ → Error → Option Error
or_entry (some e) rc code error = some e
or_entry none rc code error = if code == rc then some error else none

unfoldable pub lookup : ℕ → Table → Option Error
lookup rc [] = none
lookup rc ((code, error) ∷ rest) = or_entry (lookup rc rest) rc code error

unfoldable pub paho_connack_rc_to_error : Paho → Table
paho_connack_rc_to_error p =
    (p.connack_refused_protocol_version, protocol_client_error)
    ∷ (p.connack_refused_identifier_rejected, protocol_client_error)
    ∷ (p.connack_refused_server_unavailable, connection_failed_error)
    ∷ (p.connack_refused_bad_username_password, unauthorized_error)
    ∷ (p.connack_refused_not_authorized, unauthorized_error)
    ∷ []

unfoldable pub paho_rc_to_error : Paho → Table
paho_rc_to_error p =
    (p.mqtt_err_nomem, protocol_client_error)
    ∷ (p.mqtt_err_protocol, protocol_client_error)
    ∷ (p.mqtt_err_inval, protocol_client_error)
    ∷ (p.mqtt_err_no_conn, no_connection_error)
    ∷ (p.mqtt_err_conn_refused, connection_failed_error)
    ∷ (p.mqtt_err_not_found, connection_failed_error)
    ∷ (p.mqtt_err_conn_lost, connection_dropped_error)
    ∷ (p.mqtt_err_tls, unauthorized_error)
    ∷ (p.mqtt_err_payload_size, protocol_client_error)
    ∷ (p.mqtt_err_not_supported, protocol_client_error)
    ∷ (p.mqtt_err_auth, unauthorized_error)
    ∷ (p.mqtt_err_acl_denied, unauthorized_error)
    ∷ (p.mqtt_err_unknown, protocol_client_error)
    ∷ (p.mqtt_err_errno, protocol_client_error)
    ∷ (p.mqtt_err_queue_size, protocol_client_error)
    ∷ (p.mqtt_err_keepalive, connection_dropped_error)
    ∷ []

abbrev pub or_protocol_client_error : Option Error → Error
or_protocol_client_error none = protocol_client_error
or_protocol_client_error (some e) = e

unfoldable pub create_error_from_connack_rc_code : Paho → ℕ → Error
unfolding lookup paho_connack_rc_to_error
create_error_from_connack_rc_code p rc =
    or_protocol_client_error (lookup rc (paho_connack_rc_to_error p))

unfoldable pub create_error_from_rc_code : Paho → ℕ → Error
unfolding lookup paho_rc_to_error
create_error_from_rc_code p rc =
    if rc == 1
    then connection_dropped_error
    else or_protocol_client_error (lookup rc (paho_rc_to_error p))

-- The calls of paho, and of the handlers that the pipeline has set.
pub data Output : Type 0 where
  paho_connect : (port : ℕ) → Output
  paho_disconnect paho_loop_start paho_loop_stop : Output
  paho_subscribe paho_unsubscribe paho_publish : Output
  on_mqtt_connected : Output
  on_mqtt_connection_failure : Error → Output
  on_mqtt_disconnected : (cause : Option Error) → Output
  on_mqtt_message_received : (topic : Text) → Output

-- `has_handlers` says whether the four handlers are set, and `handles_disconnect` whether paho's
-- `on_disconnect` is.
pub record Transport : Type 0 where
  pub websockets : Bool
  pub has_handlers : Bool
  pub handles_disconnect : Bool
  pub loop_runs : Bool
  pub op_manager : Manager
  pub outputs : List Output

abbrev pub emit : Output → Transport → Transport
emit output t = record t { outputs = t.outputs ++ output ∷ [] }

-- A method's effect, and what it raises.
abbrev pub Result : Type 0
Result = Transport × Option Error

abbrev pub loop_stop : Transport → Transport
loop_stop t = emit paho_loop_stop (record t { loop_runs = false })

-- `_force_transport_disconnect_and_cleanup`
unfoldable pub force_transport_disconnect_and_cleanup : Transport → Transport
force_transport_disconnect_and_cleanup t = loop_stop (emit paho_disconnect t)

unfoldable pub shutdown : Transport → Transport
unfolding force_transport_disconnect_and_cleanup cancel_all_operations
shutdown t =
    let stopped =
      force_transport_disconnect_and_cleanup (record t { handles_disconnect = false }) in
    record stopped { op_manager = cancel_all_operations stopped.op_manager }

-- What paho's `connect` raises: an `SSLError` with its `strerror`, the errors of the proxy, another
-- `socket.error`, or anything else, of which a `ValueError` and a `TypeError` are told apart.
pub data Exception : Type 0 where
  ssl_error : (strerror : Option Text) → Exception
  socks5_auth_error proxy_error socket_error : Exception
  value_exception type_exception other_exception : Exception

abbrev is_verify_failure : Option Text → Bool
is_verify_failure none = false
is_verify_failure (some strerror) = contains (codes "CERTIFICATE_VERIFY_FAILED") strerror

unfoldable pub error_of_exception : Exception → Error
unfolding contains
error_of_exception (ssl_error strerror) =
    if is_verify_failure strerror then tls_exchange_auth_error else connection_failed_error
error_of_exception socks5_auth_error = unauthorized_error
error_of_exception proxy_error = protocol_proxy_error
error_of_exception socket_error = connection_failed_error
error_of_exception _ = protocol_client_error

-- What a call of paho returns or raises.
pub data Returned {ℓ} (A : Type ℓ) : Type ℓ where
  returns : A → Returned A
  raises : Exception → Returned A

-- The code that `connect` and `disconnect` return: the rest of `connect`.
abbrev started : Paho → ℕ → Transport → Result
started p zero t = (emit paho_loop_start (record t { loop_runs = true }), none)
started p (suc n) t = (t, some (create_error_from_rc_code p (suc n)))

abbrev connected : Paho → Returned ℕ → Transport → Result
connected p (returns rc) t = started p rc t
connected p (raises e) t = (force_transport_disconnect_and_cleanup t, some (error_of_exception e))

unfoldable pub connect : Paho → Returned ℕ → Transport → Result
unfolding create_error_from_rc_code force_transport_disconnect_and_cleanup error_of_exception
connect p r t = connected p r (emit (paho_connect (if t.websockets then 443 else 8883)) t)

abbrev clear : Bool → Transport → Transport
clear true t = record t { op_manager = cancel_all_operations t.op_manager }
clear false t = t

abbrev disconnected : Paho → Bool → Returned ℕ → Transport → Result
disconnected p clear_inflight (returns zero) t = (clear clear_inflight t, none)
disconnected p clear_inflight (returns (suc n)) t = (t, some (create_error_from_rc_code p (suc n)))
disconnected p clear_inflight (raises e) t = (t, some protocol_client_error)

unfoldable pub disconnect : Paho → Bool → Returned ℕ → Transport → Result
unfolding create_error_from_rc_code cancel_all_operations
disconnect p clear_inflight r t =
    disconnected p clear_inflight r (loop_stop (emit paho_disconnect t))
