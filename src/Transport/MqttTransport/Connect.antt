-- ===== src/Transport/MqttTransport/Connect.antt =====
-- What `connect` raises, and which of its errors a reconnection is repeated after.
use azure_iot_dev.Prelude.{
  ℕ, zero, suc, ◌≡◌, refl, Bool, true, false, Option, none, some, [], ◌∷◌, arith, all,
  if◌then◌else◌,
}
use azure_iot_dev.Errors.{
  Error, connection_failed_error, connection_dropped_error, no_connection_error, unauthorized_error,
  protocol_client_error, tls_exchange_auth_error, protocol_proxy_error,
}
use azure_iot_dev.Pipeline.ConnectionState.{Stage, should_reconnect}
use azure_iot_dev.Transport.MqttTransport.{
  Paho, Table, or_entry, lookup, paho_rc_to_error, or_protocol_client_error,
  create_error_from_rc_code, Transport, force_transport_disconnect_and_cleanup, Exception,
  ssl_error, socket_error, is_verify_failure, error_of_exception, Returned, returns, raises,
  connect,
}

-- The errors that the documentation of `connect` lists.
abbrev pub is_documented : Error → Bool
is_documented connection_failed_error = true
is_documented connection_dropped_error = true
is_documented unauthorized_error = true
is_documented no_connection_error = true
is_documented protocol_client_error = true
is_documented tls_exchange_auth_error = true
is_documented protocol_proxy_error = true
is_documented _ = false

abbrev documented_entry : ℕ × Error → Bool
documented_entry (code, error) = is_documented error

entry-documented :
    (found : Option Error) (rc code : ℕ) (error : Error)
    → is_documented (or_protocol_client_error found) ≡ true
    → is_documented error ≡ true
    → is_documented (or_protocol_client_error (or_entry found rc code error)) ≡ true
entry-documented none rc code error f e = ground (arith, e)
entry-documented (some x) rc code error f e = f

lookup-documented :
    (rc : ℕ) (table : Table)
    → all documented_entry table ≡ true
    → is_documented (or_protocol_client_error (lookup rc table)) ≡ true
unfolding lookup
lookup-documented rc [] h = refl
lookup-documented rc ((code, error) ∷ rest) h =
    entry-documented (lookup rc rest) rc code error (lookup-documented rc rest (ground (arith, h)))
      (ground (arith, h))

rc_code-documented : (p : Paho) (rc : ℕ) → is_documented (create_error_from_rc_code p rc) ≡ true
unfolding create_error_from_rc_code paho_rc_to_error
rc_code-documented p rc = ground (arith, lookup-documented rc (paho_rc_to_error p) refl)

exception-documented : (e : Exception) → is_documented (error_of_exception e) ≡ true
unfolding error_of_exception
exception-documented e = ground arith

-- What is left after a `connect`, by what paho has returned and what is raised.
abbrev pub Connects : Returned ℕ → Transport → Option Error → Type 0
Connects (returns rc) t none = (rc ≡ 0) × (t.loop_runs ≡ true)
Connects (returns rc) t (some error) = is_documented error ≡ true
Connects (raises e) t none = ⊥
Connects (raises e) t (some error) = (is_documented error ≡ true) × (t.loop_runs ≡ false)

-- Whatever codes paho uses, and whatever its `connect` returns or raises: if `connect` raises
-- nothing, paho has returned 0 and the loop runs; what it raises is one of the errors that its
-- documentation lists, and if paho has raised, the loop is stopped.
pub connect_raises_documented :
    (p : Paho) (r : Returned ℕ) (t : Transport) → Connects r (connect p r t).0 (connect p r t).1
unfolding connect force_transport_disconnect_and_cleanup
connect_raises_documented p (returns zero) t = (refl, refl)
connect_raises_documented p (returns (suc n)) t = rc_code-documented p (suc n)
connect_raises_documented p (raises e) t = (exception-documented e, refl)

-- An error of the socket that is neither a failed verification nor one of the proxy.
abbrev pub is_plain_socket_error : Exception → Bool
is_plain_socket_error socket_error = true
is_plain_socket_error (ssl_error strerror) = if is_verify_failure strerror then false else true
is_plain_socket_error _ = false

-- If paho's `connect` raises while connection retry is on, the error that the transport raises is one
-- after which the connection state stage repeats a reconnection of its own exactly when the
-- exception is an error of the socket that is neither a failed verification of a certificate nor an
-- error of the proxy.
reconnects_after_socket_errors :
    (p : Paho) (e : Exception) (t : Transport) (s : Stage) (error : Error)
    → s.connection_retry ≡ true
    → (connect p (raises e) t).1 ≡ some error
    → should_reconnect error s ≡ is_plain_socket_error e
unfolding connect should_reconnect error_of_exception
reconnects_after_socket_errors p e t s error keeps raised = ground (arith, keeps, raised)
