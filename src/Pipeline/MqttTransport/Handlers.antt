-- ===== src/Pipeline/MqttTransport/Handlers.antt =====
-- What the transport, the watchdogs and the pipeline thread call in `MQTTTransportStage`, and its
-- runs.
use azure_iot_dev.Prelude.{
  ℕ, Bool, true, false, Option, none, some, List, [], ◌∷◌, ◌++◌, ◌==◌, if◌then◌else◌,
}
use azure_iot_dev.Errors.{Error, operation_cancelled, operation_timeout, connection_dropped_error}
use azure_iot_dev.Pipeline.Ops.{Op, Event, connected_event, disconnected_event, other_event}
use azure_iot_dev.Pipeline.MqttTransport.{
  ConnectionOp, op_of, is_connect_op, completed, sent_up, reported, called_disconnect, Rest,
  start_op, rest_of_connected, rest_of_watchdog, rest_of_disconnected, Raises, Stage, emit, has,
  cancel_all_operations, complete_op, start, cancel_watchdog, cancel_pending, run_op, start_connect,
  start_disconnect,
}

-- An event goes up, and the rest of the handler is to follow.
abbrev pub send_event_up : Event → Rest → Stage → Stage
send_event_up event rest s = emit (sent_up event) (record s { suspended = rest ∷ s.suspended })

-- `_on_mqtt_connected` after the event, with the operation that is pending then.
unfoldable pub finish_connected : Option (ℕ × ConnectionOp) → Stage → Stage
finish_connected none s = s
finish_connected (some (n, c)) s =
    if is_connect_op c
    then emit (completed (op_of c) none)
        (record (cancel_watchdog n s) { pending_connection_op = none })
    else s

-- `_on_mqtt_connection_failure`
unfoldable pub on_connection_failure : Error → Option (ℕ × ConnectionOp) → Stage → Stage
on_connection_failure cause none s = s
on_connection_failure cause (some (n, c)) s =
    if is_connect_op c
    then emit (completed (op_of c) (some cause))
        (record (cancel_watchdog n s) { pending_connection_op = none })
    else s

abbrev pub cause_or_dropped : Option Error → Error
cause_or_dropped none = connection_dropped_error
cause_or_dropped (some cause) = cause

-- `_on_mqtt_disconnected` after the event. A disconnect succeeds whatever the cause.
unfoldable pub finish_disconnected :
    Raises → Option Error → Option (ℕ × ConnectionOp) → Stage → Stage
unfolding complete_op
finish_disconnected r cause none s =
    emit (reported connection_dropped_error)
      (if s.connection_retry then s else cancel_all_operations s)
finish_disconnected r cause (some (n, c)) s =
    if is_connect_op c
    then complete_op r c (some (cause_or_dropped cause))
        (record (cancel_watchdog n s) { pending_connection_op = none })
    else complete_op r c none (record s { pending_connection_op = none })

-- The watchdog's function when its operation is pending: the transport is disconnected, and an error
-- of that is ignored.
unfoldable pub bark : Raises → Stage → Stage
unfolding cancel_pending
bark r s =
    let called = emit (called_disconnect false) s in
    if s.connected
    then send_event_up disconnected_event rest_of_watchdog called
    else cancel_pending r operation_timeout s.pending_connection_op called

abbrev pub is_pending : ℕ → Option (ℕ × ConnectionOp) → Bool
is_pending n none = false
is_pending n (some (m, c)) = m == n

-- A watchdog that runs expires.
unfoldable pub watchdog_expires : ℕ → Raises → Stage → Stage
unfolding bark
watchdog_expires n r s =
    let ended = cancel_watchdog n s in
    if has n s.watchdogs
    then if is_pending n s.pending_connection_op then bark r ended else ended
    else s

-- The operation with this number and the calls that wait, if its callback is with the transport.
abbrev pub take : ℕ → List Op → Option Op
take id [] = none
take id (op ∷ rest) = if op.id == id then some op else take id rest

abbrev pub drop : ℕ → List Op → List Op
drop id [] = []
drop id (op ∷ rest) = if op.id == id then rest else op ∷ drop id rest

abbrev pub post : ℕ → Option Op → Stage → Stage
post id none s = s
post id (some op) s = record s {
  in_flight = drop id s.in_flight;
  queued = s.queued ++ (op, false) ∷ [];
}

-- The acknowledgement of a request comes in.
unfoldable pub acknowledge : ℕ → Stage → Stage
acknowledge id s = post id (take id s.in_flight) s

abbrev pub cancelled_error : Bool → Option Error
cancelled_error true = some operation_cancelled
cancelled_error false = none

-- `on_complete` of the request whose call has waited longest.
unfoldable pub run_queued : List (Op × Bool) → Stage → Stage
run_queued [] s = s
run_queued ((op, cancelled) ∷ rest) s =
    emit (completed op (cancelled_error cancelled)) (record s { queued = rest })

-- The innermost suspended function goes on.
unfoldable pub resume : Raises → List Rest → Stage → Stage
unfolding start_connect start_disconnect finish_connected finish_disconnected cancel_pending
resume r [] s = s
resume r (start_op c ∷ outer) s = start r c (record s { suspended = outer })
resume r (rest_of_connected ∷ outer) s =
    finish_connected s.pending_connection_op (record s { suspended = outer })
resume r (rest_of_watchdog ∷ outer) s =
    cancel_pending r operation_timeout s.pending_connection_op (record s { suspended = outer })
resume r (rest_of_disconnected cause ∷ outer) s =
    finish_disconnected r cause s.pending_connection_op (record s { suspended = outer })

pub data Stimulus : Type 0 where
  arrive : Raises → Op → Stimulus
  mqtt_connected : Stimulus
  mqtt_connection_failure : Error → Stimulus
  mqtt_disconnected : (cause : Option Error) → Stimulus
  mqtt_message : (topic : ℕ) → Stimulus
  watchdog : (number : ℕ) → Raises → Stimulus
  acknowledged : (id : ℕ) → Stimulus
  pipeline_thread : Stimulus
  return_to_call : Raises → Stimulus
  set_connected : Bool → Stimulus

unfoldable pub step : Stimulus → Stage → Stage
unfolding run_op on_connection_failure watchdog_expires acknowledge run_queued resume
step (arrive r op) s = run_op r op s
step mqtt_connected s = send_event_up connected_event rest_of_connected s
step (mqtt_connection_failure cause) s = on_connection_failure cause s.pending_connection_op s
step (mqtt_disconnected cause) s = send_event_up disconnected_event (rest_of_disconnected cause) s
step (mqtt_message topic) s = emit (sent_up (other_event topic)) s
step (watchdog n r) s = watchdog_expires n r s
step (acknowledged id) s = acknowledge id s
step pipeline_thread s = run_queued s.queued s
step (return_to_call r) s = resume r s.suspended s
step (set_connected b) s = record s { connected = b }

unfoldable pub run : List Stimulus → Stage → Stage
run [] s = s
run (e ∷ rest) s = run rest (step e s)
