-- ===== src/Pipeline/MqttTransport.antt =====
-- `MQTTTransportStage` of
-- azure-iot-device/azure/iot/device/common/pipeline/pipeline_stages_mqtt.py, the last stage. What a
-- call of the transport raises is a choice of the caller. The functions that the transport has
-- called on the pipeline thread without waiting are stimuli of their own. Completing an operation
-- or sending an event up may come back into the stage, so the rest of a function that has done so
-- is a suspended call.
pub mod Handlers
pub mod Guards
pub mod Watchdog
pub mod Kinds
pub mod Counts
pub mod Conservation
pub mod Reauthorize
pub mod Samples
use azure_iot_dev.Prelude.{
  ℕ, suc, Bool, true, false, not, ◌&&◌, ◌||◌, Option, none, some, List, [], ◌∷◌, ◌++◌, ◌==◌,
  if◌then◌else◌, is_some,
}
use azure_iot_dev.Errors.{
  Error, attribute_error, operation_cancelled, operation_timeout, connection_dropped_error,
}
use azure_iot_dev.Pipeline.Ops.{
  Op, OpKind, initialize, shutdown, connect, disconnect, reauthorize, mqtt_publish, mqtt_subscribe,
  mqtt_unsubscribe, Event, connected_event, disconnected_event, other_event, is_connect,
}

-- A pending operation: one that arrived, or one of the two that a reauthorization makes.
pub data ConnectionOp : Type 0 where
  own reauth_disconnect reauth_connect : Op → ConnectionOp

abbrev pub op_of : ConnectionOp → Op
op_of (own op) = op
op_of (reauth_disconnect op) = op
op_of (reauth_connect op) = op

-- `isinstance(op, ConnectOperation)`
abbrev pub is_connect_op : ConnectionOp → Bool
is_connect_op (own op) = is_connect op.kind
is_connect_op (reauth_disconnect op) = false
is_connect_op (reauth_connect op) = true

-- The `hard` of a disconnect: that of a reauthorization is not.
abbrev pub hard : ConnectionOp → Bool
hard (reauth_disconnect op) = false
hard _ = true

-- What the stage has asked of the outside, in order.
pub data Output : Type 0 where
  completed : Op → Option Error → Output
  sent_down : Op → Output
  sent_up : Event → Output
  reported : Error → Output
  called_connect called_shutdown : Output
  called_disconnect : (clear_inflight : Bool) → Output
  requested : Op → Output

-- What is still to be done in a function of the stage that has called the outside: to start an
-- operation once another is cancelled, or the end of one of the handlers.
pub data Rest : Type 0 where
  start_op : ConnectionOp → Rest
  rest_of_connected rest_of_watchdog : Rest
  rest_of_disconnected : (cause : Option Error) → Rest

-- What the making of the transport and its calls raise, if they do.
pub record Raises : Type 0 where
  pub create_raises : Option Error
  pub connect_raises : Option Error
  pub disconnect_raises : Option Error
  pub shutdown_raises : Option Error
  pub request_raises : Option Error

-- `transport` says whether the transport was made. A pending operation has a number, which is also
-- that of its watchdog; `watchdogs` lists those that run. `in_flight` holds the operations whose
-- callback the transport has, and `queued` the calls of such callbacks that wait for the pipeline
-- thread, with their argument `cancelled`.
pub record Stage : Type 0 where
  pub transport : Bool
  pub connected : Bool
  pub connection_retry : Bool
  pub pending_connection_op : Option (ℕ × ConnectionOp)
  pub watchdogs : List ℕ
  pub next_number : ℕ
  pub suspended : List Rest
  pub in_flight : List Op
  pub queued : List (Op × Bool)
  pub outputs : List Output

unfoldable pub initial : Bool → Stage
initial connection_retry = record {
  transport = false;
  connected = false;
  connection_retry = connection_retry;
  pending_connection_op = none;
  watchdogs = [];
  next_number = 0;
  suspended = [];
  in_flight = [];
  queued = [];
  outputs = [];
}

abbrev pub emit : Output → Stage → Stage
emit output s = record s { outputs = s.outputs ++ output ∷ [] }

abbrev pub without : ℕ → List ℕ → List ℕ
without n [] = []
without n (m ∷ rest) = if m == n then rest else m ∷ without n rest

abbrev pub has : ℕ → List ℕ → Bool
has n [] = false
has n (m ∷ rest) = m == n || has n rest

-- Without a transport each call raises an `AttributeError`.
abbrev pub raised : Bool → Option Error → Option Error
raised true error = error
raised false error = some attribute_error

abbrev pub cancelled_calls : List Op → List (Op × Bool)
cancelled_calls [] = []
cancelled_calls (op ∷ rest) = (op, true) ∷ cancelled_calls rest

-- `cancel_all_operations` of the transport's operation manager.
abbrev pub cancel_all_operations : Stage → Stage
cancel_all_operations s = record s {
  in_flight = [];
  queued = s.queued ++ cancelled_calls s.in_flight;
}

abbrev pub clear_inflight : Bool → Stage → Stage
clear_inflight true s = cancel_all_operations s
clear_inflight false s = s

-- The `ConnectOperation` branch of `_run_op` after the cancellation.
abbrev pub connect_outcome : Option Error → ℕ → ConnectionOp → Stage → Stage
connect_outcome none n c s = record s {
  pending_connection_op = some (n, c);
  watchdogs = n ∷ s.watchdogs;
}
connect_outcome (some e) n c s =
    emit (completed (op_of c) (some e)) (record s { pending_connection_op = none })

unfoldable pub start_connect : Raises → ConnectionOp → Stage → Stage
start_connect r c s =
    connect_outcome (raised s.transport r.connect_raises) s.next_number c
      (emit called_connect (record s { next_number = suc s.next_number }))

-- `op.complete(error)` for an operation that is no longer pending. The disconnect of a
-- reauthorization goes on with a connect, whatever the error.
unfoldable pub complete_op : Raises → ConnectionOp → Option Error → Stage → Stage
unfolding start_connect
complete_op r (reauth_disconnect op) error s = start_connect r (reauth_connect op) s
complete_op r c error s = emit (completed (op_of c) error) s

abbrev pub disconnect_outcome : Raises → Option Error → ℕ → ConnectionOp → Stage → Stage
disconnect_outcome r none n c s =
    clear_inflight (hard c) (record s { pending_connection_op = some (n, c) })
disconnect_outcome r (some e) n c s =
    complete_op r c (some e) (record s { pending_connection_op = none })

unfoldable pub start_disconnect : Raises → ConnectionOp → Stage → Stage
unfolding complete_op
start_disconnect r c s =
    disconnect_outcome r (raised s.transport r.disconnect_raises) s.next_number c
      (emit (called_disconnect (hard c)) (record s { next_number = suc s.next_number }))

abbrev pub start : Raises → ConnectionOp → Stage → Stage
start r c s = if is_connect_op c then start_connect r c s else start_disconnect r c s

abbrev pub cancel_watchdog : ℕ → Stage → Stage
cancel_watchdog n s = record s { watchdogs = without n s.watchdogs }

-- `_cancel_pending_connection_op` for the operation that is pending, if there is one.
unfoldable pub cancel_pending : Raises → Error → Option (ℕ × ConnectionOp) → Stage → Stage
unfolding complete_op
cancel_pending r error none s = s
cancel_pending r error (some (n, c)) s =
    complete_op r c (some error) (record (cancel_watchdog n s) { pending_connection_op = none })

-- A connection operation is started after the one that is pending is cancelled.
unfoldable pub run_connection_op : Raises → ConnectionOp → Stage → Stage
unfolding start_connect start_disconnect cancel_pending
run_connection_op r c s =
    if is_some s.pending_connection_op
    then cancel_pending r operation_cancelled s.pending_connection_op
        (record s { suspended = start_op c ∷ s.suspended })
    else start r c s

abbrev pub shutdown_outcome : Option Error → Op → Stage → Stage
shutdown_outcome none op s = emit (completed op none) (cancel_all_operations s)
shutdown_outcome (some e) op s = emit (completed op (some e)) s

-- A publish, subscribe or unsubscribe that the transport has taken keeps its callback there.
abbrev pub request_outcome : Option Error → Op → Stage → Stage
request_outcome none op s = record s { in_flight = s.in_flight ++ op ∷ [] }
request_outcome (some e) op s = emit (completed op (some e)) s

abbrev pub run_request : Raises → Op → Stage → Stage
run_request r op s =
    request_outcome (raised s.transport r.request_raises) op (emit (requested op) s)

-- `_run_op` by the class of the operation.
-- The transport is made, with its handlers. The pipeline is initialized once, so that there is no
-- transport before it whose operations would be lost.
abbrev pub initialize_outcome : Option Error → Op → Stage → Stage
initialize_outcome none op s =
    emit (completed op none) (record s { transport = true; pending_connection_op = none })
initialize_outcome (some e) op s = emit (completed op (some e)) s

unfoldable pub run_kind : OpKind → Raises → Op → Stage → Stage
unfolding run_connection_op
run_kind initialize r op s = initialize_outcome r.create_raises op s
run_kind shutdown r op s =
    shutdown_outcome (raised s.transport r.shutdown_raises) op (emit called_shutdown s)
run_kind connect r op s = run_connection_op r (own op) s
run_kind disconnect r op s = run_connection_op r (own op) s
run_kind reauthorize r op s = run_connection_op r (reauth_disconnect op) s
run_kind mqtt_publish r op s = run_request r op s
run_kind mqtt_subscribe r op s = run_request r op s
run_kind mqtt_unsubscribe r op s = run_request r op s
run_kind _ r op s = emit (sent_down op) s

unfoldable pub run_op : Raises → Op → Stage → Stage
unfolding run_kind
run_op r op s = run_kind op.kind r op s
