-- ===== src/Pipeline/MqttTransport/Kinds.antt =====
-- The operation that is pending is a connect, a disconnect or a reauthorization.
use azure_iot_dev.Prelude.{
  ℕ, ◌≡◌, refl, ap, Bool, true, false, ◌||◌, Option, none, some, List, [], ◌∷◌, arith, is_some, inl,
  inr, Option-cases, if_ind,
}
use azure_iot_dev.Errors.{Error, operation_cancelled, operation_timeout}
use azure_iot_dev.Pipeline.Ops.{
  Op, OpKind, initialize, shutdown, connect, disconnect, reauthorize, mqtt_publish, mqtt_subscribe,
  mqtt_unsubscribe, is_connect, is_disconnect, is_reauthorize,
}
use azure_iot_dev.Pipeline.MqttTransport.{
  called_disconnect, ConnectionOp, own, reauth_disconnect, reauth_connect, op_of, is_connect_op,
  Rest, start_op, rest_of_connected, rest_of_watchdog, rest_of_disconnected, Raises, Stage, emit,
  has, raised, disconnect_outcome, start_connect, complete_op, start_disconnect, start,
  cancel_watchdog, cancel_pending, run_connection_op, initialize_outcome, run_request, run_kind,
  run_op,
}
use azure_iot_dev.Pipeline.MqttTransport.Handlers.{
  cause_or_dropped, finish_connected, on_connection_failure, finish_disconnected, bark, is_pending,
  watchdog_expires, post, acknowledge, take, run_queued, resume, Stimulus, arrive, mqtt_connected,
  mqtt_connection_failure, mqtt_disconnected, mqtt_message, watchdog, acknowledged, pipeline_thread,
  return_to_call, set_connected, step,
}
use azure_iot_dev.Pipeline.MqttTransport.Guards.{no_start, IsWatched}

abbrev pub is_connection : OpKind → Bool
is_connection kind = is_connect kind || is_disconnect kind || is_reauthorize kind

abbrev pub is_connection_op : Option (ℕ × ConnectionOp) → Bool
is_connection_op none = true
is_connection_op (some (n, c)) = is_connection (op_of c).kind

abbrev pub IsConnection : Stage → Type 0
IsConnection s = is_connection_op s.pending_connection_op ≡ true

module _ (r : Raises) (c : ConnectionOp) (s : Stage) (h : is_connection (op_of c).kind ≡ true) where
  connect-IsConnection : IsConnection (start_connect r c s)
  unfolding start_connect
  connect-IsConnection = elim (Option-cases (raised s.transport r.connect_raises)) [
    | inl fine ↦ ground (arith, fine, h)
    | inr (e, fails) ↦ ground (arith, fails)
  ]

complete-IsConnection :
    (r : Raises) (c : ConnectionOp) (error : Option Error) (s : Stage)
    → is_connection (op_of c).kind ≡ true
    → IsConnection s
    → IsConnection (complete_op r c error s)
unfolding complete_op
complete-IsConnection r (own op) error s h g = g
complete-IsConnection r (reauth_disconnect op) error s h g =
    connect-IsConnection r (reauth_connect op) s h
complete-IsConnection r (reauth_connect op) error s h g = g

outcome-IsConnection :
    (r : Raises) (error : Option Error) (n : ℕ) (c : ConnectionOp) (s : Stage)
    → is_connection (op_of c).kind ≡ true
    → IsConnection (disconnect_outcome r error n c s)
outcome-IsConnection r none n c s h = ground (arith, h)
outcome-IsConnection r (some e) n c s h =
    complete-IsConnection r c (some e) (record s { pending_connection_op = none }) h refl

start-IsConnection :
    (r : Raises) (c : ConnectionOp) (s : Stage)
    → is_connection (op_of c).kind ≡ true
    → IsConnection (start r c s)
unfolding start_disconnect
start-IsConnection r c s h =
    if_ind IsConnection (is_connect_op c) (λ holds. connect-IsConnection r c s h)
      (λ fails. outcome-IsConnection r (raised s.transport r.disconnect_raises) s.next_number c _ h)

cancel-IsConnection :
    (r : Raises) (error : Error) (found : Option (ℕ × ConnectionOp)) (s : Stage)
    → s.pending_connection_op ≡ found
    → IsConnection s
    → IsConnection (cancel_pending r error found s)
unfolding cancel_pending
cancel-IsConnection r error none s e h = h
cancel-IsConnection r error (some (n, c)) s e h =
    complete-IsConnection r c (some error)
      (record (cancel_watchdog n s) { pending_connection_op = none }) (ground (arith, e, h)) refl

connection_op-IsConnection :
    (r : Raises) (c : ConnectionOp) (s : Stage)
    → is_connection (op_of c).kind ≡ true
    → IsConnection s
    → IsConnection (run_connection_op r c s)
unfolding run_connection_op
connection_op-IsConnection r c s h g =
    if_ind IsConnection (is_some s.pending_connection_op)
      (λ holds.
        cancel-IsConnection r operation_cancelled s.pending_connection_op
          (record s { suspended = start_op c ∷ s.suspended }) refl g)
      (λ fails. start-IsConnection r c s h)

request-IsConnection :
    (r : Raises) (op : Op) (s : Stage) → IsConnection s → IsConnection (run_request r op s)
request-IsConnection r op s h = elim (Option-cases (raised s.transport r.request_raises)) [
  | inl fine ↦ ground (arith, fine, h)
  | inr (e, fails) ↦ ground (arith, fails, h)
]

initialize-IsConnection :
    (error : Option Error) (op : Op) (s : Stage)
    → IsConnection s
    → IsConnection (initialize_outcome error op s)
initialize-IsConnection none op s h = refl
initialize-IsConnection (some e) op s h = h

kind-IsConnection :
    (kind : OpKind) (r : Raises) (op : Op) (s : Stage)
    → op.kind ≡ kind
    → IsConnection s
    → IsConnection (run_kind kind r op s)
unfolding run_kind
kind-IsConnection initialize r op s e h = initialize-IsConnection r.create_raises op s h
kind-IsConnection shutdown r op s e h = elim (Option-cases (raised s.transport r.shutdown_raises)) [
  | inl fine ↦ ground (arith, fine, h)
  | inr (x, fails) ↦ ground (arith, fails, h)
]
kind-IsConnection connect r op s e h =
    connection_op-IsConnection r (own op) s (ap is_connection e) h
kind-IsConnection disconnect r op s e h =
    connection_op-IsConnection r (own op) s (ap is_connection e) h
kind-IsConnection reauthorize r op s e h =
    connection_op-IsConnection r (reauth_disconnect op) s (ap is_connection e) h
kind-IsConnection mqtt_publish r op s e h = request-IsConnection r op s h
kind-IsConnection mqtt_subscribe r op s e h = request-IsConnection r op s h
kind-IsConnection mqtt_unsubscribe r op s e h = request-IsConnection r op s h
kind-IsConnection kind r op s e h = h

connected-IsConnection :
    (found : Option (ℕ × ConnectionOp)) (s : Stage)
    → IsConnection s
    → IsConnection (finish_connected found s)
unfolding finish_connected
connected-IsConnection none s h = h
connected-IsConnection (some (n, c)) s h =
    if_ind IsConnection (is_connect_op c) (λ holds. refl) (λ fails. h)

failure-IsConnection :
    (cause : Error) (found : Option (ℕ × ConnectionOp)) (s : Stage)
    → IsConnection s
    → IsConnection (on_connection_failure cause found s)
unfolding on_connection_failure
failure-IsConnection cause none s h = h
failure-IsConnection cause (some (n, c)) s h =
    if_ind IsConnection (is_connect_op c) (λ holds. refl) (λ fails. h)

disconnected-IsConnection :
    (r : Raises) (cause : Option Error) (found : Option (ℕ × ConnectionOp)) (s : Stage)
    → s.pending_connection_op ≡ found
    → IsConnection s
    → IsConnection (finish_disconnected r cause found s)
unfolding finish_disconnected
disconnected-IsConnection r cause none s e h = ground (arith, h)
disconnected-IsConnection r cause (some (n, c)) s e h =
    let kind : is_connection (op_of c).kind ≡ true = ground (arith, e, h) in
    if_ind IsConnection (is_connect_op c)
      (λ holds.
        complete-IsConnection r c (some (cause_or_dropped cause))
          (record (cancel_watchdog n s) { pending_connection_op = none }) kind refl)
      (λ fails.
        complete-IsConnection r c none (record s { pending_connection_op = none }) kind refl)

bark-IsConnection : (r : Raises) (s : Stage) → IsConnection s → IsConnection (bark r s)
unfolding bark
bark-IsConnection r s h =
    if_ind IsConnection s.connected (λ up. h)
      (λ down.
        cancel-IsConnection r operation_timeout s.pending_connection_op
          (emit (called_disconnect false) s) refl h)

watchdog-IsConnection :
    (n : ℕ) (r : Raises) (s : Stage) → IsConnection s → IsConnection (watchdog_expires n r s)
unfolding watchdog_expires
watchdog-IsConnection n r s h =
    if_ind IsConnection (has n s.watchdogs)
      (λ runs.
        if_ind IsConnection (is_pending n s.pending_connection_op)
          (λ holds. bark-IsConnection r (cancel_watchdog n s) h) (λ fails. h))
      (λ gone. h)

post-IsConnection :
    (id : ℕ) (found : Option Op) (s : Stage) → IsConnection s → IsConnection (post id found s)
post-IsConnection id none s h = h
post-IsConnection id (some op) s h = h

queued-IsConnection :
    (calls : List (Op × Bool)) (s : Stage) → IsConnection s → IsConnection (run_queued calls s)
unfolding run_queued
queued-IsConnection [] s h = h
queued-IsConnection ((op, cancelled) ∷ rest) s h = h

resume-IsConnection :
    (r : Raises) (rests : List Rest) (s : Stage)
    → no_start rests ≡ true
    → IsConnection s
    → IsConnection (resume r rests s)
unfolding resume
resume-IsConnection r [] s clean h = h
resume-IsConnection r (start_op c ∷ outer) s clean h = absurd (ground arith)
resume-IsConnection r (rest_of_connected ∷ outer) s clean h =
    connected-IsConnection s.pending_connection_op (record s { suspended = outer }) h
resume-IsConnection r (rest_of_watchdog ∷ outer) s clean h =
    cancel-IsConnection r operation_timeout s.pending_connection_op (record s { suspended = outer })
      refl h
resume-IsConnection r (rest_of_disconnected cause ∷ outer) s clean h =
    disconnected-IsConnection r cause s.pending_connection_op (record s { suspended = outer }) refl
      h

pub step-IsConnection :
    (e : Stimulus) (s : Stage) → IsWatched s → IsConnection s → IsConnection (step e s)
unfolding step run_op acknowledge
step-IsConnection (arrive r op) s w h = kind-IsConnection op.kind r op s refl h
step-IsConnection mqtt_connected s w h = h
step-IsConnection (mqtt_connection_failure cause) s w h =
    failure-IsConnection cause s.pending_connection_op s h
step-IsConnection (mqtt_disconnected cause) s w h = h
step-IsConnection (mqtt_message topic) s w h = h
step-IsConnection (watchdog n r) s w h = watchdog-IsConnection n r s h
step-IsConnection (acknowledged id) s w h = post-IsConnection id (take id s.in_flight) s h
step-IsConnection pipeline_thread s w h = queued-IsConnection s.queued s h
step-IsConnection (return_to_call r) s w h = resume-IsConnection r s.suspended s w.clean h
step-IsConnection (set_connected b) s w h = h
