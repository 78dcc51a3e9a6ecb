-- ===== src/Pipeline/MqttTransport/Conservation.antt =====
-- Every operation is completed once, or is still under way: the handlers, and the runs.
use azure_iot_dev.Prelude.{
  ℕ, ◌+◌, ◌≡◌, refl, Bool, true, false, not, ◌||◌, Option, none, some, List, [], ◌∷◌, arith,
  is_some, if_ind,
}
use azure_iot_dev.Errors.{Error, connection_dropped_error, operation_timeout}
use azure_iot_dev.Pipeline.Ops.{
  Op, OpKind, initialize, shutdown, connect, disconnect, reauthorize, mqtt_publish, mqtt_subscribe,
  mqtt_unsubscribe, connected_event, disconnected_event, other_event,
}
use azure_iot_dev.Pipeline.MqttTransport.{
  completed, sent_down, sent_up, reported, called_shutdown, called_disconnect, requested,
  ConnectionOp, own, reauth_disconnect, op_of, is_connect_op, Rest, start_op, rest_of_connected,
  rest_of_watchdog, rest_of_disconnected, Raises, Stage, emit, initial, raised,
  cancel_all_operations, start, cancel_watchdog, cancel_pending, run_connection_op,
  shutdown_outcome, initialize_outcome, request_outcome, run_request, run_kind, run_op,
}
use azure_iot_dev.Pipeline.MqttTransport.Handlers.{
  cause_or_dropped, finish_connected, on_connection_failure, finish_disconnected, bark,
  watchdog_expires, post, acknowledge, take, cancelled_error, run_queued, resume, Stimulus, arrive,
  mqtt_connected, mqtt_connection_failure, mqtt_disconnected, mqtt_message, watchdog, acknowledged,
  pipeline_thread, return_to_call, set_connected, step, run,
}
use azure_iot_dev.Pipeline.MqttTransport.Guards.{no_start, IsWatched, replaces_pending}
use azure_iot_dev.Pipeline.MqttTransport.Watchdog.{is_admitted, AllAdmitted, step-IsWatched}
use azure_iot_dev.Pipeline.MqttTransport.Counts.{
  hit, answered, under_way, answered-snoc, in_ops-snoc, in_calls-append, in_ops-drop, total,
  total-emit, total_cancel_all, start_connect-total, complete_op-total, start_disconnect-total,
}

abbrev pub in_stimulus : (Op → ℕ) → Stimulus → ℕ
in_stimulus w (arrive r op) = w op
in_stimulus w _ = 0

abbrev pub arrivals : (Op → ℕ) → List Stimulus → ℕ
arrivals w [] = 0
arrivals w (e ∷ rest) = in_stimulus w e + arrivals w rest

module _ (w : Op → ℕ) where
  start-total :
      (r : Raises) (c : ConnectionOp) (s : Stage)
      → s.pending_connection_op ≡ none
      → total w (start r c s) ≡ total w s + w (op_of c)
  start-total r c s e =
      if_ind (λ (t : Stage). total w t ≡ total w s + w (op_of c)) (is_connect_op c)
        (λ holds. start_connect-total w r c s e) (λ fails. start_disconnect-total w r c s e)

  connection_op-total :
      (r : Raises) (c : ConnectionOp) (s : Stage)
      → is_some s.pending_connection_op ≡ false
      → total w (run_connection_op r c s) ≡ total w s + w (op_of c)
  unfolding run_connection_op
  connection_op-total r c s free = rw free (start-total r c s (ground (arith, free)))

  cancel-total :
      (r : Raises) (error : Error) (found : Option (ℕ × ConnectionOp)) (s : Stage)
      → s.pending_connection_op ≡ found
      → total w (cancel_pending r error found s) ≡ total w s
  unfolding cancel_pending
  cancel-total r error none s e = refl
  cancel-total r error (some (n, c)) s e =
      let free = record (cancel_watchdog n s) { pending_connection_op = none } in
      ground (arith, e, complete_op-total w r c (some error) free refl)

  request_outcome-total :
      (error : Option Error) (op : Op) (s : Stage)
      → total w (request_outcome error op s) ≡ total w s + w op
  request_outcome-total none op s = omega (arith, in_ops-snoc w s.in_flight op)
  request_outcome-total (some error) op s = total-emit w (completed op (some error)) s

  request-total :
      (r : Raises) (op : Op) (s : Stage) → total w (run_request r op s) ≡ total w s + w op
  request-total r op s = omega (
    arith,
    request_outcome-total (raised s.transport r.request_raises) op (emit (requested op) s),
    total-emit w (requested op) s,
  )

  shutdown-total :
      (error : Option Error) (op : Op) (s : Stage)
      → total w (shutdown_outcome error op s) ≡ total w s + w op
  shutdown-total none op s =
      omega
        (arith, total-emit w (completed op none) (cancel_all_operations s), total_cancel_all w s)
  shutdown-total (some error) op s = total-emit w (completed op (some error)) s

  initialize-total :
      (error : Option Error) (op : Op) (s : Stage)
      → is_some s.pending_connection_op ≡ false
      → total w (initialize_outcome error op s) ≡ total w s + w op
  initialize-total none op s free = ground (arith, answered-snoc w s.outputs (completed op none))
  initialize-total (some error) op s free = total-emit w (completed op (some error)) s

  run_kind-total :
      (kind : OpKind) (r : Raises) (op : Op) (s : Stage)
      → (not (replaces_pending kind) || not (is_some s.pending_connection_op)) ≡ true
      → total w (run_kind kind r op s) ≡ total w s + w op
  unfolding run_kind
  run_kind-total initialize r op s free = initialize-total r.create_raises op s (ground arith)
  run_kind-total shutdown r op s free = omega (
    arith,
    shutdown-total (raised s.transport r.shutdown_raises) op (emit called_shutdown s),
    total-emit w called_shutdown s,
  )
  run_kind-total connect r op s free = connection_op-total r (own op) s (ground arith)
  run_kind-total disconnect r op s free = connection_op-total r (own op) s (ground arith)
  run_kind-total reauthorize r op s free =
      connection_op-total r (reauth_disconnect op) s (ground arith)
  run_kind-total mqtt_publish r op s free = request-total r op s
  run_kind-total mqtt_subscribe r op s free = request-total r op s
  run_kind-total mqtt_unsubscribe r op s free = request-total r op s
  run_kind-total kind r op s free = total-emit w (sent_down op) s

  connected-total :
      (found : Option (ℕ × ConnectionOp)) (s : Stage)
      → s.pending_connection_op ≡ found
      → total w (finish_connected found s) ≡ total w s
  unfolding finish_connected
  connected-total none s e = refl
  connected-total (some (n, c)) s e =
      ground (arith, e, answered-snoc w s.outputs (completed (op_of c) none))

  failure-total :
      (cause : Error) (found : Option (ℕ × ConnectionOp)) (s : Stage)
      → s.pending_connection_op ≡ found
      → total w (on_connection_failure cause found s) ≡ total w s
  unfolding on_connection_failure
  failure-total cause none s e = refl
  failure-total cause (some (n, c)) s e =
      ground (arith, e, answered-snoc w s.outputs (completed (op_of c) (some cause)))

  disconnected-total :
      (r : Raises) (cause : Option Error) (found : Option (ℕ × ConnectionOp)) (s : Stage)
      → s.pending_connection_op ≡ found
      → total w (finish_disconnected r cause found s) ≡ total w s
  unfolding finish_disconnected
  disconnected-total r cause none s e = ground (
    arith,
    total-emit w (reported connection_dropped_error) s,
    total-emit w (reported connection_dropped_error) (cancel_all_operations s),
    total_cancel_all w s,
  )
  disconnected-total r cause (some (n, c)) s e =
      let calm = record (cancel_watchdog n s) { pending_connection_op = none } in
      let free = record s { pending_connection_op = none } in
      ground (
        arith,
        e,
        complete_op-total w r c (some (cause_or_dropped cause)) calm refl,
        complete_op-total w r c none free refl,
      )

  bark-total : (r : Raises) (s : Stage) → total w (bark r s) ≡ total w s
  unfolding bark
  bark-total r s =
      let called = emit (called_disconnect false) s in
      ground (
        arith,
        cancel-total r operation_timeout s.pending_connection_op called refl,
        total-emit w (called_disconnect false) s,
        total-emit w (sent_up disconnected_event) called,
      )

  watchdog-total : (n : ℕ) (r : Raises) (s : Stage) → total w (watchdog_expires n r s) ≡ total w s
  unfolding watchdog_expires
  watchdog-total n r s = ground (arith, bark-total r (cancel_watchdog n s))

  post-total :
      (id : ℕ) (found : Option Op) (s : Stage)
      → take id s.in_flight ≡ found
      → total w (post id found s) ≡ total w s
  post-total id none s e = refl
  post-total id (some op) s e =
      omega
        (arith, in_ops-drop w id op s.in_flight e, in_calls-append w s.queued ((op, false) ∷ []))

  queued-total :
      (calls : List (Op × Bool)) (s : Stage)
      → s.queued ≡ calls
      → total w (run_queued calls s) ≡ total w s
  unfolding run_queued
  queued-total [] s e = refl
  queued-total ((op, cancelled) ∷ rest) s e =
      ground (arith, e, answered-snoc w s.outputs (completed op (cancelled_error cancelled)))

  resume-total :
      (r : Raises) (rests : List Rest) (s : Stage)
      → no_start rests ≡ true
      → total w (resume r rests s) ≡ total w s
  unfolding resume
  resume-total r [] s clean = refl
  resume-total r (start_op c ∷ outer) s clean = absurd (ground arith)
  resume-total r (rest_of_connected ∷ outer) s clean =
      connected-total s.pending_connection_op (record s { suspended = outer }) refl
  resume-total r (rest_of_watchdog ∷ outer) s clean =
      cancel-total r operation_timeout s.pending_connection_op (record s { suspended = outer }) refl
  resume-total r (rest_of_disconnected cause ∷ outer) s clean =
      disconnected-total r cause s.pending_connection_op (record s { suspended = outer }) refl

  pub step-total :
      (e : Stimulus) (s : Stage)
      → is_admitted e s ≡ true
      → IsWatched s
      → total w (step e s) ≡ total w s + in_stimulus w e
  unfolding step run_op acknowledge
  step-total (arrive r op) s fine h = run_kind-total op.kind r op s fine
  step-total mqtt_connected s fine h = omega (arith, total-emit w (sent_up connected_event) s)
  step-total (mqtt_connection_failure cause) s fine h =
      omega (arith, failure-total cause s.pending_connection_op s refl)
  step-total (mqtt_disconnected cause) s fine h =
      omega (arith, total-emit w (sent_up disconnected_event) s)
  step-total (mqtt_message topic) s fine h =
      omega (arith, total-emit w (sent_up (other_event topic)) s)
  step-total (watchdog n r) s fine h = omega (arith, watchdog-total n r s)
  step-total (acknowledged id) s fine h = omega (arith, post-total id (take id s.in_flight) s refl)
  step-total pipeline_thread s fine h = omega (arith, queued-total s.queued s refl)
  step-total (return_to_call r) s fine h = omega (arith, resume-total r s.suspended s h.clean)
  step-total (set_connected b) s fine h = omega arith

  run-total :
      (es : List Stimulus) (s : Stage)
      → AllAdmitted es s
      → IsWatched s
      → total w (run es s) ≡ total w s + arrivals w es
  unfolding run
  run-total [] s fine h = omega arith
  run-total (e ∷ es) s fine h =
      omega (
        arith,
        run-total es (step e s) fine.1 (step-IsWatched e s fine.0 h),
        step-total e s fine.0 h,
      )

-- If no operation that replaces the pending one arrives while there is one, then whatever
-- happens, each operation has been completed, or sent down as none of the stage's, or is pending,
-- with the transport or about to be completed, exactly as often in all as it has arrived.
pub operations_conserved :
    (i : ℕ) (retry : Bool) (es : List Stimulus)
    → AllAdmitted es (initial retry)
    → answered (hit i) (run es (initial retry)).outputs + under_way (hit i) (run es (initial retry))
      ≡ arrivals (hit i) es
unfolding initial
operations_conserved i retry es fine =
    omega (arith, run-total (hit i) es (initial retry) fine (ground arith))
