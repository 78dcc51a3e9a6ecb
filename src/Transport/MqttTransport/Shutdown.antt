-- ===== src/Transport/MqttTransport/Shutdown.antt =====
-- The transport after a shutdown.
use azure_iot_dev.Prelude.{
  ℕ, zero, suc, ◌+◌, ◌≡◌, ◌∙◌, refl, Bool, false, Option, List, [], ◌∷◌, ◌++◌, arith, if◌then◌else◌,
}
use azure_iot_dev.Transport.MqttTransport.{
  Paho, Output, paho_connect, paho_disconnect, paho_loop_start, paho_loop_stop, paho_subscribe,
  paho_unsubscribe, paho_publish, on_mqtt_message_received, on_mqtt_disconnected, Transport, emit,
  force_transport_disconnect_and_cleanup, shutdown, Returned, returns, raises, connect, disconnect,
}
use azure_iot_dev.Transport.MqttTransport.Calls.{
  Reply, connack, handle, request, subscribe, unsubscribe, publish, on_connect, on_disconnect,
  on_acknowledged, on_message, cancel_in_flight, RequestKind, subscribing, unsubscribing,
  publishing, Stimulus, set_handlers, call_connect, call_disconnect, call_request, call_shutdown,
  call_cancel_in_flight, connack_received, disconnect_noticed, acknowledged, message_received, step,
  run,
}

abbrev told_in : Output → ℕ
told_in (on_mqtt_disconnected cause) = 1
told_in _ = 0

-- How often the pipeline was told of a disconnection.
abbrev pub disconnects_told : List Output → ℕ
disconnects_told [] = 0
disconnects_told (o ∷ rest) = told_in o + disconnects_told rest

told-snoc :
    (os : List Output) (o : Output)
    → disconnects_told (os ++ o ∷ []) ≡ disconnects_told os + told_in o
told-snoc [] o = omega arith
told-snoc (x ∷ os) o = omega (arith, told-snoc os o)

told_emit :
    (o : Output) (t : Transport)
    → disconnects_told (emit o t).outputs ≡ disconnects_told t.outputs + told_in o
told_emit o t = told-snoc t.outputs o

-- Nothing is told from one to the other, and paho has no `on_disconnect`.
record IsSilent (t after : Transport) : Type 0 where
  silent : after.handles_disconnect ≡ false
  same : disconnects_told after.outputs ≡ disconnects_told t.outputs

cleanup-IsSilent :
    (t after : Transport)
    → IsSilent t after
    → IsSilent t (force_transport_disconnect_and_cleanup after)
unfolding force_transport_disconnect_and_cleanup
cleanup-IsSilent t after h = ground (
  arith,
  told-snoc after.outputs paho_disconnect,
  told-snoc (after.outputs ++ paho_disconnect ∷ []) paho_loop_stop,
)

emit-IsSilent :
    (o : Output) (t after : Transport)
    → told_in o ≡ 0
    → IsSilent t after
    → IsSilent t (emit o after)
emit-IsSilent o t after e h = ground (arith, told-snoc after.outputs o)

handle-IsSilent :
    (o : Output) (t after : Transport)
    → told_in o ≡ 0
    → IsSilent t after
    → IsSilent t (handle o after)
handle-IsSilent o t after e h = ground (arith, emit-IsSilent o t after e h, h)

connect-IsSilent :
    (p : Paho) (r : Returned ℕ) (t : Transport)
    → t.handles_disconnect ≡ false
    → IsSilent t (connect p r t).0
unfolding connect
connect-IsSilent p (returns zero) t h = ground (
  arith,
  h,
  told-snoc t.outputs (paho_connect (if t.websockets then 443 else 8883)),
  told-snoc (t.outputs ++ paho_connect (if t.websockets then 443 else 8883) ∷ []) paho_loop_start,
)
connect-IsSilent p (returns (suc n)) t h =
    ground (arith, h, told-snoc t.outputs (paho_connect (if t.websockets then 443 else 8883)))
connect-IsSilent p (raises e) t h =
    cleanup-IsSilent t (emit (paho_connect (if t.websockets then 443 else 8883)) t)
      (ground (arith, h, told-snoc t.outputs (paho_connect (if t.websockets then 443 else 8883))))

disconnect-IsSilent :
    (p : Paho) (clear_inflight : Bool) (r : Returned ℕ) (t : Transport)
    → t.handles_disconnect ≡ false
    → IsSilent t (disconnect p clear_inflight r t).0
unfolding disconnect
disconnect-IsSilent p clear_inflight r t h = ground (
  arith,
  h,
  told-snoc t.outputs paho_disconnect,
  told-snoc (t.outputs ++ paho_disconnect ∷ []) paho_loop_stop,
)

request-IsSilent :
    (p : Paho) (kind : RequestKind) (r : Reply) (callback : Option ℕ) (t : Transport)
    → t.handles_disconnect ≡ false
    → IsSilent t (request kind p r callback t).0
unfolding subscribe unsubscribe publish
request-IsSilent p subscribing r callback t h =
    ground (arith, h, told-snoc t.outputs paho_subscribe)
request-IsSilent p unsubscribing r callback t h =
    ground (arith, h, told-snoc t.outputs paho_unsubscribe)
request-IsSilent p publishing r callback t h = ground (arith, h, told-snoc t.outputs paho_publish)

connack-untold : (p : Paho) (rc : ℕ) → told_in (connack p rc) ≡ 0
connack-untold p rc = ground arith

step-IsSilent :
    (p : Paho) (e : Stimulus) (t : Transport)
    → t.handles_disconnect ≡ false
    → IsSilent t (step p e t)
unfolding step on_connect on_disconnect on_message on_acknowledged cancel_in_flight shutdown
step-IsSilent p set_handlers t h = record { silent = h; same = refl }
step-IsSilent p (call_connect r) t h = connect-IsSilent p r t h
step-IsSilent p (call_disconnect clear_inflight r) t h = disconnect-IsSilent p clear_inflight r t h
step-IsSilent p (call_request kind r callback) t h = request-IsSilent p kind r callback t h
step-IsSilent p call_shutdown t h =
    let stopped : Transport = record t { handles_disconnect = false } in
    let cleaned = cleanup-IsSilent t stopped (record { silent = refl; same = refl }) in
    record { silent = cleaned.silent; same = cleaned.same }
step-IsSilent p call_cancel_in_flight t h = record { silent = h; same = refl }
step-IsSilent p (connack_received rc) t h =
    handle-IsSilent (connack p rc) t t (connack-untold p rc) (record { silent = h; same = refl })
step-IsSilent p (disconnect_noticed rc) t h = ground (arith, h)
step-IsSilent p (acknowledged mid) t h = record { silent = h; same = refl }
step-IsSilent p (message_received topic) t h =
    handle-IsSilent (on_mqtt_message_received topic) t t refl (record { silent = h; same = refl })

run-same :
    (p : Paho) (es : List Stimulus) (t : Transport)
    → t.handles_disconnect ≡ false
    → disconnects_told (run p es t).outputs ≡ disconnects_told t.outputs
unfolding run
run-same p [] t h = refl
run-same p (e ∷ es) t h =
    let once = step-IsSilent p e t h in run-same p es (step p e t) once.silent ∙ once.same

-- From a shutdown on, whatever the pipeline calls and paho reports, the pipeline is told of no
-- disconnection.
pub shutdown_is_silent :
    (p : Paho) (es : List Stimulus) (t : Transport)
    → disconnects_told (run p (call_shutdown ∷ es) t).outputs ≡ disconnects_told t.outputs
unfolding run step shutdown
shutdown_is_silent p es t =
    let stopped : Transport = record t { handles_disconnect = false } in
    let cleaned = cleanup-IsSilent stopped stopped (record { silent = refl; same = refl }) in
    run-same p es (shutdown t) cleaned.silent ∙ cleaned.same
