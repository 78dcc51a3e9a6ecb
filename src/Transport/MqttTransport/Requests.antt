-- ===== src/Transport/MqttTransport/Requests.antt =====
-- What the transport keeps of its requests.
use azure_iot_dev.Prelude.{
  ℕ, zero, suc, ◌≡◌, ◌∙◌, refl, ap, Bool, true, false, Option, List, [], ◌∷◌, arith,
}
use azure_iot_dev.Transport.OperationManager
use azure_iot_dev.Transport.OperationManager.{
  Manager, Request, complete, cancel_all, initial, establish_operation, complete_operation,
  cancel_all_operations,
}
use azure_iot_dev.Transport.MqttTransport.{
  Paho, Output, on_mqtt_message_received, Transport, force_transport_disconnect_and_cleanup,
  shutdown, Returned, returns, raises, connect, disconnect,
}
use azure_iot_dev.Transport.MqttTransport.Calls.{
  connack, handle, Reply, subscribe, unsubscribe, publish, on_connect, on_disconnect,
  on_acknowledged, on_message, cancel_in_flight, RequestKind, subscribing, unsubscribing,
  publishing, Stimulus, set_handlers, call_connect, call_disconnect, call_request, call_shutdown,
  call_cancel_in_flight, connack_received, disconnect_noticed, acknowledged, message_received, step,
  run,
}

abbrev of_reply : Reply → Option ℕ → List Request → List Request
of_reply (returns (zero, mid)) callback rest = OperationManager.establish mid callback ∷ rest
of_reply (returns (suc n, mid)) callback rest = rest
of_reply (raises e) callback rest = rest

abbrev of_disconnect : Bool → Returned ℕ → List Request → List Request
of_disconnect true (returns zero) rest = cancel_all ∷ rest
of_disconnect _ _ rest = rest

-- What the operation manager is to see of a run: each request that paho has taken, each
-- acknowledgement, and a cancellation for each shutdown, each cancellation by the stage, and each
-- disconnect that is to clear what is in flight and that paho has taken.
abbrev pub manager_requests : List Stimulus → List Request
manager_requests [] = []
manager_requests (call_request kind r callback ∷ rest) = of_reply r callback (manager_requests rest)
manager_requests (call_disconnect clear_inflight r ∷ rest) =
    of_disconnect clear_inflight r (manager_requests rest)
manager_requests (call_shutdown ∷ rest) = cancel_all ∷ manager_requests rest
manager_requests (call_cancel_in_flight ∷ rest) = cancel_all ∷ manager_requests rest
manager_requests (acknowledged mid ∷ rest) = complete mid ∷ manager_requests rest
manager_requests (_ ∷ rest) = manager_requests rest

request_lem :
    (p : Paho) (kind : RequestKind) (r : Reply) (callback : Option ℕ) (rest : List Request)
    (t : Transport)
    → OperationManager.run rest (step p (call_request kind r callback) t).op_manager
      ≡ OperationManager.run (of_reply r callback rest) t.op_manager
unfolding step OperationManager.run OperationManager.step subscribe unsubscribe publish
request_lem p subscribing (returns (zero, mid)) callback rest t = refl
request_lem p subscribing (returns (suc n, mid)) callback rest t = refl
request_lem p subscribing (raises e) callback rest t = refl
request_lem p unsubscribing (returns (zero, mid)) callback rest t = refl
request_lem p unsubscribing (returns (suc n, mid)) callback rest t = refl
request_lem p unsubscribing (raises e) callback rest t = refl
request_lem p publishing (returns (zero, mid)) callback rest t = refl
request_lem p publishing (returns (suc n, mid)) callback rest t = refl
request_lem p publishing (raises e) callback rest t = refl

disconnect_lem :
    (p : Paho) (clear_inflight : Bool) (r : Returned ℕ) (rest : List Request) (t : Transport)
    → OperationManager.run rest (step p (call_disconnect clear_inflight r) t).op_manager
      ≡ OperationManager.run (of_disconnect clear_inflight r rest) t.op_manager
unfolding step OperationManager.run OperationManager.step disconnect
disconnect_lem p true (returns zero) rest t = refl
disconnect_lem p true (returns (suc n)) rest t = refl
disconnect_lem p true (raises e) rest t = refl
disconnect_lem p false (returns zero) rest t = refl
disconnect_lem p false (returns (suc n)) rest t = refl
disconnect_lem p false (raises e) rest t = refl

connect_lem :
    (p : Paho) (r : Returned ℕ) (t : Transport)
    → (step p (call_connect r) t).op_manager ≡ t.op_manager
unfolding step connect force_transport_disconnect_and_cleanup
connect_lem p (returns zero) t = refl
connect_lem p (returns (suc n)) t = refl
connect_lem p (raises e) t = refl

handle_lem : (output : Output) (t : Transport) → (handle output t).op_manager ≡ t.op_manager
handle_lem output t = ground arith

noticed_lem : (p : Paho) (rc : ℕ) (t : Transport) → (on_disconnect p rc t).op_manager ≡ t.op_manager
unfolding on_disconnect force_transport_disconnect_and_cleanup
noticed_lem p zero t = ground arith
noticed_lem p (suc n) t = ground arith

step_lem :
    (p : Paho) (e : Stimulus) (es : List Stimulus) (t : Transport)
    → OperationManager.run (manager_requests es) (step p e t).op_manager
      ≡ OperationManager.run (manager_requests (e ∷ es)) t.op_manager
unfolding step OperationManager.run OperationManager.step shutdown
    force_transport_disconnect_and_cleanup on_connect on_acknowledged on_message cancel_in_flight
step_lem p set_handlers es t = refl
step_lem p (call_connect r) es t =
    ap (OperationManager.run (manager_requests es)) (connect_lem p r t)
step_lem p (call_disconnect clear_inflight r) es t =
    disconnect_lem p clear_inflight r (manager_requests es) t
step_lem p (call_request kind r callback) es t =
    request_lem p kind r callback (manager_requests es) t
step_lem p call_shutdown es t = refl
step_lem p call_cancel_in_flight es t = refl
step_lem p (connack_received rc) es t =
    ap (OperationManager.run (manager_requests es)) (handle_lem (connack p rc) t)
step_lem p (disconnect_noticed rc) es t =
    ap (OperationManager.run (manager_requests es)) (noticed_lem p rc t)
step_lem p (acknowledged mid) es t = refl
step_lem p (message_received topic) es t =
    ap (OperationManager.run (manager_requests es)) (handle_lem (on_mqtt_message_received topic) t)

-- Whatever the pipeline and paho call, and whatever the codes and exceptions are: the operation
-- manager inside the transport is the one that has seen exactly each request that paho has taken,
-- each acknowledgement, and a cancellation of all for each shutdown, each cancellation by the
-- transport stage, and each disconnect that was to clear what is in flight and that paho has taken,
-- in this order.
pub transport_refines_manager :
    (p : Paho) (es : List Stimulus) (t : Transport)
    → (run p es t).op_manager ≡ OperationManager.run (manager_requests es) t.op_manager
unfolding run OperationManager.run
transport_refines_manager p [] t = refl
transport_refines_manager p (e ∷ es) t =
    transport_refines_manager p es (step p e t) ∙ step_lem p e es t
