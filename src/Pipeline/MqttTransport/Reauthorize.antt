-- ===== src/Pipeline/MqttTransport/Reauthorize.antt =====
-- A reauthorization from its arrival to its completion.
use azure_iot_dev.Prelude.{ℕ, ◌≡◌, Bool, true, false, Option, none, List, [], ◌∷◌, ◌++◌, arith}
use azure_iot_dev.Errors.{Error}
use azure_iot_dev.Pipeline.Ops.{Op, reauthorize, connected_event, disconnected_event}
use azure_iot_dev.Pipeline.MqttTransport.{
  completed, sent_up, called_connect, called_disconnect, Raises, Stage, start_connect,
  start_disconnect, complete_op, run_connection_op, run_kind, run_op,
}
use azure_iot_dev.Pipeline.MqttTransport.Handlers.{
  finish_connected, finish_disconnected, resume, Stimulus, arrive, mqtt_connected,
  mqtt_disconnected, return_to_call, step, run,
}

abbrev pub connection_renewed : Raises → Op → Option Error → List Stimulus
connection_renewed r op cause =
    arrive r op
    ∷ mqtt_disconnected cause
    ∷ return_to_call r
    ∷ mqtt_connected
    ∷ return_to_call r
    ∷ []

-- A reauthorization that arrives when there is a transport and no operation is pending, and whose
-- disconnect and connect do not raise, disconnects without clearing what is in flight, connects
-- whatever the cause of the disconnection, and completes without an error when the connection is
-- up; no operation is then pending and the requests in flight are kept.
pub reauthorize_renews :
    (r : Raises) (id : ℕ) (needs : Bool) (cause : Option Error) (s : Stage)
    → r.connect_raises ≡ none
    → r.disconnect_raises ≡ none
    → s.transport ≡ true
    → s.pending_connection_op ≡ none
    → let op : Op = record { id = id; kind = reauthorize; needs_connection = needs } in
      let t : Stage = run (connection_renewed r op cause) s in
      (t.outputs
        ≡ ((((s.outputs ++ called_disconnect false ∷ []) ++ sent_up disconnected_event ∷ [])
              ++ called_connect ∷ [])
            ++ sent_up connected_event ∷ [])
          ++ completed op none ∷ [])
      × (t.pending_connection_op ≡ none)
      × (t.in_flight ≡ s.in_flight)
unfolding run step run_op run_kind run_connection_op start_disconnect resume finish_disconnected
    complete_op start_connect finish_connected
reauthorize_renews r id needs cause s c d made free = ground (arith, c, d, made, free)
