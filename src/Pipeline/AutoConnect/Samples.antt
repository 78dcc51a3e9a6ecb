-- ===== src/Pipeline/AutoConnect/Samples.antt =====
-- The auto-connect stage at concrete inputs.
use azure_iot_dev.Prelude.{ℕ, ◌+◌, ◌≡◌, refl, true, none, some, List, [], ◌∷◌}
use azure_iot_dev.Errors.{connection_failed_error}
use azure_iot_dev.Pipeline.Ops.{Op, mqtt_publish}
use azure_iot_dev.Pipeline.AutoConnect.{
  sent_down, sent_connect, completed, initial, run_op, find, without, on_connect_op_complete,
  Stimulus, arrive, connect_done, set_connected, step, run,
}
use azure_iot_dev.Pipeline.AutoConnect.Connected.{
  handled, waiting, arrivals, all_connected, auto_connected,
}

abbrev publish : ℕ → Op
publish id = record { id = id; kind = mqtt_publish; needs_connection = true }

-- Two operations ask for a connection; the first attempt fails and the second one connects.
abbrev two : List Stimulus
two =
    arrive (publish 1)
    ∷ arrive (publish 2)
    ∷ connect_done 1 (some connection_failed_error)
    ∷ set_connected true
    ∷ connect_done 2 none
    ∷ arrive (publish 3)
    ∷ []

run-two : run two (initial true) ≡ record {
  connected = true;
  auto_connect = true;
  connecting = [];
  outputs =
      sent_connect (publish 1)
      ∷ sent_connect (publish 2)
      ∷ completed (publish 1) connection_failed_error
      ∷ sent_down (publish 2) true
      ∷ sent_down (publish 3) true
      ∷ [];
}
unfolding run step initial run_op on_connect_op_complete find without
run-two = refl

auto_connected_example :
    (handled 2 (run two (initial true)).outputs + waiting 2 (run two (initial true)).connecting
      ≡ arrivals 2 two)
    × (all_connected (run two (initial true)).outputs ≡ true)
auto_connected_example = auto_connected 2 two
