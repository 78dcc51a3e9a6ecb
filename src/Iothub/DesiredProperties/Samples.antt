-- ===== src/Iothub/DesiredProperties/Samples.antt =====
-- The desired properties at concrete inputs.
use azure_iot_dev.Prelude.{suc, ◌+◌, ◌≤◌, ◌≡◌, refl, none, some, List, [], ◌∷◌, length}
use azure_iot_dev.Errors.{operation_timeout}
use azure_iot_dev.Iothub.DesiredProperties.{
  enable_twin_patches, connected_event, undecodable, no_version, Answer, Stage, initial, Stimulus,
  arrive, event, answer, return_to_call, run, step, run_op, ensure_get_op, map_twin_error,
  handle_pipeline_event,
}
use azure_iot_dev.Iothub.DesiredProperties.Requests.{
  flag, gets, one_get_at_a_time, undecodable_twin_blocks,
}
use azure_iot_dev.Iothub.DesiredProperties.Freshness.{last_told}
use azure_iot_dev.Iothub.DesiredProperties.Refresh.{answers_until, reconnect_refreshes}

abbrev enabling : List Stimulus
enabling = arrive enable_twin_patches ∷ []

abbrev connecting : List Stimulus
connecting = arrive enable_twin_patches ∷ event connected_event ∷ []

-- The first request times out, and the service rejects the second one.
abbrev failures : List Answer
failures =
    record { error = some operation_timeout; status_code = 0; response_body = no_version }
    ∷ record { error = none; status_code = 500; response_body = no_version }
    ∷ []

one_get_at_a_time_example :
    (run connecting initial).outstanding ≤ flag (run connecting initial).pending_get_request
one_get_at_a_time_example = one_get_at_a_time connecting

undecodable_twin_blocks_example :
    let a : Answer = record { error = none; status_code = 200; response_body = undecodable } in
    gets (run (answer a ∷ event connected_event ∷ []) (run connecting initial)).outputs
    ≡ gets (run connecting initial).outputs
unfolding initial run step run_op handle_pipeline_event ensure_get_op
undecodable_twin_blocks_example =
    undecodable_twin_blocks 200 (event connected_event ∷ []) (run connecting initial) refl refl refl

reconnect_refreshes_example :
    let renewal : List Stimulus =
      event connected_event ∷ return_to_call ∷ answers_until failures 200 8 in
    let t : Stage = run renewal (run enabling initial) in
    (last_told t.outputs ≡ some 8)
    × (gets t.outputs ≡ gets (run enabling initial).outputs + suc (length failures))
unfolding initial run step run_op map_twin_error
reconnect_refreshes_example =
    reconnect_refreshes enabling failures 200 8 refl refl (refl, (refl, tt)) refl
