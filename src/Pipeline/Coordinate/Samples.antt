-- ===== src/Pipeline/Coordinate/Samples.antt =====
-- Small runs of the request and response stage, and the theorems at concrete inputs.
use azure_iot_dev.Prelude.{ℕ, ◌+◌, ◌≡◌, refl, false, some, List, [], ◌∷◌, ◌++◌}
use azure_iot_dev.Errors.{no_connection_error}
use azure_iot_dev.Pipeline.Ops.{Op, request_and_response, connected_event}
use azure_iot_dev.Pipeline.Coordinate.{
  requested, sent_up, failed, raised_in_loop, Stage, initial, Stimulus, arrive, event, request_done,
  return_to_loop, step, run,
}
use azure_iot_dev.Pipeline.Coordinate.Conservation.{
  completions, pending_count, requests, requests_conserved,
}
use azure_iot_dev.Pipeline.Coordinate.Republish.{returns, reconnect_republishes, republish_aborts}

abbrev twin : ℕ → Op
twin id = record { id = id; kind = request_and_response; needs_connection = false }

abbrev two_requests : List Stimulus
two_requests = arrive 100 (twin 1) ∷ arrive 200 (twin 2) ∷ []

abbrev two_pending : Stage
two_pending = record {
  pending_responses = (100, twin 1) ∷ (200, twin 2) ∷ [];
  loops = [];
  outputs = requested 100 (twin 1) ∷ requested 200 (twin 2) ∷ [];
}

run-two_requests : run two_requests initial ≡ two_pending
unfolding run step initial
run-two_requests = refl

requests_conserved_example :
    completions 1 (run two_requests initial).outputs
      + pending_count 1 (run two_requests initial).pending_responses
    ≡ requests 1 two_requests
unfolding run step initial
requests_conserved_example = requests_conserved 1 two_requests (refl, (refl, tt))

reconnect_republishes_example :
    run (event connected_event ∷ returns 3) (run two_requests initial)
    ≡ record (run two_requests initial) {
      outputs =
          ((run two_requests initial).outputs ++ sent_up connected_event ∷ [])
          ++ requested 100 (twin 1) ∷ requested 200 (twin 2) ∷ [];
    }
unfolding run step initial
reconnect_republishes_example = reconnect_republishes two_requests

republish_aborts_example :
    run
      (event connected_event
        ∷ return_to_loop
        ∷ request_done 100 (some no_connection_error)
        ∷ return_to_loop
        ∷ [])
      two_pending
    ≡ record {
      pending_responses = (200, twin 2) ∷ [];
      loops = [];
      outputs =
          requested 100 (twin 1)
          ∷ requested 200 (twin 2)
          ∷ sent_up connected_event
          ∷ requested 100 (twin 1)
          ∷ failed (twin 1) no_connection_error
          ∷ raised_in_loop
          ∷ [];
    }
republish_aborts_example =
    republish_aborts 100 (twin 1) ((200, twin 2) ∷ []) no_connection_error two_pending refl
