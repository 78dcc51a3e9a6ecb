-- ===== src/Iothub/Inboxes/Samples.antt =====
-- The inboxes at concrete inputs.
use azure_iot_dev.Prelude.{◌≡◌, refl, List, [], ◌∷◌, ◌++◌}
use azure_iot_dev.Text.{codes}
use azure_iot_dev.Iothub.Inboxes.{
  initial, lookup, update, contents, take, named_method, generic_method, make_method_inbox,
  input_message, method_request, input, get_from, Request, run, step, get_method_request_inbox,
  route_method_request, route_input_message,
}
use azure_iot_dev.Iothub.Inboxes.Queues.{all_put, all_left}
use azure_iot_dev.Iothub.Inboxes.Order.{inboxes_are_queues}

-- A request whose name has no inbox yet goes into the one for all names; the message of an input
-- without an inbox is dropped.
abbrev session : List Request
session =
    method_request (codes "boot") 1
    ∷ make_method_inbox (codes "boot")
    ∷ method_request (codes "boot") 2
    ∷ method_request (codes "boot") 3
    ∷ input_message (codes "in") 4
    ∷ get_from (named_method (codes "boot"))
    ∷ []

run-session :
    (contents generic_method (run session initial) ≡ 1 ∷ [])
    × (contents (named_method (codes "boot")) (run session initial) ≡ 3 ∷ [])
    × (contents (input (codes "in")) (run session initial) ≡ [])
unfolding run step initial contents lookup update take get_method_request_inbox route_method_request
    route_input_message
run-session = (refl, refl, refl)

inboxes_are_queues_example :
    all_left (named_method (codes "boot")) session initial
      ++ contents (named_method (codes "boot")) (run session initial)
    ≡ all_put (named_method (codes "boot")) session initial
inboxes_are_queues_example = inboxes_are_queues (named_method (codes "boot")) session
