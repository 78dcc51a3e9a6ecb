-- ===== src/Iothub/DesiredProperties.antt =====
-- `EnsureDesiredPropertiesStage` and `TwinRequestResponseStage` of
-- azure-iot-device/azure/iot/device/iothub/pipeline/pipeline_stages_iothub.py, one above the other:
-- the versions of the desired properties, and the requests for the twin that the first stage makes.
-- A request goes down and its answer comes back through both. A handler that has called the outside
-- may be suspended there.
pub mod Requests
pub mod Freshness
pub mod Refresh
pub mod Samples
use azure_iot_dev.Prelude.{
  ℕ, zero, suc, Bool, true, false, not, ◌&&◌, Option, none, some, List, [], ◌∷◌, ◌++◌, leb, ◌==◌,
  if◌then◌else◌,
}
use azure_iot_dev.Errors.{Error, service_error}

-- `last_version_seen`: `None`, the -1 that enables the functionality, or a version.
pub data LastVersion : Type 0 where
  nothing enabled : LastVersion
  version : ℕ → LastVersion

-- Its truth in Python.
abbrev pub is_truthy : LastVersion → Bool
is_truthy nothing = false
is_truthy enabled = true
is_truthy (version zero) = false
is_truthy (version (suc n)) = true

abbrev pub is_version : ℕ → LastVersion → Bool
is_version n (version m) = m == n
is_version n _ = false

pub data Operation : Type 0 where
  enable_twin_patches other_operation : Operation

pub data Event : Type 0 where
  connected_event other_event : Event
  patch_event : (version : ℕ) → Event

-- The `TwinDesiredPropertiesPatchEvent` that the stage makes is `sent_up` as well. `crashed` is an
-- exception that completes no operation.
pub data Output : Type 0 where
  sent_down : Operation → Output
  sent_get : Output
  sent_up : Event → Output
  crashed : Output

-- What `json.loads` makes of the body of an answer: an exception, a twin without a version of the
-- desired properties, or one with it.
pub data Body : Type 0 where
  undecodable no_version : Body
  twin : (version : ℕ) → Body

-- How the `RequestAndResponseOperation` for a twin ends.
pub record Answer : Type 0 where
  pub error : Option Error
  pub status_code : ℕ
  pub response_body : Body

-- `outstanding` counts the requests that are not answered, and `suspended` the handlers of a
-- `ConnectedEvent` that are still to send it up.
pub record Stage : Type 0 where
  pub last_version_seen : LastVersion
  pub pending_get_request : Bool
  pub outstanding : ℕ
  pub suspended : ℕ
  pub outputs : List Output

unfoldable pub initial : Stage
initial = record {
  last_version_seen = nothing;
  pending_get_request = false;
  outstanding = 0;
  suspended = 0;
  outputs = [];
}

abbrev pub emit : Output → Stage → Stage
emit output s = record s { outputs = s.outputs ++ output ∷ [] }

-- `EnsureDesiredPropertiesStage._run_op`
unfoldable pub run_op : Operation → Stage → Stage
run_op enable_twin_patches s =
    emit (sent_down enable_twin_patches) (record s { last_version_seen = enabled })
run_op other_operation s = emit (sent_down other_operation) s

-- `_ensure_get_op`
unfoldable pub ensure_get_op : Stage → Stage
ensure_get_op s =
    if s.pending_get_request
    then s
    else emit sent_get (record s { pending_get_request = true; outstanding = suc s.outstanding })

abbrev pub see_version : ℕ → Stage → Stage
see_version n s =
    if is_version n s.last_version_seen
    then s
    else emit (sent_up (patch_event n)) (record s { last_version_seen = version n })

-- The body of a twin that was read. One without a version raises.
abbrev pub see_twin : Body → Stage → Stage
see_twin (twin n) s = see_version n s
see_twin _ s = emit crashed s

-- `_on_get_twin_complete`
unfoldable pub on_get_twin_complete : Option Error → Body → Stage → Stage
unfolding ensure_get_op
on_get_twin_complete (some e) body s = ensure_get_op (record s { pending_get_request = false })
on_get_twin_complete none body s = see_twin body (record s { pending_get_request = false })

-- `map_twin_error`
unfoldable pub map_twin_error : Option Error → ℕ → Option Error
map_twin_error (some e) status_code = some e
map_twin_error none status_code = if leb 300 status_code then some service_error else none

-- `on_twin_response` for a `GetTwinOperation`: a body that cannot be decoded raises, and the
-- operation is not completed.
abbrev pub twin_read : Body → Stage → Stage
twin_read undecodable s = emit crashed s
twin_read body s = on_get_twin_complete none body s

abbrev pub twin_completed : Option Error → Body → Stage → Stage
twin_completed (some e) body s = on_get_twin_complete (some e) body s
twin_completed none body s = twin_read body s

unfoldable pub on_twin_response : Answer → Stage → Stage
unfolding on_get_twin_complete map_twin_error
on_twin_response a s = twin_completed (map_twin_error a.error a.status_code) a.response_body s

-- `EnsureDesiredPropertiesStage._handle_pipeline_event`
unfoldable pub handle_pipeline_event : Event → Stage → Stage
unfolding ensure_get_op
handle_pipeline_event (patch_event n) s =
    emit (sent_up (patch_event n)) (record s { last_version_seen = version n })
handle_pipeline_event connected_event s =
    if is_truthy s.last_version_seen
    then record (ensure_get_op s) { suspended = suc s.suspended }
    else emit (sent_up connected_event) s
handle_pipeline_event other_event s = emit (sent_up other_event) s

pub data Stimulus : Type 0 where
  arrive : Operation → Stimulus
  event : Event → Stimulus
  answer : Answer → Stimulus
  return_to_call : Stimulus

abbrev pub answered : ℕ → Answer → Stage → Stage
answered zero a s = s
answered (suc n) a s = on_twin_response a (record s { outstanding = n })

abbrev pub resume : ℕ → Stage → Stage
resume zero s = s
resume (suc n) s = emit (sent_up connected_event) (record s { suspended = n })

unfoldable pub step : Stimulus → Stage → Stage
unfolding run_op on_twin_response handle_pipeline_event
step (arrive op) s = run_op op s
step (event e) s = handle_pipeline_event e s
step (answer a) s = answered s.outstanding a s
step return_to_call s = resume s.suspended s

unfoldable pub run : List Stimulus → Stage → Stage
unfolding step
run [] s = s
run (e ∷ rest) s = run rest (step e s)
