-- ===== src/Pipeline/Coordinate.antt =====
-- `CoordinateRequestAndResponseStage` of
-- azure-iot-device/azure/iot/device/common/pipeline/pipeline_stages_base.py. A request id, a
-- `uuid4` in the code, is a number that comes with the operation. The state holds the loops over
-- the pending requests that are suspended in a call of the outside, the innermost first.
pub mod Requests
pub mod Conservation
pub mod Republish
pub mod Samples
use azure_iot_dev.Prelude.{
  ℕ, Bool, true, false, ◌||◌, Option, none, some, List, [], ◌∷◌, ◌++◌, ◌==◌, if◌then◌else◌, length,
  is_some,
}
use azure_iot_dev.Errors.{Error}
use azure_iot_dev.Pipeline.Ops.{
  Op, OpKind, request_and_response, Event, connected_event, response_event,
}

-- What the stage has asked of the outside, in order. `requested` is the `RequestOperation` made for
-- an operation; `raised_in_loop` is the `RuntimeError` of a dictionary whose size changes under a
-- loop, which `handle_pipeline_event` reports as a background exception.
pub data Output : Type 0 where
  sent_down : Op → Output
  requested : ℕ → Op → Output
  sent_up : Event → Output
  answered : Op → (status_code : ℕ) → Output
  failed : Op → Error → Output
  raised_in_loop : Output

abbrev pub Pending : Type 0
Pending = List (ℕ × Op)

-- A dictionary of Python keeps the order of insertion.
unfoldable pub lookup : ℕ → Pending → Option Op
lookup id [] = none
lookup id ((i, op) ∷ rest) = if i == id then some op else lookup id rest

unfoldable pub insert : ℕ → Op → Pending → Pending
insert id op [] = (id, op) ∷ []
insert id op ((i, old) ∷ rest) = if i == id then (i, op) ∷ rest else (i, old) ∷ insert id op rest

unfoldable pub delete : ℕ → Pending → Pending
delete id [] = []
delete id ((i, op) ∷ rest) = if i == id then rest else (i, op) ∷ delete id rest

abbrev pub has : ℕ → List ℕ → Bool
has id [] = false
has id (i ∷ rest) = i == id || has id rest

-- The loop of a `ConnectedEvent`: the request ids that it has visited, and the size that the
-- dictionary had when it began.
pub record Loop : Type 0 where
  pub visited : List ℕ
  pub size : ℕ

pub record Stage : Type 0 where
  pub pending_responses : Pending
  pub loops : List Loop
  pub outputs : List Output

unfoldable pub initial : Stage
initial = record { pending_responses = []; loops = []; outputs = [] }

abbrev pub emit : Output → Stage → Stage
emit output s = record s { outputs = s.outputs ++ output ∷ [] }

abbrev is_request_and_response : OpKind → Bool
is_request_and_response request_and_response = true
is_request_and_response _ = false

-- `_run_op`, with the request id that it makes.
unfoldable pub run_op : ℕ → Op → Stage → Stage
unfolding insert
run_op request_id op s =
    if is_request_and_response op.kind
    then emit (requested request_id op)
        (record s { pending_responses = insert request_id op s.pending_responses })
    else emit (sent_down op) s

abbrev pub finish_request : Error → ℕ → Option Op → Stage → Stage
finish_request error id none s = s
finish_request error id (some op) s =
    emit (failed op error) (record s { pending_responses = delete id s.pending_responses })

-- `on_send_request_done`. The operation that it captured is the one that is pending under the id,
-- since ids are not used twice.
unfoldable pub on_send_request_done : ℕ → Option Error → Stage → Stage
unfolding lookup delete
on_send_request_done id none s = s
on_send_request_done id (some error) s = finish_request error id (lookup id s.pending_responses) s

abbrev pub answer : ℕ → ℕ → Option Op → Stage → Stage
answer id status_code none s = s
answer id status_code (some op) s =
    emit (answered op status_code) (record s { pending_responses = delete id s.pending_responses })

unfoldable pub handle_pipeline_event : Event → Stage → Stage
unfolding lookup delete
handle_pipeline_event (response_event id status_code) s =
    answer id status_code (lookup id s.pending_responses) s
handle_pipeline_event connected_event s = record s {
  loops = record { visited = []; size = length s.pending_responses } ∷ s.loops;
  outputs = s.outputs ++ sent_up connected_event ∷ [];
}
handle_pipeline_event e s = emit (sent_up e) s

-- The next entry of the dictionary that the loop has not come to.
unfoldable pub next_entry : List ℕ → Pending → Option (ℕ × Op)
next_entry visited [] = none
next_entry visited ((i, op) ∷ rest) =
    if has i visited then next_entry visited rest else some (i, op)

abbrev pub visit : Loop → List Loop → Option (ℕ × Op) → Stage → Stage
visit loop outer none s = record s { loops = outer }
visit loop outer (some (id, op)) s =
    emit (requested id op)
      (record s { loops = record { visited = id ∷ loop.visited; size = loop.size } ∷ outer })

-- A round of a loop. The iterator looks at the size first.
unfoldable pub republish_round : Loop → List Loop → Stage → Stage
unfolding next_entry
republish_round loop outer s =
    if length s.pending_responses == loop.size
    then visit loop outer (next_entry loop.visited s.pending_responses) s
    else emit raised_in_loop (record s { loops = outer })

unfoldable pub resume : List Loop → Stage → Stage
unfolding republish_round
resume [] s = s
resume (loop ∷ outer) s = republish_round loop outer s

pub data Stimulus : Type 0 where
  arrive : (request_id : ℕ) → Op → Stimulus
  event : Event → Stimulus
  request_done : (request_id : ℕ) → Option Error → Stimulus
  return_to_loop : Stimulus

unfoldable pub step : Stimulus → Stage → Stage
unfolding run_op handle_pipeline_event on_send_request_done resume
step (arrive id op) s = run_op id op s
step (event e) s = handle_pipeline_event e s
step (request_done id error) s = on_send_request_done id error s
step return_to_loop s = resume s.loops s

unfoldable pub run : List Stimulus → Stage → Stage
run [] s = s
run (e ∷ rest) s = run rest (step e s)
