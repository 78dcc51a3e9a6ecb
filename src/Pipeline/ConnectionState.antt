-- ===== src/Pipeline/ConnectionState.antt =====
-- `ConnectionStateStage` of
-- azure-iot-device/azure/iot/device/common/pipeline/pipeline_stages_base.py. As for the connection
-- lock, the state holds the loops that are suspended in a call of the outside, the innermost first,
-- and a run is a sequence of stimuli in any order. The stage's events and background exceptions go
-- up to the root stage, which hands them to another thread: they are outputs and suspend nothing.
pub mod Transitions
pub mod Alone
pub mod Timer
pub mod Reconnect
pub mod Persistence
pub mod Waiting
pub mod Samples
use azure_iot_dev.Prelude.{
  ℕ, ◌+◌, ◌-◌, Bool, true, false, ◌&&◌, ◌||◌, Option, none, some, List, [], ◌∷◌, ◌++◌, ◌==◌,
  if◌then◌else◌,
}
use azure_iot_dev.Errors.{
  Error, operation_cancelled, operation_timeout, operation_error, connection_failed_error,
  connection_dropped_error,
}
use azure_iot_dev.Pipeline.Ops.{
  Op, OpKind, connect, disconnect, reauthorize, shutdown, Event, connected_event,
  disconnected_event,
}

pub data ReconnectState : Type 0 where
  connected disconnected connecting disconnecting reauthorizing : ReconnectState

abbrev pub in_intermediate_states : ReconnectState → Bool
in_intermediate_states connecting = true
in_intermediate_states disconnecting = true
in_intermediate_states reauthorizing = true
in_intermediate_states _ = false

abbrev pub in_connection_ops : OpKind → Bool
in_connection_ops connect = true
in_connection_ops disconnect = true
in_connection_ops reauthorize = true
in_connection_ops _ = false

abbrev pub in_transient_connect_errors : Error → Bool
in_transient_connect_errors operation_cancelled = true
in_transient_connect_errors operation_timeout = true
in_transient_connect_errors operation_error = true
in_transient_connect_errors connection_failed_error = true
in_transient_connect_errors connection_dropped_error = true
in_transient_connect_errors _ = false

-- The delay of a reconnect timer: 0.01 seconds, or the configured interval.
pub data Delay : Type 0 where
  at_once retry_interval : Delay

-- What the stage has asked of the outside, in order. `sent_reconnect` is the `ConnectOperation`
-- that `_reconnect` makes.
pub data Output : Type 0 where
  sent_down : Op → Output
  sent_reconnect : Output
  sent_up : Event → Output
  completed : Op → Error → Output
  reported : Error → Output

-- A suspended loop: that of `_run_all_waiting_ops`, with its copy of the queue, or that of a
-- shutdown, which reads the stage's own queue and then sends its operation down.
pub data Loop : Type 0 where
  run_waiting : List Op → Loop
  cancel_waiting : Op → Loop

-- `done` lists the operations that have completed, and `watched` how many operations with this
-- stage's callback are still to complete; `reconnects` counts those of `_reconnect`. A timer calls
-- its function on the pipeline thread, which takes it up later: `counting` says whether the timer
-- that the stage holds has not expired, `expired` counts the calls that the thread has not taken
-- up, which cannot be cancelled, and `loose_timers` the timers that count and that the stage has
-- lost sight of.
pub record Stage : Type 0 where
  pub state : ReconnectState
  pub waiting_ops : List Op
  pub reconnect_timer : Option Delay
  pub counting : Bool
  pub loose_timers : ℕ
  pub expired : ℕ
  pub connection_retry : Bool
  pub loops : List Loop
  pub done : List ℕ
  pub watched : List ℕ
  pub reconnects : ℕ
  pub outputs : List Output

unfoldable pub initial : Bool → Stage
initial connection_retry = record {
  state = disconnected;
  waiting_ops = [];
  reconnect_timer = none;
  counting = false;
  loose_timers = 0;
  expired = 0;
  connection_retry = connection_retry;
  loops = [];
  done = [];
  watched = [];
  reconnects = 0;
  outputs = [];
}

abbrev pub emit : Output → Stage → Stage
emit output s = record s { outputs = s.outputs ++ output ∷ [] }

abbrev add_connection_op_callback : Op → Stage → Stage
add_connection_op_callback op s = record s { watched = op.id ∷ s.watched }

abbrev clear_reconnect_timer : Stage → Stage
clear_reconnect_timer s = record s { reconnect_timer = none; counting = false }

-- The old timer is cleared first.
abbrev start_reconnect_timer : Delay → Stage → Stage
start_reconnect_timer delay s = record s { reconnect_timer = some delay; counting = true }

abbrev run_connect : ReconnectState → Op → Stage → Stage
run_connect connected op s = add_connection_op_callback op s
run_connect disconnected op s = add_connection_op_callback op (record s { state = connecting })
run_connect _ op s = s

abbrev run_disconnect : ReconnectState → Op → Stage → Stage
run_disconnect connected op s = add_connection_op_callback op (record s { state = disconnecting })
run_disconnect disconnected op s = add_connection_op_callback op s
run_disconnect _ op s = s

abbrev run_reauthorize : ReconnectState → Op → Stage → Stage
run_reauthorize connected op s = add_connection_op_callback op (record s { state = reauthorizing })
run_reauthorize disconnected op s =
    add_connection_op_callback op (record s { state = reauthorizing })
run_reauthorize _ op s = s

-- The branches of `_run_op` for an operation that does not wait.
unfoldable pub pass_op : OpKind → Op → Stage → Stage
pass_op connect op s = emit (sent_down op) (run_connect s.state op s)
pass_op disconnect op s = emit (sent_down op) (run_disconnect s.state op (clear_reconnect_timer s))
pass_op reauthorize op s = emit (sent_down op) (run_reauthorize s.state op s)
pass_op shutdown op s = record (clear_reconnect_timer s) { loops = cancel_waiting op ∷ s.loops }
pass_op _ op s = emit (sent_down op) s

unfoldable pub run_op : Op → Stage → Stage
unfolding pass_op
run_op op s =
    if in_intermediate_states s.state && in_connection_ops op.kind
    then record s { waiting_ops = s.waiting_ops ++ op ∷ [] }
    else pass_op op.kind op s

abbrev on_disconnected : ReconnectState → Stage → Stage
on_disconnected connected s =
    if s.connection_retry
    then start_reconnect_timer at_once (record s { state = disconnected })
    else record s { state = disconnected }
on_disconnected disconnecting s = record s { state = disconnected }
on_disconnected reauthorizing s = s
on_disconnected _ s = record s { state = disconnected }

-- All three branches of a `ConnectedEvent` set the state to CONNECTED.
abbrev on_event : Event → Stage → Stage
on_event connected_event s = record (clear_reconnect_timer s) { state = connected }
on_event disconnected_event s = on_disconnected s.state s
on_event _ s = s

unfoldable pub handle_pipeline_event : Event → Stage → Stage
handle_pipeline_event event s = emit (sent_up event) (on_event event s)

-- The queue is copied and replaced only if it is not empty.
unfoldable pub run_all_waiting_ops : Stage → Stage
run_all_waiting_ops s = elim s.waiting_ops [
  | [] ↦ s
  | op ∷ rest ↦ record s { waiting_ops = []; loops = run_waiting (op ∷ rest) ∷ s.loops }
]

-- The callback of `_add_connection_op_callback`.
unfoldable pub on_complete : Option Error → Stage → Stage
unfolding run_all_waiting_ops
on_complete none s = run_all_waiting_ops s
on_complete (some error) s = run_all_waiting_ops (record s { state = disconnected })

unfoldable pub should_reconnect : Error → Stage → Bool
should_reconnect error s = if s.connection_retry then in_transient_connect_errors error else false

unfoldable pub on_reconnect_complete : Option Error → Stage → Stage
unfolding run_all_waiting_ops should_reconnect
on_reconnect_complete none s = run_all_waiting_ops s
on_reconnect_complete (some error) s =
    let failed = emit (reported error) (record s { state = disconnected }) in
    run_all_waiting_ops (
      if should_reconnect error failed then start_reconnect_timer retry_interval failed else failed)

abbrev expired_in : ReconnectState → Stage → Stage
expired_in disconnected s =
    emit sent_reconnect (record s { state = connecting; reconnects = s.reconnects + 1 })
expired_in connected s = s
expired_in _ s = start_reconnect_timer retry_interval s

-- The timer that the stage holds expires, if it was not cleared, or one that it has lost sight of.
unfoldable pub timer_expires : Stage → Stage
timer_expires s = if s.counting then record s { counting = false; expired = s.expired + 1 } else s

unfoldable pub loose_timer_expires : Stage → Stage
loose_timer_expires s =
    if s.loose_timers == 0
    then s
    else record s { loose_timers = s.loose_timers - 1; expired = s.expired + 1 }

-- `reconnect_timer = None`, which does not cancel a timer that the stage holds by now.
abbrev forget_timer : Stage → Stage
forget_timer s = record s {
  reconnect_timer = none;
  counting = false;
  loose_timers = if s.counting then s.loose_timers + 1 else s.loose_timers;
}

-- The thread takes up a call of an expired timer, if there is one.
unfoldable pub on_reconnect_timer_expired : Stage → Stage
on_reconnect_timer_expired s =
    if s.expired == 0
    then s
    else expired_in s.state (forget_timer (record s { expired = s.expired - 1 }))

abbrev pub has : ℕ → List ℕ → Bool
has id [] = false
has id (i ∷ rest) = i == id || has id rest

abbrev pub without : ℕ → List ℕ → List ℕ
without id [] = []
without id (i ∷ rest) = if i == id then rest else i ∷ without id rest

-- A round of the innermost loop. An operation that completed while it waited is passed over.
unfoldable pub run_waiting_round : List Op → List Loop → Stage → Stage
unfolding run_op
run_waiting_round [] outer s = record s { loops = outer }
run_waiting_round (op ∷ rest) outer s =
    let going = record s { loops = run_waiting rest ∷ outer } in
    if has op.id s.done then going else run_op op going

-- A waiting operation that is completed already makes `complete` raise, and `run_op` then completes
-- the shutdown operation with the error, unless that is completed too.
unfoldable pub cancel_round : List Op → Op → List Loop → Stage → Stage
cancel_round [] op outer s = emit (sent_down op) (record s { loops = outer })
cancel_round (waiting_op ∷ rest) op outer s =
    if has waiting_op.id s.done
    then (if has op.id s.done
        then record s { waiting_ops = rest; loops = outer }
        else emit (completed op operation_error)
            (record s { waiting_ops = rest; loops = outer; done = op.id ∷ s.done }))
    else emit (completed waiting_op operation_cancelled)
        (record s { waiting_ops = rest; done = waiting_op.id ∷ s.done })

unfoldable pub resume : List Loop → Stage → Stage
unfolding run_waiting_round cancel_round
resume [] s = s
resume (run_waiting queue ∷ outer) s = run_waiting_round queue outer s
resume (cancel_waiting op ∷ outer) s = cancel_round s.waiting_ops op outer s

-- An operation completes; if it is watched, the stage's callback is called.
unfoldable pub complete_op : ℕ → Option Error → Stage → Stage
unfolding on_complete
complete_op id error s =
    let known = record s { done = id ∷ s.done } in
    if has id s.watched
    then on_complete error (record known { watched = without id s.watched })
    else known

-- The operation of `_reconnect` completes, if there is one.
unfoldable pub complete_reconnect : Option Error → Stage → Stage
unfolding on_reconnect_complete
complete_reconnect error s =
    if s.reconnects == 0
    then s
    else on_reconnect_complete error (record s { reconnects = s.reconnects - 1 })

pub data Stimulus : Type 0 where
  arrive : Op → Stimulus
  event : Event → Stimulus
  finish : ℕ → Option Error → Stimulus
  finish_reconnect : Option Error → Stimulus
  timer_time loose_timer_time timer_call : Stimulus
  return_to_loop : Stimulus

unfoldable pub step : Stimulus → Stage → Stage
unfolding run_op handle_pipeline_event complete_op complete_reconnect timer_expires
    loose_timer_expires on_reconnect_timer_expired resume
step (arrive op) s = run_op op s
step (event e) s = handle_pipeline_event e s
step (finish id error) s = complete_op id error s
step (finish_reconnect error) s = complete_reconnect error s
step timer_time s = timer_expires s
step loose_timer_time s = loose_timer_expires s
step timer_call s = on_reconnect_timer_expired s
step return_to_loop s = resume s.loops s

unfoldable pub run : List Stimulus → Stage → Stage
run [] s = s
run (e ∷ rest) s = run rest (step e s)
