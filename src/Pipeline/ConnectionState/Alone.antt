-- ===== src/Pipeline/ConnectionState/Alone.antt =====
-- An operation in progress stays the only one.
use azure_iot_dev.Prelude.{
  ℕ, ◌+◌, ◌≡◌, refl, ◌⊎◌, Bool, true, false, Option, none, some, List, [], ◌∷◌, ◌++◌, ◌&&◌, not,
  arith, if◌then◌else◌,
}
use azure_iot_dev.Errors.{Error, operation_error, operation_cancelled}
use azure_iot_dev.Pipeline.Ops.{Op, Event}
use azure_iot_dev.Pipeline.ConnectionState.{
  in_intermediate_states, in_connection_ops, Output, completed, sent_down, sent_reconnect, sent_up,
  reported, Loop, run_waiting, cancel_waiting, Stage, initial, run_op, handle_pipeline_event,
  timer_expires, loose_timer_expires, on_reconnect_timer_expired, cancel_round, resume, complete_op,
  complete_reconnect, Stimulus, arrive, event, finish, finish_reconnect, timer_time,
  loose_timer_time, timer_call, return_to_loop, step, run,
}
use azure_iot_dev.Pipeline.ConnectionState.Transitions.{Change, any_transition}

abbrev is_connection : Output → ℕ
is_connection (sent_down op) = if in_connection_ops op.kind then 1 else 0
is_connection sent_reconnect = 1
is_connection _ = 0

-- How many connect, disconnect and reauthorize operations the stage has sent down, its own
-- included.
abbrev pub connections_sent : List Output → ℕ
connections_sent [] = 0
connections_sent (o ∷ rest) = is_connection o + connections_sent rest

connections_sent-append :
    (xs ys : List Output) → connections_sent (xs ++ ys) ≡ connections_sent xs + connections_sent ys
connections_sent-append [] ys = omega arith
connections_sent-append (x ∷ xs) ys = omega (arith, connections_sent-append xs ys)

snoc :
    (xs : List Output) (o : Output)
    → connections_sent (xs ++ o ∷ []) ≡ connections_sent xs + is_connection o
snoc xs o = omega (arith, connections_sent-append xs (o ∷ []))

-- The loops that cancel the queue are those of operations that are no connection operations.
abbrev loops_shut_down : List Loop → Bool
loops_shut_down [] = true
loops_shut_down (run_waiting queue ∷ rest) = loops_shut_down rest
loops_shut_down (cancel_waiting op ∷ rest) = not (in_connection_ops op.kind) && loops_shut_down rest

run_op-loops :
    (op : Op) (s : Stage)
    → loops_shut_down s.loops ≡ true
    → loops_shut_down (run_op op s).loops ≡ true
unfolding run_op
run_op-loops op s h = ground arith

resume-loops :
    (loops : List Loop) (s : Stage)
    → s.loops ≡ loops
    → loops_shut_down loops ≡ true
    → loops_shut_down (resume loops s).loops ≡ true
unfolding resume
resume-loops [] s e h = ground arith
resume-loops (run_waiting [] ∷ outer) s e h = ground arith
resume-loops (run_waiting (op ∷ rest) ∷ outer) s e h =
    let going = record s { loops = run_waiting rest ∷ outer } in
    ground (arith, run_op-loops op going h)
resume-loops (cancel_waiting op ∷ outer) s e h = ground arith

step-loops :
    (e : Stimulus) (s : Stage)
    → loops_shut_down s.loops ≡ true
    → loops_shut_down (step e s).loops ≡ true
unfolding step handle_pipeline_event complete_op complete_reconnect timer_expires
    loose_timer_expires on_reconnect_timer_expired
step-loops (arrive op) s h = run_op-loops op s h
step-loops (event e) s h = ground arith
step-loops (finish id error) s h = ground arith
step-loops (finish_reconnect error) s h = ground arith
step-loops timer_time s h = ground arith
step-loops loose_timer_time s h = ground arith
step-loops timer_call s h = ground arith
step-loops return_to_loop s h = resume-loops s.loops s refl h

run-loops :
    (es : List Stimulus) (s : Stage)
    → loops_shut_down s.loops ≡ true
    → loops_shut_down (run es s).loops ≡ true
unfolding run
run-loops [] s h = h
run-loops (e ∷ es) s h = run-loops es (step e s) (step-loops e s h)

-- Nothing is sent while an operation is in progress.
abbrev pub SendsNone : Stage → Stage → Type 0
SendsNone before after =
    (in_intermediate_states before.state ≡ false)
    ⊎ (connections_sent after.outputs ≡ connections_sent before.outputs)

run_op-SendsNone : (op : Op) (s : Stage) → SendsNone s (run_op op s)
unfolding run_op
run_op-SendsNone op s = ground (arith, snoc s.outputs (sent_down op))

event-SendsNone : (e : Event) (s : Stage) → SendsNone s (handle_pipeline_event e s)
unfolding handle_pipeline_event
event-SendsNone e s = ground (arith, snoc s.outputs (sent_up e))

complete-SendsNone :
    (id : ℕ) (error : Option Error) (s : Stage) → SendsNone s (complete_op id error s)
unfolding complete_op
complete-SendsNone id error s = ground arith

reconnect-SendsNone : (error : Option Error) (s : Stage) → SendsNone s (complete_reconnect error s)
unfolding complete_reconnect
reconnect-SendsNone none s = ground arith
reconnect-SendsNone (some e) s = ground (arith, snoc s.outputs (reported e))

call-SendsNone : (s : Stage) → SendsNone s (on_reconnect_timer_expired s)
unfolding on_reconnect_timer_expired
call-SendsNone s = ground arith

cancel-SendsNone :
    (queue : List Op) (op : Op) (outer : List Loop) (s : Stage)
    → in_connection_ops op.kind ≡ false
    → SendsNone s (cancel_round queue op outer s)
unfolding cancel_round
cancel-SendsNone [] op outer s h = ground (arith, snoc s.outputs (sent_down op))
cancel-SendsNone (w ∷ rest) op outer s h = ground (
  arith,
  snoc s.outputs (completed op operation_error),
  snoc s.outputs (completed w operation_cancelled),
)

resume-SendsNone :
    (loops : List Loop) (s : Stage) → loops_shut_down loops ≡ true → SendsNone s (resume loops s)
unfolding resume
resume-SendsNone [] s h = ground arith
resume-SendsNone (run_waiting [] ∷ outer) s h = ground arith
resume-SendsNone (run_waiting (op ∷ rest) ∷ outer) s h =
    let going = record s { loops = run_waiting rest ∷ outer } in
    ground (arith, run_op-SendsNone op going)
resume-SendsNone (cancel_waiting op ∷ outer) s h =
    cancel-SendsNone s.waiting_ops op outer s (ground (arith, h))

step-SendsNone :
    (e : Stimulus) (s : Stage) → loops_shut_down s.loops ≡ true → SendsNone s (step e s)
unfolding step timer_expires loose_timer_expires
step-SendsNone (arrive op) s h = run_op-SendsNone op s
step-SendsNone (event e) s h = event-SendsNone e s
step-SendsNone (finish id error) s h = complete-SendsNone id error s
step-SendsNone (finish_reconnect error) s h = reconnect-SendsNone error s
step-SendsNone timer_time s h = ground arith
step-SendsNone loose_timer_time s h = ground arith
step-SendsNone timer_call s h = call-SendsNone s
step-SendsNone return_to_loop s h = resume-SendsNone s.loops s h

initial-loops : (connection_retry : Bool) → loops_shut_down (initial connection_retry).loops ≡ true
unfolding initial
initial-loops connection_retry = refl

-- Whatever has happened, and whatever happens next: the state stays, becomes DISCONNECTED, becomes
-- CONNECTED by a `ConnectedEvent`, becomes CONNECTING or REAUTHORIZING from a state in which no
-- operation is in progress, or becomes DISCONNECTING from CONNECTED; and while an operation is in
-- progress the stage sends no connect, disconnect or reauthorize operation down, neither one that
-- arrives or waits nor its own.
pub state_transitions :
    (connection_retry : Bool) (es : List Stimulus) (e : Stimulus)
    → let s = run es (initial connection_retry) in
      Change e s.state (step e s).state
      × ((in_intermediate_states s.state ≡ false)
          ⊎ (connections_sent (step e s).outputs ≡ connections_sent s.outputs))
state_transitions connection_retry es e =
    let s = run es (initial connection_retry) in
    (any_transition e s, step-SendsNone e s (run-loops es _ (initial-loops connection_retry)))
