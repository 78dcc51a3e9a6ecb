-- ===== src/Pipeline/ConnectionState/Waiting.antt =====
-- The operations that wait for one in progress: what wakes them, and when nothing does.
use mathlib.Core.List.{append-nil, append_assoc}
use azure_iot_dev.Prelude.{
  map, ap, sym, ◌∙◌, All, ==_iff, ℕ, ◌+◌, ◌<◌, ◌≡◌, refl, ◌⊎◌, Bool, true, false, Option, none,
  some, List, [], ◌∷◌, ◌++◌, arith, length,
}
use azure_iot_dev.Errors.{Error}
use azure_iot_dev.Pipeline.Ops.{Op, connect, Event}
use azure_iot_dev.Pipeline.ConnectionState.{
  disconnected, connecting, in_connection_ops, in_intermediate_states, sent_down, Loop, run_waiting,
  cancel_waiting, Stage, initial, run_op, handle_pipeline_event, timer_expires, loose_timer_expires,
  on_reconnect_timer_expired, cancel_round, resume, complete_op, complete_reconnect, Stimulus,
  arrive, event, finish, finish_reconnect, timer_time, loose_timer_time, timer_call, return_to_loop,
  step, run, has, without,
}

-- The operations whose completion calls this stage.
abbrev pub outstanding : Stage → ℕ
outstanding s = length s.watched + s.reconnects

-- An operation in progress, and one that waits, is waited for by the completion of another.
record IsAwake (s : Stage) : Type 0 where
  in_progress : (in_intermediate_states s.state ≡ false) ⊎ (0 < outstanding s)
  waits : (s.waiting_ops ≡ []) ⊎ (0 < outstanding s)

-- An operation that completes without an error does so in a settled state: its `ConnectedEvent` or
-- `DisconnectedEvent` came before.
abbrev Settles : Stimulus → Stage → Type 0
Settles (finish id none) s = in_intermediate_states s.state ≡ false
Settles (finish_reconnect none) s = in_intermediate_states s.state ≡ false
Settles _ s = Unit

abbrev pub AllSettle : List Stimulus → Stage → Type 0
AllSettle [] s = Unit
AllSettle (e ∷ es) s = Settles e s × AllSettle es (step e s)

length-without :
    (id : ℕ) (ids : List ℕ) → has id ids ≡ true → length (without id ids) + 1 ≡ length ids
length-without id [] h = ground arith
length-without id (i ∷ ids) h = ground (arith, length-without id ids)

run_op-IsAwake : (op : Op) (s : Stage) → IsAwake s → IsAwake (run_op op s)
unfolding run_op
run_op-IsAwake op s h = ground arith

event-IsAwake : (e : Event) (s : Stage) → IsAwake s → IsAwake (handle_pipeline_event e s)
unfolding handle_pipeline_event
event-IsAwake e s h = ground arith

complete-IsAwake :
    (id : ℕ) (error : Option Error) (s : Stage)
    → Settles (finish id error) s
    → IsAwake s
    → IsAwake (complete_op id error s)
unfolding complete_op
complete-IsAwake id none s settled h = ground arith
complete-IsAwake id (some e) s settled h = ground arith

reconnect-IsAwake :
    (error : Option Error) (s : Stage)
    → Settles (finish_reconnect error) s
    → IsAwake s
    → IsAwake (complete_reconnect error s)
unfolding complete_reconnect
reconnect-IsAwake none s settled h = ground arith
reconnect-IsAwake (some e) s settled h = ground arith

time-IsAwake : (s : Stage) → IsAwake s → IsAwake (timer_expires s)
unfolding timer_expires
time-IsAwake s h = ground arith

loose-IsAwake : (s : Stage) → IsAwake s → IsAwake (loose_timer_expires s)
unfolding loose_timer_expires
loose-IsAwake s h = ground arith

call-IsAwake : (s : Stage) → IsAwake s → IsAwake (on_reconnect_timer_expired s)
unfolding on_reconnect_timer_expired
call-IsAwake s h = ground arith

cancel_round-IsAwake :
    (queue : List Op) (op : Op) (outer : List Loop) (s : Stage)
    → s.waiting_ops ≡ queue
    → IsAwake s
    → IsAwake (cancel_round queue op outer s)
unfolding cancel_round
cancel_round-IsAwake [] op outer s e h = ground arith
cancel_round-IsAwake (w ∷ rest) op outer s e h = ground arith

resume-IsAwake : (loops : List Loop) (s : Stage) → IsAwake s → IsAwake (resume loops s)
unfolding resume
resume-IsAwake [] s h = h
resume-IsAwake (run_waiting [] ∷ outer) s h = ground arith
resume-IsAwake (run_waiting (op ∷ rest) ∷ outer) s h =
    let going = record s { loops = run_waiting rest ∷ outer } in
    ground (arith, run_op-IsAwake op going (ground arith))
resume-IsAwake (cancel_waiting op ∷ outer) s h =
    cancel_round-IsAwake s.waiting_ops op outer s refl h

step-IsAwake : (e : Stimulus) (s : Stage) → Settles e s → IsAwake s → IsAwake (step e s)
unfolding step
step-IsAwake (arrive op) s settled h = run_op-IsAwake op s h
step-IsAwake (event e) s settled h = event-IsAwake e s h
step-IsAwake (finish id error) s settled h = complete-IsAwake id error s settled h
step-IsAwake (finish_reconnect error) s settled h = reconnect-IsAwake error s settled h
step-IsAwake timer_time s settled h = time-IsAwake s h
step-IsAwake loose_timer_time s settled h = loose-IsAwake s h
step-IsAwake timer_call s settled h = call-IsAwake s h
step-IsAwake return_to_loop s settled h = resume-IsAwake s.loops s h

run-IsAwake : (es : List Stimulus) (s : Stage) → AllSettle es s → IsAwake s → IsAwake (run es s)
unfolding run
run-IsAwake [] s settled h = h
run-IsAwake (e ∷ es) s settled h = run-IsAwake es _ settled.1 (step-IsAwake e s settled.0 h)

initial-IsAwake : (retry : Bool) → IsAwake (initial retry)
unfolding initial
initial-IsAwake retry = ground arith

-- If every operation that completes without an error does so in a settled state, then whenever an
-- operation waits in the queue, another one whose completion will run the queue is still to
-- complete.
pub waiting_is_awake :
    (retry : Bool) (es : List Stimulus)
    → AllSettle es (initial retry)
    → ((run es (initial retry)).waiting_ops ≡ []) ⊎ (0 < outstanding (run es (initial retry)))
waiting_is_awake retry es settled = (run-IsAwake es _ settled (initial-IsAwake retry)).waits

run_op-waits :
    (op : Op) (s : Stage)
    → in_connection_ops op.kind ≡ true
    → s.state ≡ connecting
    → run_op op s ≡ record s { waiting_ops = s.waiting_ops ++ op ∷ [] }
unfolding run_op
run_op-waits op s kind on_the_way = ground arith

run-waits :
    (ops : List Op) (s : Stage)
    → All (λ op. in_connection_ops op.kind ≡ true) ops
    → s.state ≡ connecting
    → run (map arrive ops) s ≡ record s { waiting_ops = s.waiting_ops ++ ops }
unfolding run step
run-waits [] s kinds on_the_way =
    ap (λ all. record s { waiting_ops = all }) (sym (append-nil s.waiting_ops))
run-waits (op ∷ ops) s kinds on_the_way =
    ap (run (map arrive ops)) (run_op-waits op s kinds.0 on_the_way)
    ∙ run-waits ops (record s { waiting_ops = s.waiting_ops ++ op ∷ [] }) kinds.1 on_the_way
    ∙ ap (λ all. record s { waiting_ops = all }) (append_assoc s.waiting_ops (op ∷ []) ops)

-- The state after a connect that completed at once, with no event.
abbrev pub stranded : Op → List Op → Stage → Stage
stranded first ops s = record s {
  state = connecting;
  waiting_ops = ops;
  done = first.id ∷ s.done;
  outputs = s.outputs ++ sent_down first ∷ [];
}

connect_at_once :
    (first : Op) (s : Stage)
    → first.kind ≡ connect
    → s.state ≡ disconnected
    → s.waiting_ops ≡ []
    → run (arrive first ∷ finish first.id none ∷ []) s ≡ stranded first [] s
unfolding run step
connect_at_once first s kind down idle = ground (arith, ==_iff first.id first.id)

-- If a connect that arrives while the stage is DISCONNECTED and nothing waits completes without an
-- error before any event has come, the state stays CONNECTING though nothing is in progress, and
-- all connect, disconnect and reauthorize operations that arrive then wait in the queue, with
-- nothing outstanding that was not before.
pub early_success_strands :
    (first : Op) (ops : List Op) (s : Stage)
    → first.kind ≡ connect
    → All (λ op. in_connection_ops op.kind ≡ true) ops
    → s.state ≡ disconnected
    → s.waiting_ops ≡ []
    → run (arrive first ∷ finish first.id none ∷ map arrive ops) s ≡ stranded first ops s
unfolding run step
early_success_strands first ops s kind kinds down idle =
    ap (run (map arrive ops)) (connect_at_once first s kind down idle)
    ∙ run-waits ops (stranded first [] s) kinds refl
