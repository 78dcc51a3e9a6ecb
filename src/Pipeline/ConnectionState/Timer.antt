-- ===== src/Pipeline/ConnectionState/Timer.antt =====
-- When a reconnect timer may run.
use azure_iot_dev.Prelude.{ℕ, ◌≡◌, ◌⊎◌, Bool, true, false, Option, none, some, List, [], ◌∷◌, arith}
use azure_iot_dev.Errors.{Error}
use azure_iot_dev.Pipeline.Ops.{Op, Event}
use azure_iot_dev.Pipeline.ConnectionState.{
  ReconnectState, connected, Loop, run_waiting, cancel_waiting, Stage, initial, run_op,
  handle_pipeline_event, timer_expires, loose_timer_expires, on_reconnect_timer_expired, resume,
  complete_op, complete_reconnect, Stimulus, arrive, event, finish, finish_reconnect, timer_time,
  loose_timer_time, timer_call, return_to_loop, step, run,
}

abbrev pub is_up : ReconnectState → Bool
is_up connected = true
is_up _ = false

-- A timer runs only while connection retry is on and the stage is not CONNECTED, and `_reconnect`
-- has an operation under way, and the thread a call of a timer, only if connection retry is on.
pub record IsTimely (retry : Bool) (s : Stage) : Type 0 where
  pub configured : s.connection_retry ≡ retry
  pub not_connected : (s.reconnect_timer ≡ none) ⊎ ((retry ≡ true) × (is_up s.state ≡ false))
  pub reconnects_on : (s.reconnects ≡ 0) ⊎ (retry ≡ true)
  pub counting_on : (s.counting ≡ false) ⊎ (retry ≡ true)
  pub loose_on : (s.loose_timers ≡ 0) ⊎ (retry ≡ true)
  pub expired_on : (s.expired ≡ 0) ⊎ (retry ≡ true)

run_op-IsTimely :
    (retry : Bool) (op : Op) (s : Stage) → IsTimely retry s → IsTimely retry (run_op op s)
unfolding run_op
run_op-IsTimely retry op s h = ground arith

event-IsTimely :
    (retry : Bool) (e : Event) (s : Stage)
    → IsTimely retry s
    → IsTimely retry (handle_pipeline_event e s)
unfolding handle_pipeline_event
event-IsTimely retry e s h = ground arith

complete-IsTimely :
    (retry : Bool) (id : ℕ) (error : Option Error) (s : Stage)
    → IsTimely retry s
    → IsTimely retry (complete_op id error s)
unfolding complete_op
complete-IsTimely retry id error s h = ground arith

reconnect-IsTimely :
    (retry : Bool) (error : Option Error) (s : Stage)
    → IsTimely retry s
    → IsTimely retry (complete_reconnect error s)
unfolding complete_reconnect
reconnect-IsTimely retry none s h = ground arith
reconnect-IsTimely retry (some e) s h = ground arith

time-IsTimely : (retry : Bool) (s : Stage) → IsTimely retry s → IsTimely retry (timer_expires s)
unfolding timer_expires
time-IsTimely retry s h = ground arith

loose-IsTimely :
    (retry : Bool) (s : Stage) → IsTimely retry s → IsTimely retry (loose_timer_expires s)
unfolding loose_timer_expires
loose-IsTimely retry s h = ground arith

call-IsTimely :
    (retry : Bool) (s : Stage) → IsTimely retry s → IsTimely retry (on_reconnect_timer_expired s)
unfolding on_reconnect_timer_expired
call-IsTimely retry s h = ground arith

resume-IsTimely :
    (retry : Bool) (loops : List Loop) (s : Stage)
    → IsTimely retry s
    → IsTimely retry (resume loops s)
unfolding resume
resume-IsTimely retry [] s h = h
resume-IsTimely retry (run_waiting [] ∷ outer) s h = ground arith
resume-IsTimely retry (run_waiting (op ∷ rest) ∷ outer) s h =
    let going = record s { loops = run_waiting rest ∷ outer } in
    ground (arith, run_op-IsTimely retry op going (ground arith))
resume-IsTimely retry (cancel_waiting op ∷ outer) s h = ground arith

step-IsTimely :
    (retry : Bool) (e : Stimulus) (s : Stage) → IsTimely retry s → IsTimely retry (step e s)
unfolding step
step-IsTimely retry (arrive op) s h = run_op-IsTimely retry op s h
step-IsTimely retry (event e) s h = event-IsTimely retry e s h
step-IsTimely retry (finish id error) s h = complete-IsTimely retry id error s h
step-IsTimely retry (finish_reconnect error) s h = reconnect-IsTimely retry error s h
step-IsTimely retry timer_time s h = time-IsTimely retry s h
step-IsTimely retry loose_timer_time s h = loose-IsTimely retry s h
step-IsTimely retry timer_call s h = call-IsTimely retry s h
step-IsTimely retry return_to_loop s h = resume-IsTimely retry s.loops s h

run-IsTimely :
    (retry : Bool) (es : List Stimulus) (s : Stage) → IsTimely retry s → IsTimely retry (run es s)
unfolding run
run-IsTimely retry [] s h = h
run-IsTimely retry (e ∷ es) s h = run-IsTimely retry es _ (step-IsTimely retry e s h)

initial-IsTimely : (retry : Bool) → IsTimely retry (initial retry)
unfolding initial
initial-IsTimely retry = ground arith

-- Whatever happens, a reconnect timer runs only if connection retry is configured, and never while
-- the state is CONNECTED.
pub timer_needs_retry :
    (retry : Bool) (es : List Stimulus)
    → ((run es (initial retry)).reconnect_timer ≡ none)
      ⊎ ((retry ≡ true) × (is_up (run es (initial retry)).state ≡ false))
timer_needs_retry retry es = (run-IsTimely retry es _ (initial-IsTimely retry)).not_connected
