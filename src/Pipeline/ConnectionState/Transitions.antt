-- ===== src/Pipeline/ConnectionState/Transitions.antt =====
-- How the state of the connection may change.
use azure_iot_dev.Prelude.{ℕ, ◌≡◌, ◌⊎◌, inl, inr, false, Option, List, [], ◌∷◌, arith}
use azure_iot_dev.Errors.{Error}
use azure_iot_dev.Pipeline.Ops.{Op, Event, connected_event}
use azure_iot_dev.Pipeline.ConnectionState.{
  ReconnectState, connected, disconnected, connecting, disconnecting, reauthorizing,
  in_intermediate_states, Loop, run_waiting, cancel_waiting, Stage, run_op, handle_pipeline_event,
  timer_expires, loose_timer_expires, on_reconnect_timer_expired, resume, complete_op,
  complete_reconnect, Stimulus, arrive, event, finish, finish_reconnect, timer_time,
  loose_timer_time, timer_call, return_to_loop, step,
}

-- The ways in which the state may change.
pub data Change (e : Stimulus) (before after : ReconnectState) : Type 0 where
  stays : after ≡ before → Change e before after
  settles : after ≡ disconnected → Change e before after
  is_connected : e ≡ event connected_event → after ≡ connected → Change e before after
  starts :
      in_intermediate_states before ≡ false
      → (after ≡ connecting) ⊎ (after ≡ reauthorizing)
      → Change e before after
  hangs_up : before ≡ connected → after ≡ disconnecting → Change e before after

-- The same, as a sum that the tactics find a side of.
abbrev Allowed : Stimulus → ReconnectState → ReconnectState → Type 0
Allowed e before after =
    (after ≡ before)
    ⊎ ((after ≡ disconnected)
        ⊎ (((e ≡ event connected_event) × (after ≡ connected))
            ⊎ (((in_intermediate_states before ≡ false)
                  × ((after ≡ connecting) ⊎ (after ≡ reauthorizing)))
                ⊎ ((before ≡ connected) × (after ≡ disconnecting)))))

Allowed-Change :
    {e : Stimulus} {before after : ReconnectState} → Allowed e before after → Change e before after
Allowed-Change (inl same) = stays same
Allowed-Change (inr (inl down)) = settles down
Allowed-Change (inr (inr (inl (e, up)))) = is_connected e up
Allowed-Change (inr (inr (inr (inl (settled, on_the_way))))) = starts settled on_the_way
Allowed-Change (inr (inr (inr (inr (up, down))))) = hangs_up up down

run_op-Allowed : (e : Stimulus) (op : Op) (s : Stage) → Allowed e s.state (run_op op s).state
unfolding run_op
run_op-Allowed e op s = ground arith

event-Allowed :
    (e : Event) (s : Stage) → Allowed (event e) s.state (handle_pipeline_event e s).state
unfolding handle_pipeline_event
event-Allowed e s = ground arith

complete-Allowed :
    (e : Stimulus) (id : ℕ) (error : Option Error) (s : Stage)
    → Allowed e s.state (complete_op id error s).state
unfolding complete_op
complete-Allowed e id error s = ground arith

reconnect-Allowed :
    (e : Stimulus) (error : Option Error) (s : Stage)
    → Allowed e s.state (complete_reconnect error s).state
unfolding complete_reconnect
reconnect-Allowed e error s = ground arith

time-Allowed : (e : Stimulus) (s : Stage) → Allowed e s.state (timer_expires s).state
unfolding timer_expires
time-Allowed e s = ground arith

loose-Allowed : (e : Stimulus) (s : Stage) → Allowed e s.state (loose_timer_expires s).state
unfolding loose_timer_expires
loose-Allowed e s = ground arith

call-Allowed : (e : Stimulus) (s : Stage) → Allowed e s.state (on_reconnect_timer_expired s).state
unfolding on_reconnect_timer_expired
call-Allowed e s = ground arith

resume-Allowed :
    (e : Stimulus) (loops : List Loop) (s : Stage) → Allowed e s.state (resume loops s).state
unfolding resume
resume-Allowed e [] s = ground arith
resume-Allowed e (run_waiting [] ∷ outer) s = ground arith
resume-Allowed e (run_waiting (op ∷ rest) ∷ outer) s =
    let r = run_op-Allowed e op (record s { loops = run_waiting rest ∷ outer }) in ground (arith, r)
resume-Allowed e (cancel_waiting op ∷ outer) s = ground arith

step-Allowed : (e : Stimulus) (s : Stage) → Allowed e s.state (step e s).state
unfolding step
step-Allowed (arrive op) s = run_op-Allowed _ op s
step-Allowed (event e) s = event-Allowed e s
step-Allowed (finish id error) s = complete-Allowed _ id error s
step-Allowed (finish_reconnect error) s = reconnect-Allowed _ error s
step-Allowed timer_time s = time-Allowed _ s
step-Allowed loose_timer_time s = loose-Allowed _ s
step-Allowed timer_call s = call-Allowed _ s
step-Allowed return_to_loop s = resume-Allowed _ s.loops s

pub any_transition : (e : Stimulus) (s : Stage) → Change e s.state (step e s).state
any_transition e s = Allowed-Change (step-Allowed e s)
