-- ===== src/Pipeline/ConnectionState/Reconnect.antt =====
-- Automatic reconnection: what keeps it going, and what ends it.
use azure_iot_dev.Prelude.{
  ℕ, ◌+◌, ◌<◌, ◌≡◌, ap, ◌∙◌, Bool, true, false, Option, none, List, [], ◌∷◌, ◌++◌, arith, All,
}
use azure_iot_dev.Errors.{Error, operation_error, operation_cancelled}
use azure_iot_dev.Pipeline.Ops.{Op, disconnect, Event, connected_event}
use azure_iot_dev.Pipeline.ConnectionState.{
  disconnected, connecting, in_intermediate_states, Output, completed, sent_down, sent_reconnect,
  sent_up, Loop, run_waiting, cancel_waiting, Stage, run_op, handle_pipeline_event, timer_expires,
  loose_timer_expires, on_reconnect_timer_expired, cancel_round, resume, complete_op,
  complete_reconnect, Stimulus, arrive, event, finish, finish_reconnect, timer_time,
  loose_timer_time, timer_call, return_to_loop, step, run,
}
use azure_iot_dev.Pipeline.ConnectionState.Timer.{is_up}

abbrev is_reconnect : Output → ℕ
is_reconnect sent_reconnect = 1
is_reconnect _ = 0

-- How many reconnect operations the stage has sent down.
abbrev pub reconnects_sent : List Output → ℕ
reconnects_sent [] = 0
reconnects_sent (o ∷ rest) = is_reconnect o + reconnects_sent rest

reconnects_sent-append :
    (xs ys : List Output) → reconnects_sent (xs ++ ys) ≡ reconnects_sent xs + reconnects_sent ys
reconnects_sent-append [] ys = omega arith
reconnects_sent-append (x ∷ xs) ys = omega (arith, reconnects_sent-append xs ys)

snoc :
    (xs : List Output) (o : Output)
    → reconnects_sent (xs ++ o ∷ []) ≡ reconnects_sent xs + is_reconnect o
snoc xs o = omega (arith, reconnects_sent-append xs (o ∷ []))

-- Not connected, with no reconnection under way, and so many of them sent so far.
record IsQuiet (n : ℕ) (s : Stage) : Type 0 where
  no_timer : s.reconnect_timer ≡ none
  not_counting : s.counting ≡ false
  none_loose : s.loose_timers ≡ 0
  none_expired : s.expired ≡ 0
  no_reconnect : s.reconnects ≡ 0
  down : is_up s.state ≡ false
  sent : reconnects_sent s.outputs ≡ n

abbrev pub is_connected_event : Stimulus → Bool
is_connected_event (event connected_event) = true
is_connected_event _ = false

module _ (n : ℕ) where
  run_op-IsQuiet : (op : Op) (s : Stage) → IsQuiet n s → IsQuiet n (run_op op s)
  unfolding run_op
  run_op-IsQuiet op s h = ground (arith, snoc s.outputs (sent_down op))

  event-IsQuiet :
      (e : Event) (s : Stage)
      → is_connected_event (event e) ≡ false
      → IsQuiet n s
      → IsQuiet n (handle_pipeline_event e s)
  unfolding handle_pipeline_event
  event-IsQuiet e s other h = ground (arith, snoc s.outputs (sent_up e))

  complete-IsQuiet :
      (id : ℕ) (error : Option Error) (s : Stage) → IsQuiet n s → IsQuiet n (complete_op id error s)
  unfolding complete_op
  complete-IsQuiet id error s h = ground arith

  reconnect-IsQuiet :
      (error : Option Error) (s : Stage) → IsQuiet n s → IsQuiet n (complete_reconnect error s)
  unfolding complete_reconnect
  reconnect-IsQuiet error s h = ground arith

  time-IsQuiet : (s : Stage) → IsQuiet n s → IsQuiet n (timer_expires s)
  unfolding timer_expires
  time-IsQuiet s h = ground arith

  loose-IsQuiet : (s : Stage) → IsQuiet n s → IsQuiet n (loose_timer_expires s)
  unfolding loose_timer_expires
  loose-IsQuiet s h = ground arith

  call-IsQuiet : (s : Stage) → IsQuiet n s → IsQuiet n (on_reconnect_timer_expired s)
  unfolding on_reconnect_timer_expired
  call-IsQuiet s h = ground arith

  cancel_round-IsQuiet :
      (queue : List Op) (op : Op) (outer : List Loop) (s : Stage)
      → IsQuiet n s
      → IsQuiet n (cancel_round queue op outer s)
  unfolding cancel_round
  cancel_round-IsQuiet [] op outer s h = ground (arith, snoc s.outputs (sent_down op))
  cancel_round-IsQuiet (w ∷ rest) op outer s h = ground (
    arith,
    snoc s.outputs (completed op operation_error),
    snoc s.outputs (completed w operation_cancelled),
  )

  resume-IsQuiet : (loops : List Loop) (s : Stage) → IsQuiet n s → IsQuiet n (resume loops s)
  unfolding resume
  resume-IsQuiet [] s h = h
  resume-IsQuiet (run_waiting [] ∷ outer) s h = ground arith
  resume-IsQuiet (run_waiting (op ∷ rest) ∷ outer) s h =
      let going = record s { loops = run_waiting rest ∷ outer } in
      ground (arith, run_op-IsQuiet op going (ground arith))
  resume-IsQuiet (cancel_waiting op ∷ outer) s h = cancel_round-IsQuiet s.waiting_ops op outer s h

  step-IsQuiet :
      (e : Stimulus) (s : Stage) → is_connected_event e ≡ false → IsQuiet n s → IsQuiet n (step e s)
  unfolding step
  step-IsQuiet (arrive op) s other h = run_op-IsQuiet op s h
  step-IsQuiet (event e) s other h = event-IsQuiet e s other h
  step-IsQuiet (finish id error) s other h = complete-IsQuiet id error s h
  step-IsQuiet (finish_reconnect error) s other h = reconnect-IsQuiet error s h
  step-IsQuiet timer_time s other h = time-IsQuiet s h
  step-IsQuiet loose_timer_time s other h = loose-IsQuiet s h
  step-IsQuiet timer_call s other h = call-IsQuiet s h
  step-IsQuiet return_to_loop s other h = resume-IsQuiet s.loops s h

  run-IsQuiet :
      (es : List Stimulus) (s : Stage)
      → All (λ e. is_connected_event e ≡ false) es
      → IsQuiet n s
      → IsQuiet n (run es s)
  unfolding run
  run-IsQuiet [] s others h = h
  run-IsQuiet (e ∷ es) s others h = run-IsQuiet es _ others.1 (step-IsQuiet e s others.0 h)

disconnect-IsQuiet :
    (op : Op) (s : Stage)
    → op.kind ≡ disconnect
    → in_intermediate_states s.state ≡ false
    → s.reconnects ≡ 0
    → s.loose_timers ≡ 0
    → s.expired ≡ 0
    → IsQuiet (reconnects_sent s.outputs) (run_op op s)
unfolding run_op
disconnect-IsQuiet op s kind settled idle no_loose no_expired =
    ground (arith, snoc s.outputs (sent_down op))

-- A disconnect that does not have to wait ends reconnection, if no reconnection is under way, no
-- call of an expired timer is still to be taken up, and no timer counts that the stage has lost
-- sight of: until a `ConnectedEvent` comes, whatever else happens, the stage sends no reconnect
-- operation and has no reconnect timer.
pub disconnect_ends_reconnection :
    (op : Op) (es : List Stimulus) (s : Stage)
    → op.kind ≡ disconnect
    → in_intermediate_states s.state ≡ false
    → s.reconnects ≡ 0
    → s.loose_timers ≡ 0
    → s.expired ≡ 0
    → All (λ e. is_connected_event e ≡ false) es
    → (reconnects_sent (run (arrive op ∷ es) s).outputs ≡ reconnects_sent s.outputs)
      × ((run (arrive op ∷ es) s).reconnect_timer ≡ none)
unfolding run step
disconnect_ends_reconnection op es s kind settled idle no_loose no_expired others =
    let started = disconnect-IsQuiet op s kind settled idle no_loose no_expired in
    let h = run-IsQuiet _ es (run_op op s) others started in (h.sent, h.no_timer)

disconnect_passes :
    (op : Op) (s : Stage)
    → op.kind ≡ disconnect
    → s.state ≡ disconnected
    → let after = complete_op op.id none (run_op op s) in
      (after.state ≡ disconnected)
      × (after.expired ≡ s.expired)
      × (reconnects_sent after.outputs ≡ reconnects_sent s.outputs)
unfolding run_op complete_op
disconnect_passes op s kind down = ground (arith, snoc s.outputs (sent_down op))

call-reconnects :
    (s : Stage)
    → s.state ≡ disconnected
    → 0 < s.expired
    → let after = on_reconnect_timer_expired s in
      (after.state ≡ connecting) × (reconnects_sent after.outputs ≡ reconnects_sent s.outputs + 1)
unfolding on_reconnect_timer_expired
call-reconnects s down waits = ground (arith, snoc s.outputs sent_reconnect)

-- If a timer of a DISCONNECTED stage has expired and the thread has not taken up its call when a
-- disconnect comes, then, after the disconnect has completed, the call makes the stage CONNECTING
-- and sends a reconnect operation.
pub expired_timer_outlives_disconnect :
    (op : Op) (s : Stage)
    → op.kind ≡ disconnect
    → s.state ≡ disconnected
    → 0 < s.expired
    → let after = run (arrive op ∷ finish op.id none ∷ timer_call ∷ []) s in
      (after.state ≡ connecting) × (reconnects_sent after.outputs ≡ reconnects_sent s.outputs + 1)
unfolding run step
expired_timer_outlives_disconnect op s kind down waits =
    let (still, same, sent) = disconnect_passes op s kind down in
    let called = call-reconnects (complete_op op.id none (run_op op s)) still (rw same waits) in
    (called.0, called.1 ∙ ap (λ n. n + 1) sent)
