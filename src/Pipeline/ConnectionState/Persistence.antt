-- ===== src/Pipeline/ConnectionState/Persistence.antt =====
-- A lost connection is tried again for as long as the failures are transient.
use mathlib.Core.List.{append_assoc, append-nil}
use mathlib.Core.Path.{ap₂}
use azure_iot_dev.Prelude.{
  suc, ℕ, ◌+◌, ◌≡◌, refl, ap, sym, ◌∙◌, true, false, none, some, List, [], ◌∷◌, ◌++◌, arith, All,
}
use azure_iot_dev.Errors.{Error}
use azure_iot_dev.Pipeline.Ops.{connected_event, disconnected_event}
use azure_iot_dev.Pipeline.ConnectionState.{
  connected, disconnected, connecting, in_transient_connect_errors, Delay, at_once, retry_interval,
  Output, sent_reconnect, sent_up, reported, Stage, handle_pipeline_event, timer_expires,
  on_reconnect_timer_expired, complete_reconnect, Stimulus, event, finish_reconnect, timer_time,
  timer_call, step, run,
}

-- The attempts that fail with these errors, one after another.
abbrev pub attempts : List Error → List Stimulus
attempts [] = []
attempts (error ∷ rest) = timer_time ∷ timer_call ∷ finish_reconnect (some error) ∷ attempts rest

abbrev pub attempted : List Error → List Output
attempted [] = []
attempted (error ∷ rest) = sent_reconnect ∷ reported error ∷ attempted rest

-- The delay of the timer after these failures.
abbrev pub later : Delay → List Error → Delay
later delay [] = delay
later delay (error ∷ rest) = retry_interval

later_again : (errors : List Error) → later retry_interval errors ≡ retry_interval
later_again [] = refl
later_again (error ∷ rest) = refl

-- An attempt that connects.
abbrev pub success : List Stimulus
success = timer_time ∷ timer_call ∷ event connected_event ∷ finish_reconnect none ∷ []

-- DISCONNECTED, with a timer set.
abbrev pub retrying : Delay → List Output → Stage → Stage
retrying delay outputs s = record s {
  state = disconnected;
  reconnect_timer = some delay;
  counting = true;
  outputs = outputs;
}

reconnect_fails :
    (error : Error) (n : ℕ) (s : Stage)
    → s.reconnects ≡ suc n
    → s.connection_retry ≡ true
    → s.waiting_ops ≡ []
    → in_transient_connect_errors error ≡ true
    → complete_reconnect (some error) s
      ≡ record (retrying retry_interval (s.outputs ++ reported error ∷ []) s) { reconnects = n }
unfolding complete_reconnect
reconnect_fails error n s under_way retry idle transient = ground arith

lose_connection :
    (s : Stage)
    → s.state ≡ connected
    → s.connection_retry ≡ true
    → step (event disconnected_event) s
      ≡ retrying at_once (s.outputs ++ sent_up disconnected_event ∷ []) s
unfolding step
lose_connection s up retry = ground arith

reconnect_succeeds :
    (n : ℕ) (s : Stage)
    → s.reconnects ≡ suc n
    → s.waiting_ops ≡ []
    → complete_reconnect none s ≡ record s { reconnects = n }
unfolding complete_reconnect
reconnect_succeeds n s under_way idle = ground arith

run-append : (xs ys : List Stimulus) (s : Stage) → run (xs ++ ys) s ≡ run ys (run xs s)
unfolding run
run-append [] ys s = refl
run-append (x ∷ xs) ys s = run-append xs ys (step x s)

-- The stage when an attempt is under way.
abbrev trying : List Output → Stage → Stage
trying outputs s = record s {
  state = connecting;
  reconnect_timer = none;
  counting = false;
  reconnects = s.reconnects + 1;
  outputs = outputs ++ sent_reconnect ∷ [];
}

timer_fires :
    (delay : Delay) (outputs : List Output) (s : Stage)
    → on_reconnect_timer_expired (timer_expires (retrying delay outputs s)) ≡ trying outputs s
unfolding on_reconnect_timer_expired timer_expires
timer_fires delay outputs s = ground arith

module _ (s : Stage) (retry : s.connection_retry ≡ true) (idle : s.waiting_ops ≡ []) where
  attempt :
      (delay : Delay) (error : Error) (outputs : List Output)
      → in_transient_connect_errors error ≡ true
      → run
          (timer_time ∷ timer_call ∷ finish_reconnect (some error) ∷ [])
          (retrying delay outputs s)
        ≡ retrying retry_interval (outputs ++ sent_reconnect ∷ reported error ∷ []) s
  unfolding run step
  attempt delay error outputs transient =
      ap (complete_reconnect (some error)) (timer_fires delay outputs s)
      ∙ reconnect_fails error s.reconnects (trying outputs s) (omega arith) retry idle transient
      ∙ ap (λ all. retrying retry_interval all s)
          (append_assoc outputs (sent_reconnect ∷ []) (reported error ∷ []))

  run-success :
      (delay : Delay) (outputs : List Output)
      → s.state ≡ connected
      → run success (retrying delay outputs s) ≡ record s {
        reconnect_timer = none;
        counting = false;
        outputs = outputs ++ sent_reconnect ∷ sent_up connected_event ∷ [];
      }
  unfolding run step
  run-success delay outputs up =
      ap (λ t. complete_reconnect none (handle_pipeline_event connected_event t))
        (timer_fires delay outputs s)
      ∙ reconnect_succeeds s.reconnects (handle_pipeline_event connected_event (trying outputs s))
          (omega arith) idle
      ∙ ap₂
          (λ now all. record s {
            state = now;
            reconnect_timer = none;
            counting = false;
            outputs = all;
          })
          (sym up) (append_assoc outputs (sent_reconnect ∷ []) (sent_up connected_event ∷ []))

  run-attempts :
      (delay : Delay) (errors : List Error) (outputs : List Output)
      → All (λ e. in_transient_connect_errors e ≡ true) errors
      → run (attempts errors) (retrying delay outputs s)
        ≡ retrying (later delay errors) (outputs ++ attempted errors) s
  unfolding run
  run-attempts delay [] outputs transient =
      ap (λ all. retrying delay all s) (sym (append-nil outputs))
  run-attempts delay (error ∷ rest) outputs transient =
      ap (run (attempts rest)) (attempt delay error outputs transient.0)
      ∙ run-attempts retry_interval rest _ transient.1
      ∙ ap₂ (λ d all. retrying d all s) (later_again rest)
          (append_assoc outputs (sent_reconnect ∷ reported error ∷ []) (attempted rest))

  -- When a CONNECTED stage with connection retry loses its connection, it reconnects: it sends a
  -- reconnect operation down each time its timer expires, reports each failure, and after any
  -- number of transient failures it is DISCONNECTED with a timer for the next attempt. The timer is
  -- set at once for the first attempt and after the configured interval for all others.
  pub reconnect_persists :
      (errors : List Error)
      → s.state ≡ connected
      → All (λ e. in_transient_connect_errors e ≡ true) errors
      → run (event disconnected_event ∷ attempts errors) s
        ≡ retrying
            (later at_once errors)
            ((s.outputs ++ sent_up disconnected_event ∷ []) ++ attempted errors)
            s
  unfolding run step
  reconnect_persists errors up transient =
      ap (run (attempts errors)) (lose_connection s up retry)
      ∙ run-attempts at_once errors (s.outputs ++ sent_up disconnected_event ∷ []) transient

  -- When a CONNECTED stage with connection retry loses its connection and any number of attempts to
  -- reconnect fail with transient errors, then the next attempt, if it connects, makes the stage
  -- CONNECTED again, with no timer and nothing left to do.
  pub reconnect_ends :
      (errors : List Error)
      → s.state ≡ connected
      → All (λ e. in_transient_connect_errors e ≡ true) errors
      → run (event disconnected_event ∷ attempts errors ++ success) s ≡ record s {
        reconnect_timer = none;
        counting = false;
        outputs =
            ((s.outputs ++ sent_up disconnected_event ∷ []) ++ attempted errors)
            ++ sent_reconnect ∷ sent_up connected_event ∷ [];
      }
  unfolding run step
  reconnect_ends errors up transient =
      run-append (event disconnected_event ∷ attempts errors) success s
      ∙ ap (run success) (reconnect_persists errors up transient)
      ∙ run-success (later at_once errors) _ up
