-- ===== src/Pipeline/MqttTransport/Watchdog.antt =====
-- A connect that is pending is guarded by its watchdog.
use azure_iot_dev.Prelude.{
  ℕ, ◌≡◌, ==_iff, refl, subst, Bool, true, false, not, ◌||◌, Option, none, some, List, [], ◌∷◌,
  ◌==◌, arith, if◌then◌else◌, is_some, if_ind,
}
use azure_iot_dev.Errors.{Error, operation_timeout}
use azure_iot_dev.Pipeline.Ops.{Op}
use azure_iot_dev.Pipeline.MqttTransport.{
  ConnectionOp, is_connect_op, Rest, start_op, called_disconnect, rest_of_connected,
  rest_of_watchdog, rest_of_disconnected, Raises, Stage, emit, initial, has, cancel_watchdog,
  run_op,
}
use azure_iot_dev.Pipeline.MqttTransport.Handlers.{
  cause_or_dropped, finish_connected, on_connection_failure, finish_disconnected, bark, is_pending,
  watchdog_expires, post, acknowledge, take, run_queued, resume, Stimulus, arrive, mqtt_connected,
  mqtt_connection_failure, mqtt_disconnected, mqtt_message, watchdog, acknowledged, pipeline_thread,
  return_to_call, set_connected, step, run,
}
use azure_iot_dev.Pipeline.MqttTransport.Guards.{
  no_start, barks, Guards, IsWatched, replaces_pending, complete-IsWatched, cancelled-still,
  cancel-IsWatched, run_kind-IsWatched,
}

abbrev pub is_admitted : Stimulus → Stage → Bool
is_admitted (arrive r op) s =
    not (replaces_pending op.kind) || not (is_some s.pending_connection_op)
is_admitted _ s = true

abbrev pub AllAdmitted : List Stimulus → Stage → Type 0
AllAdmitted [] s = Unit
AllAdmitted (e ∷ es) s = (is_admitted e s ≡ true) × AllAdmitted es (step e s)

connected-IsWatched :
    (found : Option (ℕ × ConnectionOp)) (s : Stage)
    → s.pending_connection_op ≡ found
    → IsWatched s
    → IsWatched (finish_connected found s)
unfolding finish_connected
connected-IsWatched none s e h = h
connected-IsWatched (some (n, c)) s e h =
    ground (arith, cancelled-still n c s.watchdogs (barks s.suspended))

failure-IsWatched :
    (cause : Error) (found : Option (ℕ × ConnectionOp)) (s : Stage)
    → s.pending_connection_op ≡ found
    → IsWatched s
    → IsWatched (on_connection_failure cause found s)
unfolding on_connection_failure
failure-IsWatched cause none s e h = h
failure-IsWatched cause (some (n, c)) s e h =
    ground (arith, cancelled-still n c s.watchdogs (barks s.suspended))

disconnected-IsWatched :
    (r : Raises) (cause : Option Error) (found : Option (ℕ × ConnectionOp)) (s : Stage)
    → s.pending_connection_op ≡ found
    → IsWatched s
    → IsWatched (finish_disconnected r cause found s)
unfolding finish_disconnected
disconnected-IsWatched r cause none s e h = ground arith
disconnected-IsWatched r cause (some (n, c)) s e h =
    if_ind IsWatched (is_connect_op c)
      (λ holds.
        complete-IsWatched r c (some (cause_or_dropped cause))
          (record (cancel_watchdog n s) { pending_connection_op = none })
          (record {
            clean = h.clean;
            empty = refl;
            still =
                cancelled-still n c s.watchdogs (barks s.suspended)
                  (subst (λ f. Guards f s.watchdogs (barks s.suspended)) e h.guarded);
          }))
      (λ fails.
        complete-IsWatched r c none (record s { pending_connection_op = none })
          (record { clean = h.clean; empty = refl; still = ground (arith, fails, e, h.guarded) }))

bark-IsWatched :
    (n : ℕ) (c : ConnectionOp) (r : Raises) (s : Stage)
    → s.pending_connection_op ≡ some (n, c)
    → no_start s.suspended ≡ true
    → is_connect_op c ≡ true
    → s.watchdogs ≡ []
    → IsWatched (bark r s)
unfolding bark
bark-IsWatched n c r s e clean kind still =
    if_ind IsWatched s.connected (λ up. ground (arith, e, clean, kind, still))
      (λ down.
        cancel-IsWatched r operation_timeout s.pending_connection_op
          (emit (called_disconnect false) s) refl clean true (ground (arith, e, kind, still)))

-- The watchdog that has expired is taken off those that run.
expired-IsWatched :
    (n : ℕ) (r : Raises) (found : Option (ℕ × ConnectionOp)) (s : Stage)
    → s.pending_connection_op ≡ found
    → has n s.watchdogs ≡ true
    → IsWatched s
    → IsWatched (if is_pending n found then bark r (cancel_watchdog n s) else cancel_watchdog n s)
expired-IsWatched n r none s e runs h = absurd (ground (arith, h.guarded))
expired-IsWatched n r (some (m, c)) s e runs h =
    if_ind IsWatched (m == n)
      (λ same.
        bark-IsWatched m c r (cancel_watchdog n s) e h.clean (ground (arith, e, h.guarded, runs))
          (ground (arith, e, h.guarded, runs, ==_iff n n, ==_iff m n)))
      (λ other. absurd (ground (arith, e, h.guarded, runs, other)))

watchdog-IsWatched :
    (n : ℕ) (r : Raises) (s : Stage) → IsWatched s → IsWatched (watchdog_expires n r s)
unfolding watchdog_expires
watchdog-IsWatched n r s h =
    if_ind IsWatched (has n s.watchdogs)
      (λ runs. expired-IsWatched n r s.pending_connection_op s refl runs h) (λ gone. h)

queued-IsWatched :
    (calls : List (Op × Bool)) (s : Stage) → IsWatched s → IsWatched (run_queued calls s)
unfolding run_queued
queued-IsWatched [] s h = h
queued-IsWatched ((op, cancelled) ∷ rest) s h = ground arith

post-IsWatched :
    (id : ℕ) (found : Option Op) (s : Stage) → IsWatched s → IsWatched (post id found s)
post-IsWatched id none s h = h
post-IsWatched id (some op) s h = ground arith

resume-IsWatched :
    (r : Raises) (rests : List Rest) (s : Stage)
    → s.suspended ≡ rests
    → IsWatched s
    → IsWatched (resume r rests s)
unfolding resume
resume-IsWatched r [] s e h = h
resume-IsWatched r (start_op c ∷ outer) s e h = absurd (ground (arith, e, h.clean))
resume-IsWatched r (rest_of_connected ∷ outer) s e h =
    connected-IsWatched s.pending_connection_op (record s { suspended = outer }) refl
      (ground (arith, e, h.clean, h.guarded))
resume-IsWatched r (rest_of_watchdog ∷ outer) s e h =
    cancel-IsWatched r operation_timeout s.pending_connection_op (record s { suspended = outer })
      refl (ground (arith, e, h.clean)) (barks s.suspended) h.guarded
resume-IsWatched r (rest_of_disconnected cause ∷ outer) s e h =
    disconnected-IsWatched r cause s.pending_connection_op (record s { suspended = outer }) refl
      (ground (arith, e, h.clean, h.guarded))

pub step-IsWatched :
    (e : Stimulus) (s : Stage) → is_admitted e s ≡ true → IsWatched s → IsWatched (step e s)
unfolding step run_op acknowledge
step-IsWatched (arrive r op) s fine h = run_kind-IsWatched op.kind r op s fine h
step-IsWatched mqtt_connected s fine h = ground arith
step-IsWatched (mqtt_connection_failure cause) s fine h =
    failure-IsWatched cause s.pending_connection_op s refl h
step-IsWatched (mqtt_disconnected cause) s fine h = ground arith
step-IsWatched (mqtt_message topic) s fine h = ground arith
step-IsWatched (watchdog n r) s fine h = watchdog-IsWatched n r s h
step-IsWatched (acknowledged id) s fine h = post-IsWatched id (take id s.in_flight) s h
step-IsWatched pipeline_thread s fine h = queued-IsWatched s.queued s h
step-IsWatched (return_to_call r) s fine h = resume-IsWatched r s.suspended s refl h
step-IsWatched (set_connected b) s fine h = ground arith

run-IsWatched :
    (es : List Stimulus) (s : Stage) → AllAdmitted es s → IsWatched s → IsWatched (run es s)
unfolding run
run-IsWatched [] s fine h = h
run-IsWatched (e ∷ es) s fine h = run-IsWatched es (step e s) fine.1 (step-IsWatched e s fine.0 h)

-- If no operation that replaces the pending one arrives while there is one, then whatever happens,
-- the watchdog of a connect that is pending, also of that of a reauthorization, runs, or has
-- expired and is about to cancel it; and no other watchdog runs.
pub connect_is_watched :
    (retry : Bool) (es : List Stimulus)
    → AllAdmitted es (initial retry)
    → let s = run es (initial retry) in
      Guards s.pending_connection_op s.watchdogs (barks s.suspended)
unfolding initial
connect_is_watched retry es fine = (run-IsWatched es (initial retry) fine (ground arith)).guarded
