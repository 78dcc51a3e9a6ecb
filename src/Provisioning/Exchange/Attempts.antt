-- ===== src/Provisioning/Exchange/Attempts.antt =====
-- A provisioning operation has at most one attempt under way: its timers, and the runs.
use azure_iot_dev.Prelude.{◌+◌, ◌≤◌, ◌≡◌, refl, false, some, List, [], ◌∷◌, arith}
use azure_iot_dev.Provisioning.Exchange.{
  Json, Purpose, register, query, timed_out, Timer, unset, fired, running, Call, timeout,
  do_retry_after, do_polling, sent_request, sent_poll, completed, already_completed, Operation,
  new_operation, complete, run_op,
}
use azure_iot_dev.Provisioning.Exchange.Steps.{
  retry, poll_again, poll, call, run_posted, expire, Stimulus, answer, timer, pipeline_thread,
  poll_done, step, run, exchange,
}
use azure_iot_dev.Provisioning.Exchange.Single.{
  active, attempts, crashes, flag, IsSingle, IsBetween, crashes-snoc, retries-snoc, pollings-snoc,
  outstanding-IsSingle, poll_done-IsSingle,
}

run_op-IsSingle : (op : Operation) → IsBetween op → IsSingle (run_op op)
unfolding run_op
run_op-IsSingle op h = ground (arith, crashes-snoc op.outputs (sent_request op.operation_id))

retry_call-IsSingle :
    (t : Timer) (rest : List Call) (op : Operation)
    → op.retry_after_timer ≡ t
    → op.posted ≡ do_retry_after ∷ rest
    → IsSingle op
    → IsSingle (retry t (record op { posted = rest }))
retry_call-IsSingle unset rest op e p h = absurd (ground (arith, e, p, h.retries))
retry_call-IsSingle (running n) rest op e p h = absurd (ground (arith, e, p, h.retries))
retry_call-IsSingle fired rest op e p h =
    run_op-IsSingle (record op { posted = rest; retry_after_timer = unset; is_completed = false })
      (record {
        between_none = ground (arith, e, h.single);
        between_retries = ground (arith, e, p, h.retries);
        between_pollings = ground (arith, e, p, h.single, h.pollings);
      })

poll_again-IsSingle :
    (purpose : Purpose) (op : Operation) → IsBetween op → IsSingle (poll_again purpose op)
poll_again-IsSingle query op h = run_op-IsSingle (record op { is_completed = false }) (ground arith)
poll_again-IsSingle register op h =
    ground (arith, crashes-snoc op.outputs (sent_poll op.poll_operation_id))

poll_call-IsSingle :
    (t : Timer) (rest : List Call) (op : Operation)
    → op.polling_timer ≡ t
    → op.posted ≡ do_polling ∷ rest
    → IsSingle op
    → IsSingle (poll t (record op { posted = rest }))
poll_call-IsSingle unset rest op e p h = absurd (ground (arith, e, p, h.pollings))
poll_call-IsSingle (running n) rest op e p h = absurd (ground (arith, e, p, h.pollings))
poll_call-IsSingle fired rest op e p h =
    poll_again-IsSingle op.purpose (record op { posted = rest; polling_timer = unset })
      (record {
        between_none = ground (arith, e, h.single);
        between_retries = ground (arith, e, p, h.single, h.retries);
        between_pollings = ground (arith, e, p, h.pollings);
      })

timeout_call-IsSingle :
    (rest : List Call) (op : Operation)
    → op.posted ≡ timeout ∷ rest
    → IsSingle op
    → IsSingle (complete (some timed_out) (record op { posted = rest }))
unfolding complete
timeout_call-IsSingle rest op p h = ground (
  arith,
  p,
  crashes-snoc op.outputs (already_completed (some timed_out)),
  crashes-snoc op.outputs (completed (some timed_out) op.registration_result),
)

posted-IsSingle :
    (calls : List Call) (op : Operation)
    → op.posted ≡ calls
    → IsSingle op
    → IsSingle (run_posted calls op)
unfolding run_posted call
posted-IsSingle [] op p h = h
posted-IsSingle (timeout ∷ rest) op p h = timeout_call-IsSingle rest op p h
posted-IsSingle (do_retry_after ∷ rest) op p h =
    retry_call-IsSingle op.retry_after_timer rest op refl p h
posted-IsSingle (do_polling ∷ rest) op p h = poll_call-IsSingle op.polling_timer rest op refl p h

expire-IsSingle : (c : Call) (op : Operation) → IsSingle op → IsSingle (expire c op)
unfolding expire
expire-IsSingle c op h = ground (arith, retries-snoc op.posted c, pollings-snoc op.posted c)

step-IsSingle : (e : Stimulus) (op : Operation) → IsSingle op → IsSingle (step e op)
unfolding step
step-IsSingle (answer a) op h = outstanding-IsSingle op.outstanding a op refl h
step-IsSingle (timer c) op h = expire-IsSingle c op h
step-IsSingle pipeline_thread op h = posted-IsSingle op.posted op refl h
step-IsSingle (poll_done error result) op h = poll_done-IsSingle op.polls error result op refl h

run-IsSingle : (es : List Stimulus) (op : Operation) → IsSingle op → IsSingle (run es op)
unfolding run
run-IsSingle [] op h = h
run-IsSingle (e ∷ es) op h = run-IsSingle es (step e op) (step-IsSingle e op h)

-- Whatever the service answers and whenever the timers fire, an operation has at most one request,
-- query or timer of a further attempt under way at a time, a time-out timer is set while a request
-- is not answered, and while none is under way, the operation is completed, unless an answer could
-- not be decoded.
pub one_attempt_at_a_time :
    (purpose : Purpose) (operation_id : Json) (es : List Stimulus)
    → let op : Operation = exchange purpose operation_id es in
      (attempts op ≤ 1)
      × (op.outstanding ≤ active op.provisioning_timeout_timer)
      × (1 ≤ attempts op + crashes op.outputs + flag op.is_completed)
unfolding exchange new_operation
one_attempt_at_a_time purpose operation_id es =
    let fresh : IsSingle (run_op (new_operation purpose operation_id)) =
      run_op-IsSingle (new_operation purpose operation_id) (ground arith) in
    let h = run-IsSingle es (run_op (new_operation purpose operation_id)) fresh in
    (h.single, h.timed, h.alive)
