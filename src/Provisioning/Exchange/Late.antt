-- ===== src/Provisioning/Exchange/Late.antt =====
-- A response that comes after the time-out.
use azure_iot_dev.Prelude.{ℕ, ◌≡◌, true, false, none, some, List, [], ◌∷◌, arith, leb}
use azure_iot_dev.Provisioning.Exchange.{
  Json, Purpose, Response, timeout, do_retry_after, sent_request, completed, timed_out, Operation,
  new_operation, complete, run_op, clear_timeout_timer, interval_of,
}
use azure_iot_dev.Provisioning.Exchange.Steps.{
  response, on_response, call, run_posted, expire, Stimulus, answer, timer, pipeline_thread, step,
  run, exchange,
}

-- The time-out fires and runs; then the response comes, and the timer that it starts fires.
abbrev pub late : Response → List Stimulus
late r =
    timer timeout
    ∷ pipeline_thread
    ∷ answer (response r)
    ∷ timer do_retry_after
    ∷ pipeline_thread
    ∷ []

-- A response that asks to retry, with a status code of 429 or more and a valid or no `retry_after`,
-- and that comes after the time-out has completed the operation, makes it run again when its timer
-- fires: the operation is no longer completed, and a further request is sent.
pub late_response_revives :
    (purpose : Purpose) (id : Json) (r : Response) (interval : ℕ)
    → leb 429 r.status_code ≡ true
    → interval_of r.retry_after ≡ some interval
    → let op : Operation = exchange purpose id (late r) in
      (op.outputs ≡ sent_request id ∷ completed (some timed_out) none ∷ sent_request id ∷ [])
      × (op.is_completed ≡ false)
unfolding exchange run step run_op new_operation on_response clear_timeout_timer expire run_posted
    call complete
late_response_revives purpose id r interval busy valid = ground (arith, busy, valid)
