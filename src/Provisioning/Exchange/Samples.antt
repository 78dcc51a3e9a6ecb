-- ===== src/Provisioning/Exchange/Samples.antt =====
-- The exchange with the provisioning service at concrete inputs.
use azure_iot_dev.Prelude.{◌+◌, ◌≤◌, ◌≡◌, refl, false, none, some, List, [], ◌∷◌}
use azure_iot_dev.Text.{codes}
use azure_iot_dev.Provisioning.Exchange.{
  Json, null, text, object, no_members, member, get, register, query, timed_out, absent, seconds,
  Response, timeout, do_polling, sent_request, sent_poll, completed, Operation, new_operation,
  complete, run_op, clear_timeout_timer, interval_of, form_complete_result,
}
use azure_iot_dev.Provisioning.Exchange.Steps.{
  response, on_response, call, run_posted, expire, poll_completes, Stimulus, answer, timer,
  pipeline_thread, poll_done, step, run, exchange,
}
use azure_iot_dev.Provisioning.Exchange.Single.{active, attempts, crashes, flag}
use azure_iot_dev.Provisioning.Exchange.Attempts.{one_attempt_at_a_time}
use azure_iot_dev.Provisioning.Exchange.Outcome.{outcome, prompt}
use azure_iot_dev.Provisioning.Exchange.Refinement.{exchange_refines}
use azure_iot_dev.Provisioning.Exchange.Late.{late, late_response_revives}

abbrev op7 : Json
op7 = text (codes "op7")

abbrev body : Json → Json
body status = object (member (codes "operationId") op7 (member (codes "status") status no_members))

abbrev assigning : Response
assigning = record {
  status_code = 202;
  retry_after = seconds 3;
  response_body = some (body (text (codes "assigning")));
}

abbrev throttled : Response
throttled = record { status_code = 429; retry_after = absent; response_body = none }

abbrev assigned : Response
assigned = record {
  status_code = 200;
  retry_after = absent;
  response_body = some (body (text (codes "assigned")));
}

abbrev answers : List Response
answers = assigning ∷ throttled ∷ assigned ∷ assigning ∷ []

run-answers :
    (exchange query op7 (prompt answers)).outputs
    ≡ sent_request op7
      ∷ sent_request op7
      ∷ sent_request op7
      ∷ completed none (
          some (record {
            operation_id = op7;
            status = text (codes "assigned");
            registration_state = none;
          }))
      ∷ []
unfolding exchange run step run_op new_operation on_response clear_timeout_timer expire run_posted
    call complete interval_of form_complete_result get
run-answers = refl

exchange_refines_example :
    (exchange query op7 (prompt answers)).outputs ≡ sent_request op7 ∷ outcome query op7 answers
exchange_refines_example = exchange_refines query op7 answers

-- A registration that is to be assigned spawns a query, which times out.
abbrev registration : List Stimulus
registration =
    answer (response assigning)
    ∷ timer do_polling
    ∷ pipeline_thread
    ∷ poll_done (some timed_out) none
    ∷ timer timeout
    ∷ pipeline_thread
    ∷ []

run-registration :
    (exchange register null registration).outputs
    ≡ sent_request null ∷ sent_poll op7 ∷ completed (some timed_out) none ∷ []
unfolding exchange run step run_op new_operation on_response clear_timeout_timer expire run_posted
    call complete interval_of form_complete_result get poll_completes
run-registration = refl

one_attempt_at_a_time_example :
    let op : Operation = exchange register null registration in
    (attempts op ≤ 1)
    × (op.outstanding ≤ active op.provisioning_timeout_timer)
    × (1 ≤ attempts op + crashes op.outputs + flag op.is_completed)
one_attempt_at_a_time_example = one_attempt_at_a_time register null registration

late_response_revives_example :
    let op : Operation = exchange query op7 (late throttled) in
    (op.outputs ≡ sent_request op7 ∷ completed (some timed_out) none ∷ sent_request op7 ∷ [])
    × (op.is_completed ≡ false)
unfolding interval_of
late_response_revives_example = late_response_revives query op7 throttled 2 refl refl
