-- ===== src/Provisioning/Exchange/Steps.antt =====
-- What the answers of the service, the timers and the pipeline thread do to a provisioning
-- operation in the two stages, and its runs.
use azure_iot_dev.Prelude.{
  ℕ, zero, suc, Bool, false, ◌&&◌, ◌||◌, Option, none, some, List, [], ◌∷◌, ◌++◌, ltb, leb,
  if◌then◌else◌,
}
use azure_iot_dev.Errors.{Error}
use azure_iot_dev.Text.{codes}
use azure_iot_dev.Provisioning.Exchange.{
  Json, object, Members, is_text, get, Purpose, register, query, RegistrationResult, Failure,
  request_failed, timed_out, error_status, registration_failed, invalid_status, RetryAfter,
  Response, Timer, unset, fired, running, Call, timeout, do_retry_after, do_polling, sent_poll,
  crashed, Operation, new_operation, emit, default_polling_interval, complete, run_op,
  clear_timeout_timer, interval_of, form_complete_result,
}

abbrev pub start_retry : Option ℕ → Operation → Operation
start_retry none op = emit crashed op
start_retry (some interval) op = record op { retry_after_timer = running interval }

abbrev pub start_polling : Option ℕ → Operation → Operation
start_polling none op = emit crashed op
start_polling (some interval) op = record op { polling_timer = running interval }

abbrev pub error_of_status : Json → ℕ → Option Failure
error_of_status status code =
    if is_text (codes "failed") status then some (registration_failed code) else none

-- `_process_failed_and_assigned_registration_status`
abbrev pub finish : Option RegistrationResult → Option Failure → Operation → Operation
finish none error op = emit crashed op
finish (some result) error op = complete error (record op { registration_result = some result })

abbrev pub is_final : Json → Bool
is_final status = is_text (codes "assigned") status || is_text (codes "failed") status

-- The status `assigning`: a query asks again after the service's interval, a registration starts a
-- query after the default one.
abbrev pub wait_for_assignment : Purpose → Json → RetryAfter → Operation → Operation
wait_for_assignment query operation_id after op = start_polling (interval_of after) op
wait_for_assignment register operation_id after op =
    start_polling (some default_polling_interval) (record op { poll_operation_id = operation_id })

-- The branches of a response that is no error and no request to retry, by its status.
abbrev pub on_status : Json → Json → Members → Response → Operation → Operation
on_status operation_id status decoded r op =
    if is_text (codes "assigning") status
    then wait_for_assignment op.purpose operation_id r.retry_after op
    else if is_final status
    then finish (form_complete_result operation_id status (get (codes "registrationState") decoded))
        (error_of_status status r.status_code) op
    else complete (some (invalid_status status r.status_code)) op

abbrev pub on_body : Option Json → Response → Operation → Operation
on_body (some (object decoded)) r op =
    on_status (get (codes "operationId") decoded) (get (codes "status") decoded) decoded r op
on_body _ r op = emit crashed op

abbrev pub on_success : Response → Operation → Operation
on_success r op =
    if leb 300 r.status_code && ltb r.status_code 429
    then complete (some (error_status r.status_code)) op
    else if leb 429 r.status_code
    then start_retry (interval_of r.retry_after) op
    else on_body r.response_body r op

pub data Answer : Type 0 where
  error_answer : Error → Answer
  response : Response → Answer

abbrev pub on_answer : Answer → Operation → Operation
on_answer (error_answer e) op = complete (some (request_failed e)) op
on_answer (response r) op = on_success r op

-- `on_query_response` and `on_registration_response`
unfoldable pub on_response : Answer → Operation → Operation
unfolding complete clear_timeout_timer interval_of form_complete_result get
on_response answer op = on_answer answer (clear_timeout_timer op)

abbrev pub answer_outstanding : ℕ → Answer → Operation → Operation
answer_outstanding zero answer op = op
answer_outstanding (suc n) answer op = on_response answer (record op { outstanding = n })

-- `do_retry_after`: its timer is cancelled, which fails for `None`, and the operation runs again.
abbrev pub retry : Timer → Operation → Operation
retry unset op = emit crashed op
retry _ op = run_op (record op { retry_after_timer = unset; is_completed = false })

-- `do_polling`, and `do_query_after_interval` of a registration, which sends a
-- `PollStatusOperation` down.
abbrev pub poll_again : Purpose → Operation → Operation
poll_again query op = run_op (record op { is_completed = false })
poll_again register op = emit (sent_poll op.poll_operation_id) (record op { polls = suc op.polls })

abbrev pub poll : Timer → Operation → Operation
poll unset op = emit crashed op
poll _ op = poll_again op.purpose (record op { polling_timer = unset })

unfoldable pub call : Call → Operation → Operation
unfolding complete run_op
call timeout op = complete (some timed_out) op
call do_retry_after op = retry op.retry_after_timer op
call do_polling op = poll op.polling_timer op

unfoldable pub run_posted : List Call → Operation → Operation
unfolding call
run_posted [] op = op
run_posted (c ∷ rest) op = call c (record op { posted = rest })

abbrev pub post : Call → Operation → Operation
post c op = record op { posted = op.posted ++ c ∷ [] }

-- A timer that runs fires.
unfoldable pub expire : Call → Operation → Operation
expire timeout op = elim op.provisioning_timeout_timer [
  | running n ↦ post timeout (record op { provisioning_timeout_timer = fired })
  | unset ↦ op
  | fired ↦ op
]
expire do_retry_after op = elim op.retry_after_timer [
  | running n ↦ post do_retry_after (record op { retry_after_timer = fired })
  | unset ↦ op
  | fired ↦ op
]
expire do_polling op = elim op.polling_timer [
  | running n ↦ post do_polling (record op { polling_timer = fired })
  | unset ↦ op
  | fired ↦ op
]

-- `copy_result_to_original_op`, and then the completion of the operation that the query was spawned
-- from.
unfoldable pub poll_completes :
    ℕ → Option Failure → Option RegistrationResult → Operation → Operation
unfolding complete
poll_completes zero error result op = op
poll_completes (suc n) error result op =
    complete error (record op { polls = n; registration_result = result })

pub data Stimulus : Type 0 where
  answer : Answer → Stimulus
  timer : Call → Stimulus
  pipeline_thread : Stimulus
  poll_done : Option Failure → Option RegistrationResult → Stimulus

unfoldable pub step : Stimulus → Operation → Operation
unfolding on_response expire run_posted poll_completes
step (answer a) op = answer_outstanding op.outstanding a op
step (timer c) op = expire c op
step pipeline_thread op = run_posted op.posted op
step (poll_done error result) op = poll_completes op.polls error result op

unfoldable pub run : List Stimulus → Operation → Operation
unfolding step
run [] op = op
run (e ∷ rest) op = run rest (step e op)

-- The runs of an operation that arrives.
unfoldable pub exchange : Purpose → Json → List Stimulus → Operation
unfolding run_op new_operation
exchange purpose operation_id es = run es (run_op (new_operation purpose operation_id))
