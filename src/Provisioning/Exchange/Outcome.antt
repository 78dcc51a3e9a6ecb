-- ===== src/Provisioning/Exchange/Outcome.antt =====
-- How a provisioning operation ends when each response comes before its time-out and each timer
-- fires in its turn: the specification.
use azure_iot_dev.Prelude.{ℕ, ◌&&◌, Option, none, some, List, [], ◌∷◌, ltb, leb, if◌then◌else◌}
use azure_iot_dev.Text.{codes}
use azure_iot_dev.Provisioning.Exchange.{
  Json, object, Members, is_text, get, Purpose, register, query, RegistrationResult, Failure,
  error_status, invalid_status, Response, do_retry_after, do_polling, Output, sent_request,
  sent_poll, completed, crashed, interval_of, form_complete_result,
}
use azure_iot_dev.Provisioning.Exchange.Steps.{
  error_of_status, is_final, response, Stimulus, answer, timer, pipeline_thread,
}

-- What a response means for its operation.
pub data Verdict : Type 0 where
  ask_again : Verdict
  poll_with : (operation_id : Json) → Verdict
  ends : Option Failure → Option RegistrationResult → Verdict
  lost : Verdict

abbrev pub if_number : Option ℕ → Verdict → Verdict
if_number none v = lost
if_number (some n) v = v

abbrev pub with_result : Option Failure → Option RegistrationResult → Verdict
with_result error none = lost
with_result error (some result) = ends error (some result)

abbrev pub assigning : Purpose → Response → Json → Verdict
assigning query r id = if_number (interval_of r.retry_after) ask_again
assigning register r id = poll_with id

abbrev pub by_status : Purpose → Response → Members → Json → Json → Verdict
by_status purpose r decoded id status =
    if is_text (codes "assigning") status
    then assigning purpose r id
    else if is_final status
    then with_result (error_of_status status r.status_code)
        (form_complete_result id status (get (codes "registrationState") decoded))
    else ends (some (invalid_status status r.status_code)) none

abbrev pub by_body : Purpose → Response → Option Json → Verdict
by_body purpose r (some (object decoded)) =
    by_status purpose r decoded (get (codes "operationId") decoded) (get (codes "status") decoded)
by_body purpose r _ = lost

abbrev pub verdict : Purpose → Response → Verdict
verdict purpose r =
    if leb 300 r.status_code && ltb r.status_code 429
    then ends (some (error_status r.status_code)) none
    else if leb 429 r.status_code
    then if_number (interval_of r.retry_after) ask_again
    else by_body purpose r r.response_body

abbrev pub after : Json → Verdict → List Output → List Output
after id ask_again later = sent_request id ∷ later
after id (poll_with poll_id) later = sent_poll poll_id ∷ []
after id (ends error result) later = completed error result ∷ []
after id lost later = crashed ∷ []

-- What is sent and completed after a request, by the responses in their order: one request for
-- each response that asks for a further one, until one of them ends the operation.
unfoldable pub outcome : Purpose → Json → List Response → List Output
outcome purpose id [] = []
outcome purpose id (r ∷ rest) =
    let later = outcome purpose id rest in after id (verdict purpose r) later

-- Each response in time, and each timer that it starts.
abbrev pub round : Response → List Stimulus → List Stimulus
round r rest =
    answer (response r) ∷ timer do_retry_after ∷ timer do_polling ∷ pipeline_thread ∷ rest

abbrev pub prompt : List Response → List Stimulus
prompt [] = []
prompt (r ∷ rest) = round r (prompt rest)
