-- ===== src/Provisioning/Exchange/Refinement.antt =====
-- The stages end a provisioning operation as the specification says.
use mathlib.Core.List.{append_assoc, append-nil}
use azure_iot_dev.Prelude.{
  ℕ, ◌≡◌, refl, sym, ap, ◌∙◌, false, ◌&&◌, Option, none, some, List, [], ◌∷◌, ◌++◌, arith, ltb, leb,
  ◌⊎◌, inl, inr, Bool-cases, Option-cases,
}
use azure_iot_dev.Text.{codes}
use azure_iot_dev.Provisioning.Exchange.{
  Json, null, text, boolean, number, array, object, Members, is_text, get, Purpose, register, query,
  RegistrationResult, Failure, error_status, invalid_status, Response, unset, do_retry_after,
  do_polling, sent_request, sent_poll, completed, crashed, Operation, new_operation, emit, complete,
  run_op, clear_timeout_timer, interval_of, form_complete_result,
}
use azure_iot_dev.Provisioning.Exchange.Steps.{
  start_retry, error_of_status, finish, is_final, wait_for_assignment, on_status, on_body,
  on_success, on_response, call, run_posted, expire, Stimulus, step, run, exchange,
}
use azure_iot_dev.Provisioning.Exchange.Outcome.{
  Verdict, ask_again, poll_with, ends, lost, if_number, with_result, assigning, by_status, by_body,
  verdict, after, outcome, round, prompt,
}

record IsIdle (op : Operation) : Type 0 where
  idle_outstanding : op.outstanding ≡ 0
  idle_retry : op.retry_after_timer ≡ unset
  idle_polling : op.polling_timer ≡ unset
  idle_posted : op.posted ≡ []

record IsWaiting (purpose : Purpose) (id : Json) (op : Operation) : Type 0 where
  waits : op.outstanding ≡ 1
  waits_purpose : op.purpose ≡ purpose
  waits_id : op.operation_id ≡ id
  waits_completed : op.is_completed ≡ false
  waits_result : op.registration_result ≡ none
  waits_retry : op.retry_after_timer ≡ unset
  waits_polling : op.polling_timer ≡ unset
  waits_posted : op.posted ≡ []

-- What a round has done to an operation that waited, by the verdict on the response.
abbrev Matches : Purpose → Json → Verdict → Operation → Operation → Type 0
Matches purpose id ask_again op t =
    IsWaiting purpose id t × (t.outputs ≡ op.outputs ++ sent_request id ∷ [])
Matches purpose id (poll_with poll_id) op t =
    IsIdle t × (t.outputs ≡ op.outputs ++ sent_poll poll_id ∷ [])
Matches purpose id (ends error result) op t =
    IsIdle t × (t.outputs ≡ op.outputs ++ completed error result ∷ [])
Matches purpose id lost op t = IsIdle t × (t.outputs ≡ op.outputs ++ crashed ∷ [])

unfoldable rest_of_round : Operation → Operation
unfolding expire run_posted call run_op
rest_of_round op =
    let fired_op = expire do_polling (expire do_retry_after op) in
    run_posted fired_op.posted fired_op

purpose_cases : (p : Purpose) → (p ≡ register) ⊎ (p ≡ query)
purpose_cases register = inl refl
purpose_cases query = inr refl

module _ (purpose : Purpose) (id : Json) (op : Operation) (h : IsWaiting purpose id op) where
  abbrev answered : Operation
  answered = record op { outstanding = 0; provisioning_timeout_timer = unset }

  lost-Matches : Matches purpose id lost op (rest_of_round (emit crashed answered))
  unfolding rest_of_round
  lost-Matches = ground (arith, h)

  complete-Matches :
      (error : Option Failure)
      → Matches purpose id (ends error none) op (rest_of_round (complete error answered))
  unfolding rest_of_round complete
  complete-Matches error = ground (arith, h)

  finish-Matches :
      (error : Option Failure) (result : Option RegistrationResult)
      → Matches purpose id
          (with_result error result)
          op
          (rest_of_round (finish result error answered))
  unfolding rest_of_round complete
  finish-Matches error none = lost-Matches
  finish-Matches error (some result) = ground (arith, h)

  retry-Matches :
      (interval : Option ℕ)
      → Matches purpose id
          (if_number interval ask_again)
          op
          (rest_of_round (start_retry interval answered))
  unfolding rest_of_round
  retry-Matches none = lost-Matches
  retry-Matches (some n) = ground (arith, h)

  assigning-Matches :
      (r : Response) (poll_id : Json)
      → Matches purpose id
          (assigning purpose r poll_id)
          op
          (rest_of_round (wait_for_assignment op.purpose poll_id r.retry_after answered))
  unfolding rest_of_round
  assigning-Matches r poll_id = elim (purpose_cases purpose) [
    | inl e ↦ ground (arith, h, e)
    | inr e ↦ elim (Option-cases (interval_of r.retry_after)) [
      | inl none_e ↦ ground (arith, h, e, none_e)
      | inr (n, some_e) ↦ ground (arith, h, e, some_e)
    ]
  ]

  status-Matches :
      (r : Response) (decoded : Members) (poll_id status : Json)
      → Matches purpose id
          (by_status purpose r decoded poll_id status)
          op
          (rest_of_round (on_status poll_id status decoded r answered))
  status-Matches r decoded poll_id status = elim (Bool-cases (is_text (codes "assigning") status)) [
    | inl waiting ↦ rw waiting (assigning-Matches r poll_id)
    | inr decided ↦ elim (Bool-cases (is_final status)) [
      | inl final ↦
          rw (decided, final)
            (finish-Matches (error_of_status status r.status_code)
              (form_complete_result poll_id status (get (codes "registrationState") decoded)))
      | inr unknown ↦
          rw (decided, unknown) (complete-Matches (some (invalid_status status r.status_code)))
    ]
  ]

  body-Matches :
      (r : Response) (body : Option Json)
      → Matches purpose id (by_body purpose r body) op (rest_of_round (on_body body r answered))
  body-Matches r none = lost-Matches
  body-Matches r (some (object decoded)) =
      status-Matches r decoded (get (codes "operationId") decoded) (get (codes "status") decoded)
  body-Matches r (some null) = lost-Matches
  body-Matches r (some (text t)) = lost-Matches
  body-Matches r (some (boolean b)) = lost-Matches
  body-Matches r (some (number n)) = lost-Matches
  body-Matches r (some (array items)) = lost-Matches

  success-Matches :
      (r : Response)
      → Matches purpose id (verdict purpose r) op (rest_of_round (on_success r answered))
  success-Matches r = elim (Bool-cases (leb 300 r.status_code && ltb r.status_code 429)) [
    | inl error ↦ rw error (complete-Matches (some (error_status r.status_code)))
    | inr fine ↦ elim (Bool-cases (leb 429 r.status_code)) [
      | inl busy ↦ rw (fine, busy) (retry-Matches (interval_of r.retry_after))
      | inr read ↦ rw (fine, read) (body-Matches r r.response_body)
    ]
  ]

  round-Matches :
      (r : Response) (rest : List Stimulus)
      → (t : Operation) × (run (round r rest) op ≡ run rest t)
        × Matches purpose id (verdict purpose r) op t
  unfolding run step rest_of_round on_response clear_timeout_timer
  round-Matches r rest = (rest_of_round (on_success r answered), rw h.waits refl, success-Matches r)

run-IsIdle :
    (rs : List Response) (op : Operation) → IsIdle op → (run (prompt rs) op).outputs ≡ op.outputs
unfolding run step expire run_posted
run-IsIdle [] op h = refl
run-IsIdle (r ∷ rs) op h = ground (arith, h, run-IsIdle rs op h)

-- What follows a round, if the rest is as specified for an operation that waits.
go_on :
    (purpose : Purpose) (id : Json) (rs : List Response) (v : Verdict) (op t : Operation)
    → ((w : Operation)
        → IsWaiting purpose id w
        → (run (prompt rs) w).outputs ≡ w.outputs ++ outcome purpose id rs)
    → Matches purpose id v op t
    → (run (prompt rs) t).outputs ≡ op.outputs ++ after id v (outcome purpose id rs)
go_on purpose id rs ask_again op t rest m =
    rest t m.0
    ∙ ap (λ os. os ++ outcome purpose id rs) m.1
    ∙ append_assoc op.outputs (sent_request id ∷ []) (outcome purpose id rs)
go_on purpose id rs (poll_with poll_id) op t rest m = run-IsIdle rs t m.0 ∙ m.1
go_on purpose id rs (ends error result) op t rest m = run-IsIdle rs t m.0 ∙ m.1
go_on purpose id rs lost op t rest m = run-IsIdle rs t m.0 ∙ m.1

run-IsWaiting :
    (purpose : Purpose) (id : Json) (rs : List Response) (op : Operation)
    → IsWaiting purpose id op
    → (run (prompt rs) op).outputs ≡ op.outputs ++ outcome purpose id rs
unfolding run outcome
run-IsWaiting purpose id [] op h = sym (append-nil op.outputs)
run-IsWaiting purpose id (r ∷ rs) op h =
    let m = round-Matches purpose id op h r (prompt rs) in
    ap (λ (t : Operation). t.outputs) m.1
    ∙ go_on purpose id rs (verdict purpose r) op m.0 (run-IsWaiting purpose id rs) m.2

-- If each response comes before the time-out and each timer fires in its turn, an operation sends
-- its request, another one for each response that asks for it, and ends as the first other response
-- says, whatever comes after: this is the specification's list.
pub exchange_refines :
    (purpose : Purpose) (id : Json) (rs : List Response)
    → (exchange purpose id (prompt rs)).outputs ≡ sent_request id ∷ outcome purpose id rs
unfolding exchange run_op new_operation
exchange_refines purpose id rs =
    run-IsWaiting purpose id rs (run_op (new_operation purpose id)) (ground arith)
