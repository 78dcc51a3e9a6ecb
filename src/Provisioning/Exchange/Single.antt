-- ===== src/Provisioning/Exchange/Single.antt =====
-- A provisioning operation has at most one attempt under way: the answers to it.
use azure_iot_dev.Prelude.{
  ℕ, zero, suc, ◌+◌, ◌≤◌, ◌≡◌, Bool, true, false, ◌&&◌, Option, none, some, List, [], ◌∷◌, ◌++◌,
  arith, ltb, leb, if_ind,
}
use azure_iot_dev.Text.{codes}
use azure_iot_dev.Provisioning.Exchange.{
  Json, null, text, boolean, number, array, object, Members, is_text, get, Purpose, register, query,
  RegistrationResult, Failure, RetryAfter, Response, Timer, unset, fired, Call, timeout,
  do_retry_after, do_polling, Output, crashed, Operation, emit, complete, clear_timeout_timer,
  interval_of, default_polling_interval,
}
use azure_iot_dev.Provisioning.Exchange.Steps.{
  start_retry, start_polling, finish, is_final, wait_for_assignment, on_status, on_body, Answer,
  error_answer, response, on_answer, on_response, answer_outstanding, poll_completes,
}

abbrev pub active : Timer → ℕ
active unset = 0
active _ = 1

abbrev pub expired : Timer → ℕ
expired fired = 1
expired _ = 0

abbrev pub retries_in : List Call → ℕ
retries_in [] = 0
retries_in (do_retry_after ∷ rest) = suc (retries_in rest)
retries_in (_ ∷ rest) = retries_in rest

abbrev pub pollings_in : List Call → ℕ
pollings_in [] = 0
pollings_in (do_polling ∷ rest) = suc (pollings_in rest)
pollings_in (_ ∷ rest) = pollings_in rest

-- The requests and queries under way and the timers that start another.
abbrev pub attempts : Operation → ℕ
attempts op = op.outstanding + op.polls + active op.retry_after_timer + active op.polling_timer

abbrev pub crashes : List Output → ℕ
crashes [] = 0
crashes (crashed ∷ rest) = suc (crashes rest)
crashes (_ ∷ rest) = crashes rest

abbrev pub flag : Bool → ℕ
flag true = 1
flag false = 0

pub record IsSingle (op : Operation) : Type 0 where
  pub single : attempts op ≤ 1
  pub timed : op.outstanding ≤ active op.provisioning_timeout_timer
  pub alive : 1 ≤ attempts op + crashes op.outputs + flag op.is_completed
  pub retries : retries_in op.posted ≡ expired op.retry_after_timer
  pub pollings : pollings_in op.posted ≡ expired op.polling_timer

-- The same when the attempt under way has just ended, and it is to be seen what follows.
pub record IsBetween (op : Operation) : Type 0 where
  pub between_none : attempts op ≡ 0
  pub between_retries : retries_in op.posted ≡ 0
  pub between_pollings : pollings_in op.posted ≡ 0

pub crashes-snoc :
    (os : List Output) (o : Output) → crashes (os ++ o ∷ []) ≡ crashes os + crashes (o ∷ [])
crashes-snoc [] o = omega arith
crashes-snoc (crashed ∷ os) o = omega (arith, crashes-snoc os o)
crashes-snoc (_ ∷ os) o = omega (arith, crashes-snoc os o)

pub retries-snoc :
    (cs : List Call) (c : Call) → retries_in (cs ++ c ∷ []) ≡ retries_in cs + retries_in (c ∷ [])
retries-snoc [] c = omega arith
retries-snoc (do_retry_after ∷ cs) c = omega (arith, retries-snoc cs c)
retries-snoc (timeout ∷ cs) c = retries-snoc cs c
retries-snoc (do_polling ∷ cs) c = retries-snoc cs c

pub pollings-snoc :
    (cs : List Call) (c : Call) → pollings_in (cs ++ c ∷ []) ≡ pollings_in cs + pollings_in (c ∷ [])
pollings-snoc [] c = omega arith
pollings-snoc (do_polling ∷ cs) c = omega (arith, pollings-snoc cs c)
pollings-snoc (timeout ∷ cs) c = pollings-snoc cs c
pollings-snoc (do_retry_after ∷ cs) c = pollings-snoc cs c

crash-IsSingle : (op : Operation) → IsBetween op → IsSingle (emit crashed op)
crash-IsSingle op h = ground (arith, crashes-snoc op.outputs crashed)

pub complete-IsSingle :
    (error : Option Failure) (op : Operation) → IsBetween op → IsSingle (complete error op)
unfolding complete
complete-IsSingle error op h = ground arith

retry-IsSingle :
    (after : Option ℕ) (op : Operation) → IsBetween op → IsSingle (start_retry after op)
retry-IsSingle none op h = crash-IsSingle op h
retry-IsSingle (some n) op h = ground arith

polling-IsSingle :
    (after : Option ℕ) (op : Operation) → IsBetween op → IsSingle (start_polling after op)
polling-IsSingle none op h = crash-IsSingle op h
polling-IsSingle (some n) op h = ground arith

wait-IsSingle :
    (purpose : Purpose) (id : Json) (after : RetryAfter) (op : Operation)
    → IsBetween op
    → IsSingle (wait_for_assignment purpose id after op)
wait-IsSingle query id after op h = polling-IsSingle (interval_of after) op h
wait-IsSingle register id after op h =
    polling-IsSingle (some default_polling_interval) (record op { poll_operation_id = id })
      (ground arith)

finish-IsSingle :
    (result : Option RegistrationResult) (error : Option Failure) (op : Operation)
    → IsBetween op
    → IsSingle (finish result error op)
finish-IsSingle none error op h = crash-IsSingle op h
finish-IsSingle (some result) error op h =
    complete-IsSingle error (record op { registration_result = some result }) (ground arith)

status-IsSingle :
    (id status : Json) (decoded : Members) (r : Response) (op : Operation)
    → IsBetween op
    → IsSingle (on_status id status decoded r op)
status-IsSingle id status decoded r op h =
    if_ind IsSingle (is_text (codes "assigning") status)
      (λ assigning. wait-IsSingle op.purpose id r.retry_after op h)
      (λ other.
        if_ind IsSingle (is_final status) (λ final. finish-IsSingle _ _ op h)
          (λ unknown. complete-IsSingle _ op h))

body-IsSingle :
    (body : Option Json) (r : Response) (op : Operation)
    → IsBetween op
    → IsSingle (on_body body r op)
body-IsSingle none r op h = crash-IsSingle op h
body-IsSingle (some (object decoded)) r op h =
    status-IsSingle (get (codes "operationId") decoded) (get (codes "status") decoded) decoded r op
      h
body-IsSingle (some null) r op h = crash-IsSingle op h
body-IsSingle (some (text t)) r op h = crash-IsSingle op h
body-IsSingle (some (boolean b)) r op h = crash-IsSingle op h
body-IsSingle (some (number n)) r op h = crash-IsSingle op h
body-IsSingle (some (array items)) r op h = crash-IsSingle op h

answer-IsSingle : (a : Answer) (op : Operation) → IsBetween op → IsSingle (on_answer a op)
answer-IsSingle (error_answer e) op h = complete-IsSingle _ op h
answer-IsSingle (response r) op h =
    if_ind IsSingle (leb 300 r.status_code && ltb r.status_code 429)
      (λ error. complete-IsSingle _ op h)
      (λ other.
        if_ind IsSingle (leb 429 r.status_code) (λ busy. retry-IsSingle _ op h)
          (λ success. body-IsSingle r.response_body r op h))

pub outstanding-IsSingle :
    (n : ℕ) (a : Answer) (op : Operation)
    → op.outstanding ≡ n
    → IsSingle op
    → IsSingle (answer_outstanding n a op)
unfolding on_response clear_timeout_timer
outstanding-IsSingle zero a op e h = h
outstanding-IsSingle (suc n) a op e h =
    answer-IsSingle a (clear_timeout_timer (record op { outstanding = n })) (record {
      between_none = ground (arith, e, h.single);
      between_retries = ground (arith, e, h.single, h.retries);
      between_pollings = ground (arith, e, h.single, h.pollings);
    })

pub poll_done-IsSingle :
    (n : ℕ) (error : Option Failure) (result : Option RegistrationResult) (op : Operation)
    → op.polls ≡ n
    → IsSingle op
    → IsSingle (poll_completes n error result op)
unfolding poll_completes
poll_done-IsSingle zero error result op e h = h
poll_done-IsSingle (suc n) error result op e h =
    complete-IsSingle error (record op { polls = n; registration_result = result })
      (record {
        between_none = ground (arith, e, h.single);
        between_retries = ground (arith, e, h.single, h.retries);
        between_pollings = ground (arith, e, h.single, h.pollings);
      })
