-- ===== src/Pipeline/Coordinate/Requests.antt =====
-- The dictionary of pending requests, and a request with its response.
use azure_iot_dev.Prelude.{
  ap, sym, subst, ◌∙◌, All, ℕ, ◌≡◌, refl, Bool, false, none, some, List, [], ◌∷◌, ◌++◌, arith, ◌==◌,
  if◌then◌else◌,
}
use azure_iot_dev.Pipeline.Ops.{Op, request_and_response, response_event}
use azure_iot_dev.Pipeline.Coordinate.{
  answer, answered, Pending, lookup, insert, delete, Loop, Stage, initial, run_op,
  on_send_request_done, handle_pipeline_event, resume, Stimulus, arrive, event, request_done,
  return_to_loop, step, run,
}

pub lookup-insert :
    (id j : ℕ) (op : Op) (m : Pending)
    → lookup j (insert id op m) ≡ (if id == j then some op else lookup j m)
unfolding lookup insert
lookup-insert id j op [] = refl
lookup-insert id j op ((i, old) ∷ m) = ground (arith, lookup-insert id j op m)

-- No request id stands twice in the dictionary.
abbrev pub Distinct : Pending → Type 0
Distinct [] = Unit
Distinct ((i, op) ∷ m) = (lookup i m ≡ none) × Distinct m

lookup-delete-none : (id j : ℕ) (m : Pending) → lookup j m ≡ none → lookup j (delete id m) ≡ none
unfolding lookup delete
lookup-delete-none id j [] h = refl
lookup-delete-none id j ((i, op) ∷ m) h = ground (arith, lookup-delete-none id j m)

pub lookup-delete :
    (id j : ℕ) (m : Pending)
    → Distinct m
    → lookup j (delete id m) ≡ (if id == j then none else lookup j m)
unfolding lookup delete
lookup-delete id j [] h = ground arith
lookup-delete id j ((i, op) ∷ m) h = ground (arith, lookup-delete id j m h.1)

insert-Distinct : (id : ℕ) (op : Op) (m : Pending) → Distinct m → Distinct (insert id op m)
unfolding insert
insert-Distinct id op [] h = (unfold lookup in refl, tt)
insert-Distinct id op ((i, old) ∷ m) h =
    ground (arith, lookup-insert id i op m, insert-Distinct id op m h.1)

delete-Distinct : (id : ℕ) (m : Pending) → Distinct m → Distinct (delete id m)
unfolding delete
delete-Distinct id [] h = tt
delete-Distinct id ((i, op) ∷ m) h =
    ground (arith, lookup-delete-none id i m, delete-Distinct id m h.1)

-- Does this stimulus touch the request with the id?
abbrev pub concerns : ℕ → Stimulus → Bool
concerns id (arrive i op) = i == id
concerns id (event (response_event i status_code)) = i == id
concerns id (request_done i error) = i == id
concerns id _ = false

pending-resume :
    (loops : List Loop) (s : Stage) → (resume loops s).pending_responses ≡ s.pending_responses
unfolding resume
pending-resume [] s = refl
pending-resume (loop ∷ outer) s = ground arith

lookup-step :
    (id : ℕ) (e : Stimulus) (s : Stage)
    → Distinct s.pending_responses
    → concerns id e ≡ false
    → lookup id (step e s).pending_responses ≡ lookup id s.pending_responses
unfolding step handle_pipeline_event on_send_request_done run_op
lookup-step id (arrive i op) s h other = ground (arith, lookup-insert i id op s.pending_responses)
lookup-step id (event (response_event i status)) s h other =
    ground (arith, lookup-delete i id s.pending_responses h)
lookup-step id (event e) s h other = ground arith
lookup-step id (request_done i none) s h other = refl
lookup-step id (request_done i (some error)) s h other =
    ground (arith, lookup-delete i id s.pending_responses h)
lookup-step id return_to_loop s h other = ap (lookup id) (pending-resume s.loops s)

step-Distinct :
    (e : Stimulus) (s : Stage)
    → Distinct s.pending_responses
    → Distinct (step e s).pending_responses
unfolding step handle_pipeline_event on_send_request_done run_op
step-Distinct (arrive i op) s h = ground (arith, insert-Distinct i op s.pending_responses h)
step-Distinct (event (response_event i status)) s h =
    ground (arith, delete-Distinct i s.pending_responses h)
step-Distinct (event e) s h = ground arith
step-Distinct (request_done i none) s h = h
step-Distinct (request_done i (some error)) s h =
    ground (arith, delete-Distinct i s.pending_responses h)
step-Distinct return_to_loop s h = subst Distinct (sym (pending-resume s.loops s)) h

pub run-Distinct :
    (es : List Stimulus) (s : Stage)
    → Distinct s.pending_responses
    → Distinct (run es s).pending_responses
unfolding run
run-Distinct [] s h = h
run-Distinct (e ∷ es) s h = run-Distinct es _ (step-Distinct e s h)

lookup-run :
    (id : ℕ) (es : List Stimulus) (s : Stage)
    → Distinct s.pending_responses
    → All (λ e. concerns id e ≡ false) es
    → lookup id (run es s).pending_responses ≡ lookup id s.pending_responses
unfolding run
lookup-run id [] s h others = refl
lookup-run id (e ∷ es) s h others =
    lookup-run id es _ (step-Distinct e s h) others.1 ∙ lookup-step id e s h others.0

run_op-pending :
    (id : ℕ) (op : Op) (s : Stage)
    → op.kind ≡ request_and_response
    → lookup id (run_op id op s).pending_responses ≡ some op
unfolding run_op
run_op-pending id op s kind = ground (arith, lookup-insert id id op s.pending_responses)

run-append : (xs ys : List Stimulus) (s : Stage) → run (xs ++ ys) s ≡ run ys (run xs s)
unfolding run
run-append [] ys s = refl
run-append (x ∷ xs) ys s = run-append xs ys (step x s)

-- The state once the operation that is pending under the id has been answered.
abbrev pub answered_state : ℕ → Op → ℕ → Stage → Stage
answered_state id op status s = record s {
  pending_responses = delete id s.pending_responses;
  outputs = s.outputs ++ answered op status ∷ [];
}

respond :
    (id : ℕ) (op : Op) (status : ℕ) (s : Stage)
    → lookup id s.pending_responses ≡ some op
    → step (event (response_event id status)) s ≡ answered_state id op status s
unfolding step handle_pipeline_event
respond id op status s found = rw (found, answer)

ignore :
    (id : ℕ) (status : ℕ) (s : Stage)
    → lookup id s.pending_responses ≡ none
    → step (event (response_event id status)) s ≡ s
unfolding step handle_pipeline_event
ignore id status s missing = rw (missing, answer)

arrive-pending :
    (id : ℕ) (op : Op) (s : Stage)
    → op.kind ≡ request_and_response
    → lookup id (step (arrive id op) s).pending_responses ≡ some op
unfolding step
arrive-pending = run_op-pending

lookup-delete_self : (id : ℕ) (m : Pending) → Distinct m → lookup id (delete id m) ≡ none
lookup-delete_self id m h = ground (arith, lookup-delete id id m h)

initial-Distinct : Distinct initial.pending_responses
unfolding initial
initial-Distinct = tt

-- If a request arrives, then anything that is not about its id, then a response with its id, the
-- response completes the operation that made the request, with the status of the response, and does
-- nothing else but take the id off the pending ones. A second response with the id does nothing.
pub request_response :
    (before : List Stimulus) (id : ℕ) (op : Op) (es : List Stimulus) (status again : ℕ)
    → op.kind ≡ request_and_response
    → All (λ e. concerns id e ≡ false) es
    → run
        (event (response_event id status) ∷ event (response_event id again) ∷ [])
        (run es (step (arrive id op) (run before initial)))
      ≡ answered_state id op status (run es (step (arrive id op) (run before initial)))
unfolding run
request_response before id op es status again kind others =
    let reached = run before initial in
    let sent = step (arrive id op) reached in
    let late = run es sent in
    let distinct = run-Distinct before initial initial-Distinct in
    let found =
      lookup-run id es sent (step-Distinct (arrive id op) reached distinct) others
      ∙ arrive-pending id op reached kind in
    let distinct_late = run-Distinct es sent (step-Distinct (arrive id op) reached distinct) in
    ap (step (event (response_event id again))) (respond id op status late found)
    ∙ ignore id again (answered_state id op status late)
        (lookup-delete_self id late.pending_responses distinct_late)
