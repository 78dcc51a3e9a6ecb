-- ===== src/Pipeline/Coordinate/Conservation.antt =====
-- Every request is completed once or is still pending.
use azure_iot_dev.Prelude.{
  ℕ, ◌+◌, ◌≡◌, refl, Bool, true, false, Option, none, some, List, [], ◌∷◌, ◌++◌, arith, ◌==◌,
  if◌then◌else◌,
}
use azure_iot_dev.Errors.{Error}
use azure_iot_dev.Pipeline.Ops.{
  Op, OpKind, request_and_response, Event, connected_event, response_event,
}
use azure_iot_dev.Pipeline.Coordinate.{
  answer, finish_request, visit, Output, sent_down, requested, sent_up, answered, failed,
  raised_in_loop, Pending, lookup, insert, delete, Loop, Stage, initial, run_op,
  on_send_request_done, handle_pipeline_event, next_entry, resume, Stimulus, arrive, event,
  request_done, return_to_loop, step, run,
}

abbrev hit : ℕ → Op → ℕ
hit i op = if op.id == i then 1 else 0

-- How often an operation is pending, and how often the stage has completed it.
abbrev pub pending_count : ℕ → Pending → ℕ
pending_count i [] = 0
pending_count i ((id, op) ∷ rest) = hit i op + pending_count i rest

abbrev in_output : ℕ → Output → ℕ
in_output i (answered op status) = hit i op
in_output i (failed op error) = hit i op
in_output i _ = 0

abbrev pub completions : ℕ → List Output → ℕ
completions i [] = 0
completions i (o ∷ rest) = in_output i o + completions i rest

abbrev is_request : OpKind → Bool
is_request request_and_response = true
is_request _ = false

abbrev in_stimulus : ℕ → Stimulus → ℕ
in_stimulus i (arrive id op) = if is_request op.kind then hit i op else 0
in_stimulus i _ = 0

abbrev pub requests : ℕ → List Stimulus → ℕ
requests i [] = 0
requests i (e ∷ rest) = in_stimulus i e + requests i rest

-- The id that arrives with an operation is not pending already.
abbrev IsFresh : Stimulus → Stage → Type 0
IsFresh (arrive id op) s = lookup id s.pending_responses ≡ none
IsFresh _ s = Unit

abbrev pub AllFresh : List Stimulus → Stage → Type 0
AllFresh [] s = Unit
AllFresh (e ∷ es) s = IsFresh e s × AllFresh es (step e s)

completions-append :
    (i : ℕ) (xs ys : List Output) → completions i (xs ++ ys) ≡ completions i xs + completions i ys
completions-append i [] ys = omega arith
completions-append i (x ∷ xs) ys = omega (arith, completions-append i xs ys)

pending_count-insert :
    (i id : ℕ) (op : Op) (m : Pending)
    → lookup id m ≡ none
    → pending_count i (insert id op m) ≡ pending_count i m + hit i op
unfolding lookup insert
pending_count-insert i id op [] h = omega arith
pending_count-insert i id op ((j, old) ∷ m) h = ground (arith, pending_count-insert i id op m)

pending_count-delete :
    (i id : ℕ) (op : Op) (m : Pending)
    → lookup id m ≡ some op
    → pending_count i (delete id m) + hit i op ≡ pending_count i m
unfolding lookup delete
pending_count-delete i id op [] h = ground arith
pending_count-delete i id op ((j, old) ∷ m) h = ground (arith, pending_count-delete i id op m)

module _ (i : ℕ) where
  abbrev total : Stage → ℕ
  total s = completions i s.outputs + pending_count i s.pending_responses

  snoc :
      (xs : List Output) (o : Output)
      → completions i (xs ++ o ∷ []) ≡ completions i xs + in_output i o
  snoc xs o = omega (arith, completions-append i xs (o ∷ []))

  total-run_op :
      (id : ℕ) (op : Op) (s : Stage)
      → lookup id s.pending_responses ≡ none
      → total (run_op id op s) ≡ total s + in_stimulus i (arrive id op)
  unfolding run_op
  total-run_op id op s fresh = ground (
    arith,
    pending_count-insert i id op s.pending_responses fresh,
    snoc s.outputs (requested id op),
    snoc s.outputs (sent_down op),
  )

  total-answer :
      (id status : ℕ) (found : Option Op) (s : Stage)
      → lookup id s.pending_responses ≡ found
      → total (answer id status found s) ≡ total s
  total-answer id status none s e = refl
  total-answer id status (some op) s e = omega (
    arith,
    pending_count-delete i id op s.pending_responses e,
    snoc s.outputs (answered op status),
  )

  total-finish :
      (error : Error) (id : ℕ) (found : Option Op) (s : Stage)
      → lookup id s.pending_responses ≡ found
      → total (finish_request error id found s) ≡ total s
  total-finish error id none s e = refl
  total-finish error id (some op) s e =
      omega (
        arith,
        pending_count-delete i id op s.pending_responses e,
        snoc s.outputs (failed op error),
      )

  total-event : (e : Event) (s : Stage) → total (handle_pipeline_event e s) ≡ total s
  unfolding handle_pipeline_event
  total-event (response_event id status) s =
      total-answer id status (lookup id s.pending_responses) s refl
  total-event connected_event s = omega (arith, snoc s.outputs (sent_up connected_event))
  total-event e s = omega (arith, snoc s.outputs (sent_up e))

  total-visit :
      (loop : Loop) (outer : List Loop) (entry : Option (ℕ × Op)) (s : Stage)
      → total (visit loop outer entry s) ≡ total s
  total-visit loop outer none s = refl
  total-visit loop outer (some (id, op)) s = omega (arith, snoc s.outputs (requested id op))

  total-resume : (loops : List Loop) (s : Stage) → total (resume loops s) ≡ total s
  unfolding resume
  total-resume [] s = refl
  total-resume (loop ∷ outer) s = ground (
    arith,
    total-visit loop outer (next_entry loop.visited s.pending_responses) s,
    snoc s.outputs raised_in_loop,
  )

  total-step :
      (e : Stimulus) (s : Stage) → IsFresh e s → total (step e s) ≡ total s + in_stimulus i e
  unfolding step on_send_request_done
  total-step (arrive id op) s fresh = total-run_op id op s fresh
  total-step (event e) s fresh = omega (arith, total-event e s)
  total-step (request_done id none) s fresh = omega arith
  total-step (request_done id (some error)) s fresh =
      omega (arith, total-finish error id (lookup id s.pending_responses) s refl)
  total-step return_to_loop s fresh = omega (arith, total-resume s.loops s)

  total-run :
      (es : List Stimulus) (s : Stage) → AllFresh es s → total (run es s) ≡ total s + requests i es
  unfolding run
  total-run [] s fresh = omega arith
  total-run (e ∷ es) s fresh =
      omega (arith, total-run es (step e s) fresh.1, total-step e s fresh.0)

  -- If no request id is used while it is pending, then whatever happens, each request operation has
  -- been completed by the stage, or is pending, exactly as often in all as it has arrived.
  pub requests_conserved :
      (es : List Stimulus)
      → AllFresh es initial
      → completions i (run es initial).outputs + pending_count i (run es initial).pending_responses
        ≡ requests i es
  unfolding initial
  requests_conserved es fresh = omega (arith, total-run es initial fresh)
