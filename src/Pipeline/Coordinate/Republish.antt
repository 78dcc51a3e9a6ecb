-- ===== src/Pipeline/Coordinate/Republish.antt =====
-- What a reconnection does with the pending requests.
use mathlib.Core.List.{append_assoc, append-nil}
use azure_iot_dev.Prelude.{
  ap, sym, ◌∙◌, ℕ, zero, suc, ◌+◌, ◌≡◌, refl, true, false, none, some, List, [], ◌∷◌, ◌++◌, arith,
  length,
}
use azure_iot_dev.Errors.{Error}
use azure_iot_dev.Pipeline.Ops.{Op, connected_event}
use azure_iot_dev.Pipeline.Coordinate.{
  Output, requested, sent_up, failed, raised_in_loop, Pending, lookup, delete, has, Loop, Stage,
  initial, on_send_request_done, handle_pipeline_event, next_entry, republish_round, resume,
  Stimulus, event, request_done, return_to_loop, step, run,
}
use azure_iot_dev.Pipeline.Coordinate.Requests.{Distinct, run-Distinct}

abbrev pub returns : ℕ → List Stimulus
returns zero = []
returns (suc n) = return_to_loop ∷ returns n

-- One request for each pending operation, in the order of the dictionary.
abbrev pub requested_all : Pending → List Output
requested_all [] = []
requested_all ((id, op) ∷ rest) = requested id op ∷ requested_all rest

-- The loop has visited all of these entries, or none of them.
abbrev Visited : List ℕ → Pending → Type 0
Visited visited [] = Unit
Visited visited ((id, op) ∷ rest) = (has id visited ≡ true) × Visited visited rest

abbrev Unvisited : List ℕ → Pending → Type 0
Unvisited visited [] = Unit
Unvisited visited ((id, op) ∷ rest) = (has id visited ≡ false) × Unvisited visited rest

next_entry-append :
    (visited : List ℕ) (before rest : Pending)
    → Visited visited before
    → next_entry visited (before ++ rest) ≡ next_entry visited rest
unfolding next_entry
next_entry-append visited [] rest h = refl
next_entry-append visited ((id, op) ∷ before) rest h =
    ground (arith, h.0, next_entry-append visited before rest h.1)

next_entry-cons :
    (visited : List ℕ) (id : ℕ) (op : Op) (rest : Pending)
    → has id visited ≡ false
    → next_entry visited ((id, op) ∷ rest) ≡ some (id, op)
unfolding next_entry
next_entry-cons visited id op rest new = rw new

Visited-more :
    (id : ℕ) (visited : List ℕ) (m : Pending) → Visited visited m → Visited (id ∷ visited) m
Visited-more id visited [] h = tt
Visited-more id visited ((i, op) ∷ m) h = (ground (arith, h.0), Visited-more id visited m h.1)

Visited-snoc :
    (id : ℕ) (op : Op) (visited : List ℕ) (m : Pending)
    → Visited visited m
    → Visited (id ∷ visited) (m ++ (id, op) ∷ [])
Visited-snoc id op visited [] h = (ground arith, tt)
Visited-snoc id op visited ((i, o) ∷ m) h = (ground (arith, h.0), Visited-snoc id op visited m h.1)

Unvisited-more :
    (id : ℕ) (visited : List ℕ) (m : Pending)
    → lookup id m ≡ none
    → Unvisited visited m
    → Unvisited (id ∷ visited) m
unfolding lookup
Unvisited-more id visited [] absent h = tt
Unvisited-more id visited ((i, op) ∷ m) absent h =
    (ground (arith, h.0), Unvisited-more id visited m (ground arith) h.1)

Unvisited-nil : (m : Pending) → Unvisited [] m
Unvisited-nil [] = tt
Unvisited-nil ((i, op) ∷ m) = (refl, Unvisited-nil m)

abbrev in_loop : List ℕ → List Output → Stage → Stage
in_loop visited outputs s = record s {
  loops = record { visited = visited; size = length s.pending_responses } ∷ s.loops;
  outputs = outputs;
}

module _ (s : Stage) where
  round :
      (visited : List ℕ) (outputs : List Output) (id : ℕ) (op : Op)
      → next_entry visited s.pending_responses ≡ some (id, op)
      → step return_to_loop (in_loop visited outputs s)
        ≡ in_loop (id ∷ visited) (outputs ++ requested id op ∷ []) s
  unfolding step resume republish_round
  round visited outputs id op next = ground (arith, next)

  last_round :
      (visited : List ℕ) (outputs : List Output)
      → next_entry visited s.pending_responses ≡ none
      → step return_to_loop (in_loop visited outputs s) ≡ record s { outputs = outputs }
  unfolding step resume republish_round
  last_round visited outputs next = ground (arith, next)

  run-loop :
      (visited : List ℕ) (before rest : Pending) (outputs : List Output)
      → s.pending_responses ≡ before ++ rest
      → Visited visited before
      → Unvisited visited rest
      → Distinct rest
      → run (returns (suc (length rest))) (in_loop visited outputs s)
        ≡ record s { outputs = outputs ++ requested_all rest }
  unfolding run
  run-loop visited before [] outputs e old new distinct =
      last_round visited outputs (
        ap (next_entry visited) e
        ∙ next_entry-append visited before [] old
        ∙ (unfold next_entry in refl))
      ∙ ap (λ all. record s { outputs = all }) (sym (append-nil outputs))
  run-loop visited before ((id, op) ∷ rest) outputs e old new distinct =
      ap (run (returns (suc (length rest)))) (
        round visited outputs id op (
          ap (next_entry visited) e
          ∙ next_entry-append visited before ((id, op) ∷ rest) old
          ∙ next_entry-cons visited id op rest new.0))
      ∙ run-loop (id ∷ visited) (before ++ (id, op) ∷ []) rest (outputs ++ requested id op ∷ [])
          (e ∙ sym (append_assoc before ((id, op) ∷ []) rest))
          (Visited-snoc id op visited before old) (Unvisited-more id visited rest distinct.0 new.1)
          distinct.1
      ∙ ap (λ all. record s { outputs = all })
          (append_assoc outputs (requested id op ∷ []) (requested_all rest))

connect_event :
    (s : Stage)
    → step (event connected_event) s ≡ in_loop [] (s.outputs ++ sent_up connected_event ∷ []) s
unfolding step handle_pipeline_event
connect_event s = refl

-- After a `ConnectedEvent`, if nothing else happens meanwhile, the event goes up, a request goes
-- down again for every pending operation, once and in the order of their first requests, and all
-- of them stay pending.
pub reconnect_republishes :
    (before : List Stimulus)
    → let s = run before initial in
      run (event connected_event ∷ returns (suc (length s.pending_responses))) s ≡ record s {
        outputs = (s.outputs ++ sent_up connected_event ∷ []) ++ requested_all s.pending_responses;
      }
unfolding run
reconnect_republishes before =
    let s = run before initial in
    ap (run (returns (suc (length s.pending_responses)))) (connect_event s)
    ∙ run-loop s [] [] s.pending_responses (s.outputs ++ sent_up connected_event ∷ []) refl tt
        (Unvisited-nil s.pending_responses) (run-Distinct before initial (unfold initial in tt))

lookup-head : (id : ℕ) (op : Op) (rest : Pending) → lookup id ((id, op) ∷ rest) ≡ some op
unfolding lookup
lookup-head id op rest = ground arith

delete-head : (id : ℕ) (op : Op) (rest : Pending) → delete id ((id, op) ∷ rest) ≡ rest
unfolding delete
delete-head id op rest = ground arith

request_fails :
    (id : ℕ) (op : Op) (rest : Pending) (error : Error) (s : Stage)
    → s.pending_responses ≡ (id, op) ∷ rest
    → step (request_done id (some error)) s
      ≡ record s { pending_responses = rest; outputs = s.outputs ++ failed op error ∷ [] }
unfolding step on_send_request_done
request_fails id op rest error s e = ground (arith, lookup-head id op rest, delete-head id op rest)

stale_round :
    (loop : Loop) (outer : List Loop) (s : Stage)
    → s.loops ≡ loop ∷ outer
    → length s.pending_responses + 1 ≡ loop.size
    → step return_to_loop s ≡ record s { loops = outer; outputs = s.outputs ++ raised_in_loop ∷ [] }
unfolding step resume republish_round
stale_round loop outer s e shorter = ground arith

-- If requests are sent again after a `ConnectedEvent` and the first of them fails before the call
-- that sends it returns, the loop stops there: the operation is failed, the loop raises, and no
-- other pending operation is requested again.
pub republish_aborts :
    (id : ℕ) (op : Op) (rest : Pending) (error : Error) (s : Stage)
    → s.pending_responses ≡ (id, op) ∷ rest
    → run
        (event connected_event
          ∷ return_to_loop
          ∷ request_done id (some error)
          ∷ return_to_loop
          ∷ [])
        s
      ≡ record s {
        pending_responses = rest;
        outputs =
            (((s.outputs ++ sent_up connected_event ∷ []) ++ requested id op ∷ [])
              ++ failed op error ∷ [])
            ++ raised_in_loop ∷ [];
      }
unfolding run
republish_aborts id op rest error s e =
    ap (run (return_to_loop ∷ request_done id (some error) ∷ return_to_loop ∷ [])) (connect_event s)
    ∙ ap (run (request_done id (some error) ∷ return_to_loop ∷ [])) first_round
    ∙ ap (run (return_to_loop ∷ [])) (request_fails id op rest error sent e)
    ∙ stale_round (record { visited = id ∷ []; size = length s.pending_responses }) s.loops _ refl
        (omega (arith, ap (length {0}) e))
  where
    up : List Output
    up = s.outputs ++ sent_up connected_event ∷ []

    sent : Stage
    sent = in_loop (id ∷ []) (up ++ requested id op ∷ []) s

    first_round : step return_to_loop (in_loop [] up s) ≡ sent
    first_round = round s [] up id op (ap (next_entry []) e ∙ next_entry-cons [] id op rest refl)
