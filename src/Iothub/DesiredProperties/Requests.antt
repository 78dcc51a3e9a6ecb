-- ===== src/Iothub/DesiredProperties/Requests.antt =====
-- The requests for the twin that `EnsureDesiredPropertiesStage` makes.
use azure_iot_dev.Prelude.{
  ℕ, zero, suc, ◌+◌, ◌≤◌, ◌≡◌, ◌∙◌, refl, ap, Bool, true, false, Option, none, some, List, [], ◌∷◌,
  ◌++◌, arith, leb,
}
use azure_iot_dev.Errors.{Error}
use azure_iot_dev.Iothub.DesiredProperties.{
  enable_twin_patches, other_operation, Event, connected_event, other_event, patch_event, Output,
  sent_get, sent_down, sent_up, crashed, Body, undecodable, no_version, twin, Answer, Stage,
  initial, emit, run_op, ensure_get_op, on_get_twin_complete, map_twin_error, twin_completed,
  on_twin_response, handle_pipeline_event, Stimulus, arrive, event, answer, return_to_call,
  answered, step, run,
}

abbrev pub flag : Bool → ℕ
flag true = 1
flag false = 0

-- There is no more than one request, and the stage knows of it.
abbrev IsKnown : Stage → Type 0
IsKnown s = s.outstanding ≤ flag s.pending_get_request

ensure-IsKnown : (s : Stage) → IsKnown s → IsKnown (ensure_get_op s)
unfolding ensure_get_op
ensure-IsKnown s h = ground arith

get-IsKnown :
    (error : Option Error) (body : Body) (s : Stage)
    → s.outstanding ≡ 0
    → IsKnown (on_get_twin_complete error body s)
unfolding on_get_twin_complete ensure_get_op
get-IsKnown error body s h = ground arith

twin-IsKnown :
    (error : Option Error) (body : Body) (s : Stage)
    → s.outstanding ≡ 0
    → IsKnown (twin_completed error body s)
twin-IsKnown (some e) body s h = get-IsKnown (some e) body s h
twin-IsKnown none undecodable s h = ground arith
twin-IsKnown none no_version s h = get-IsKnown none no_version s h
twin-IsKnown none (twin n) s h = get-IsKnown none (twin n) s h

answered-IsKnown :
    (n : ℕ) (a : Answer) (s : Stage) → s.outstanding ≡ n → IsKnown s → IsKnown (answered n a s)
unfolding on_twin_response
answered-IsKnown zero a s e h = h
answered-IsKnown (suc n) a s e h =
    twin-IsKnown (map_twin_error a.error a.status_code) a.response_body
      (record s { outstanding = n }) (ground (arith, e, h))

event-IsKnown : (e : Event) (s : Stage) → IsKnown s → IsKnown (handle_pipeline_event e s)
unfolding handle_pipeline_event ensure_get_op
event-IsKnown e s h = ground arith

step-IsKnown : (e : Stimulus) (s : Stage) → IsKnown s → IsKnown (step e s)
unfolding step run_op
step-IsKnown (arrive op) s h = ground arith
step-IsKnown (event e) s h = event-IsKnown e s h
step-IsKnown (answer a) s h = answered-IsKnown s.outstanding a s refl h
step-IsKnown return_to_call s h = ground arith

run-IsKnown : (es : List Stimulus) (s : Stage) → IsKnown s → IsKnown (run es s)
unfolding run
run-IsKnown [] s h = h
run-IsKnown (e ∷ es) s h = run-IsKnown es (step e s) (step-IsKnown e s h)

-- Whatever operations, events and answers come, at most one request for the twin that the stage has
-- made is not answered, and only while the stage waits for it.
pub one_get_at_a_time :
    (es : List Stimulus) → (run es initial).outstanding ≤ flag (run es initial).pending_get_request
unfolding initial
one_get_at_a_time es = run-IsKnown es initial (omega arith)

abbrev get_in : Output → ℕ
get_in sent_get = 1
get_in _ = 0

-- How many requests were sent.
abbrev pub gets : List Output → ℕ
gets [] = 0
gets (o ∷ rest) = get_in o + gets rest

pub gets-snoc : (os : List Output) (o : Output) → gets (os ++ o ∷ []) ≡ gets os + get_in o
gets-snoc [] o = omega arith
gets-snoc (x ∷ os) o = omega (arith, gets-snoc os o)

-- The stage waits for an answer that will not come.
record IsBlocked (s after : Stage) : Type 0 where
  waits : after.pending_get_request ≡ true
  unanswered : after.outstanding ≡ 0
  same : gets after.outputs ≡ gets s.outputs

step-IsBlocked :
    (e : Stimulus) (s : Stage)
    → s.pending_get_request ≡ true
    → s.outstanding ≡ 0
    → IsBlocked s (step e s)
unfolding step run_op handle_pipeline_event ensure_get_op
step-IsBlocked (arrive enable_twin_patches) s w u =
    ground (arith, w, u, gets-snoc s.outputs (sent_down enable_twin_patches))
step-IsBlocked (arrive other_operation) s w u =
    ground (arith, w, u, gets-snoc s.outputs (sent_down other_operation))
step-IsBlocked (event (patch_event n)) s w u =
    ground (arith, w, u, gets-snoc s.outputs (sent_up (patch_event n)))
step-IsBlocked (event connected_event) s w u =
    ground (arith, w, u, gets-snoc s.outputs (sent_up connected_event))
step-IsBlocked (event other_event) s w u =
    ground (arith, w, u, gets-snoc s.outputs (sent_up other_event))
step-IsBlocked (answer a) s w u = ground (arith, w, u)
step-IsBlocked return_to_call s w u =
    ground (arith, w, u, gets-snoc s.outputs (sent_up connected_event))

run-blocked :
    (es : List Stimulus) (s : Stage)
    → s.pending_get_request ≡ true
    → s.outstanding ≡ 0
    → gets (run es s).outputs ≡ gets s.outputs
unfolding run
run-blocked [] s w u = refl
run-blocked (e ∷ es) s w u =
    let once = step-IsBlocked e s w u in
    run-blocked es (step e s) once.waits once.unanswered ∙ once.same

undecodable_lem :
    (status_code : ℕ) (s : Stage)
    → leb 300 status_code ≡ false
    → s.outstanding ≡ 1
    → step
        (answer (record { error = none; status_code = status_code; response_body = undecodable }))
        s
      ≡ emit crashed (record s { outstanding = 0 })
unfolding step on_twin_response map_twin_error
undecodable_lem status_code s low one = ground (arith, low, one)

-- If the answer to the request for the twin that the stage waits for has no error and a status code
-- below 300, but a body that cannot be decoded, the stage never sends a request again, whatever
-- comes, also when the connection is renewed.
pub undecodable_twin_blocks :
    (status_code : ℕ) (es : List Stimulus) (s : Stage)
    → leb 300 status_code ≡ false
    → s.pending_get_request ≡ true
    → s.outstanding ≡ 1
    → let a : Answer = record {
      error = none;
      status_code = status_code;
      response_body = undecodable;
    } in
      gets (run (answer a ∷ es) s).outputs ≡ gets s.outputs
unfolding run
undecodable_twin_blocks status_code es s low waits one =
    let blocked : Stage = emit crashed (record s { outstanding = 0 }) in
    ap (λ t. gets (run es t).outputs) (undecodable_lem status_code s low one)
    ∙ run-blocked es blocked waits refl
    ∙ gets-snoc s.outputs crashed
    ∙ omega arith
