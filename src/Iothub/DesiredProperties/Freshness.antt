-- ===== src/Iothub/DesiredProperties/Freshness.antt =====
-- The versions that the stage has told to the application.
use azure_iot_dev.Prelude.{
  ℕ, zero, suc, ◌≡◌, ◌∙◌, refl, ap, Bool, true, false, Option, none, some, List, [], ◌∷◌, ◌++◌,
  arith, if◌then◌else◌,
}
use azure_iot_dev.Errors.{Error}
use azure_iot_dev.Iothub.DesiredProperties.{
  LastVersion, version, is_truthy, enable_twin_patches, other_operation, Event, connected_event,
  other_event, patch_event, Output, sent_get, sent_down, sent_up, crashed, Body, undecodable,
  no_version, twin, Answer, Stage, emit, run_op, ensure_get_op, see_version, on_get_twin_complete,
  map_twin_error, twin_completed, on_twin_response, handle_pipeline_event, Stimulus, arrive, event,
  answer, return_to_call, answered, resume, step, run,
}

abbrev pub told_in : Output → Option ℕ
told_in (sent_up (patch_event n)) = some n
told_in _ = none

abbrev pub later : Option ℕ → Option ℕ → Option ℕ
later (some n) before = some n
later none before = before

-- The version of the last patch that went up.
abbrev pub last_told : List Output → Option ℕ
last_told [] = none
last_told (o ∷ rest) = later (last_told rest) (told_in o)

later_assoc : (a b c : Option ℕ) → later (later a b) c ≡ later a (later b c)
later_assoc none b c = refl
later_assoc (some n) b c = refl

pub told-snoc :
    (os : List Output) (o : Output) → last_told (os ++ o ∷ []) ≡ later (told_in o) (last_told os)
told-snoc [] o = ground arith
told-snoc (x ∷ os) o =
    ap (λ l. later l (told_in x)) (told-snoc os o)
    ∙ later_assoc (told_in o) (last_told os) (told_in x)

-- The version that the stage remembers is the one that it has told last.
abbrev pub Agrees : LastVersion → List Output → Type 0
Agrees (version n) os = last_told os ≡ some n
Agrees _ os = Unit

abbrev pub IsTold : Stage → Type 0
IsTold s = Agrees s.last_version_seen s.outputs

emit-IsTold : (o : Output) (s : Stage) → told_in o ≡ none → IsTold s → IsTold (emit o s)
emit-IsTold o s e h = ground (arith, told-snoc s.outputs o)

ensure-IsTold : (s : Stage) → IsTold s → IsTold (ensure_get_op s)
unfolding ensure_get_op
ensure-IsTold s h = ground (arith, told-snoc s.outputs sent_get)

see-IsTold : (n : ℕ) (s : Stage) → IsTold s → IsTold (see_version n s)
see-IsTold n s h = ground (arith, told-snoc s.outputs (sent_up (patch_event n)))

get-IsTold :
    (error : Option Error) (body : Body) (s : Stage)
    → IsTold s
    → IsTold (on_get_twin_complete error body s)
unfolding on_get_twin_complete
get-IsTold (some e) body s h = ensure-IsTold (record s { pending_get_request = false }) h
get-IsTold none undecodable s h =
    emit-IsTold crashed (record s { pending_get_request = false }) refl h
get-IsTold none no_version s h =
    emit-IsTold crashed (record s { pending_get_request = false }) refl h
get-IsTold none (twin n) s h = see-IsTold n (record s { pending_get_request = false }) h

twin-IsTold :
    (error : Option Error) (body : Body) (s : Stage)
    → IsTold s
    → IsTold (twin_completed error body s)
twin-IsTold (some e) body s h = get-IsTold (some e) body s h
twin-IsTold none undecodable s h = emit-IsTold crashed s refl h
twin-IsTold none no_version s h = get-IsTold none no_version s h
twin-IsTold none (twin n) s h = get-IsTold none (twin n) s h

answered-IsTold : (n : ℕ) (a : Answer) (s : Stage) → IsTold s → IsTold (answered n a s)
unfolding on_twin_response
answered-IsTold zero a s h = h
answered-IsTold (suc n) a s h =
    twin-IsTold (map_twin_error a.error a.status_code) a.response_body
      (record s { outstanding = n }) h

connected-IsTold :
    (b : Bool) (s : Stage)
    → IsTold s
    → IsTold (
        if b
        then record (ensure_get_op s) { suspended = suc s.suspended }
        else emit (sent_up connected_event) s)
connected-IsTold true s h = ensure-IsTold s h
connected-IsTold false s h = emit-IsTold (sent_up connected_event) s refl h

event-IsTold : (e : Event) (s : Stage) → IsTold s → IsTold (handle_pipeline_event e s)
unfolding handle_pipeline_event
event-IsTold connected_event s h = connected-IsTold (is_truthy s.last_version_seen) s h
event-IsTold other_event s h = emit-IsTold (sent_up other_event) s refl h
event-IsTold (patch_event n) s h = told-snoc s.outputs (sent_up (patch_event n))

resume-IsTold : (n : ℕ) (s : Stage) → IsTold s → IsTold (resume n s)
resume-IsTold zero s h = h
resume-IsTold (suc n) s h =
    emit-IsTold (sent_up connected_event) (record s { suspended = n }) refl h

pub step-IsTold : (e : Stimulus) (s : Stage) → IsTold s → IsTold (step e s)
unfolding step run_op
step-IsTold (arrive enable_twin_patches) s h = tt
step-IsTold (arrive other_operation) s h = emit-IsTold (sent_down other_operation) s refl h
step-IsTold (event e) s h = event-IsTold e s h
step-IsTold (answer a) s h = answered-IsTold s.outstanding a s h
step-IsTold return_to_call s h = resume-IsTold s.suspended s h

pub run-IsTold : (es : List Stimulus) (s : Stage) → IsTold s → IsTold (run es s)
unfolding run
run-IsTold [] s h = h
run-IsTold (e ∷ es) s h = run-IsTold es (step e s) (step-IsTold e s h)
