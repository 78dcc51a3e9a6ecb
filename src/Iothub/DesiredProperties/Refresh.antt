-- ===== src/Iothub/DesiredProperties/Refresh.antt =====
-- The desired properties after the connection is renewed.
use azure_iot_dev.Prelude.{
  ℕ, suc, ◌+◌, ◌≡◌, ◌∙◌, ap, Bool, true, false, Option, none, some, List, [], ◌∷◌, ◌++◌, arith, leb,
  is_some, length, All,
}
use azure_iot_dev.Errors.{Error}
use azure_iot_dev.Iothub.DesiredProperties.{
  is_truthy, connected_event, patch_event, sent_get, sent_up, Body, twin, Answer, Stage, initial,
  ensure_get_op, see_version, on_get_twin_complete, map_twin_error, twin_completed,
  on_twin_response, handle_pipeline_event, Stimulus, event, answer, return_to_call, step, run,
}
use azure_iot_dev.Iothub.DesiredProperties.Requests.{gets, gets-snoc, one_get_at_a_time}
use azure_iot_dev.Iothub.DesiredProperties.Freshness.{
  last_told, told-snoc, IsTold, step-IsTold, run-IsTold,
}

-- An answer with an error or with a status code of 300 or more.
abbrev pub fails : Answer → Bool
fails a = is_some (map_twin_error a.error a.status_code)

abbrev pub good : ℕ → ℕ → Answer
good status_code n = record { error = none; status_code = status_code; response_body = twin n }

-- Answers that fail, and then one with a twin.
abbrev pub answers_until : List Answer → ℕ → ℕ → List Stimulus
answers_until [] status_code n = answer (good status_code n) ∷ []
answers_until (a ∷ rest) status_code n = answer a ∷ answers_until rest status_code n

record IsWaiting (s : Stage) : Type 0 where
  waits : s.pending_get_request ≡ true
  unanswered : s.outstanding ≡ 1

failed_lem :
    (error : Option Error) (body : Body) (s : Stage)
    → is_some error ≡ true
    → IsWaiting (twin_completed error body (record s { outstanding = 0 }))
      × (gets (twin_completed error body (record s { outstanding = 0 })).outputs
          ≡ gets s.outputs + 1)
unfolding on_get_twin_complete ensure_get_op
failed_lem none body s h = absurd (ground arith)
failed_lem (some e) body s h = ground (arith, gets-snoc s.outputs sent_get)

failed_step :
    (a : Answer) (s : Stage)
    → fails a ≡ true
    → IsWaiting s
    → IsWaiting (step (answer a) s) × (gets (step (answer a) s).outputs ≡ gets s.outputs + 1)
unfolding step on_twin_response
failed_step a s h w =
    rw w.unanswered (failed_lem (map_twin_error a.error a.status_code) a.response_body s h)

seen_lem :
    (n : ℕ) (s : Stage)
    → IsTold s
    → (last_told (see_version n s).outputs ≡ some n)
      × (gets (see_version n s).outputs ≡ gets s.outputs)
seen_lem n s h = ground (
  arith,
  told-snoc s.outputs (sent_up (patch_event n)),
  gets-snoc s.outputs (sent_up (patch_event n)),
)

step-good :
    (status_code n : ℕ) (s : Stage)
    → leb 300 status_code ≡ false
    → s.outstanding ≡ 1
    → step (answer (good status_code n)) s
      ≡ see_version n (record s { outstanding = 0; pending_get_request = false })
unfolding step on_twin_response map_twin_error on_get_twin_complete
step-good status_code n s low one = ground (arith, low, one)

refreshed :
    (failures : List Answer) (status_code n : ℕ) (s : Stage)
    → All (λ a. fails a ≡ true) failures
    → leb 300 status_code ≡ false
    → IsTold s
    → IsWaiting s
    → (last_told (run (answers_until failures status_code n) s).outputs ≡ some n)
      × (gets (run (answers_until failures status_code n) s).outputs
          ≡ gets s.outputs + length failures)
unfolding run
refreshed [] status_code n s all_fail low told w =
    let seen = seen_lem n (record s { outstanding = 0; pending_get_request = false }) told in
    let e = ap (λ (t : Stage). t.outputs) (step-good status_code n s low w.unanswered) in
    (ap last_told e ∙ seen.0, ap gets e ∙ seen.1 ∙ omega arith)
refreshed (a ∷ rest) status_code n s all_fail low told w =
    let once = failed_step a s all_fail.0 w in
    let more =
      refreshed rest status_code n (step (answer a) s) all_fail.1 low
        (step-IsTold (answer a) s told) once.0 in
    (more.0, omega (arith, more.1, once.1))

connected_step :
    (s : Stage)
    → s.pending_get_request ≡ false
    → s.outstanding ≡ 0
    → is_truthy s.last_version_seen ≡ true
    → IsWaiting (step return_to_call (step (event connected_event) s))
      × (gets (step return_to_call (step (event connected_event) s)).outputs ≡ gets s.outputs + 1)
unfolding step handle_pipeline_event ensure_get_op
connected_step s idle none_out on = ground (
  arith,
  idle,
  none_out,
  on,
  gets-snoc s.outputs sent_get,
  gets-snoc (s.outputs ++ sent_get ∷ []) (sent_up connected_event),
)

initial-IsTold : IsTold initial
unfolding initial
initial-IsTold = tt

-- If the connection is renewed after any run, with twin patches enabled or a patch seen and no
-- request for the twin under way, and the request that is then sent, and those that are sent after
-- answers that fail, are answered, the last one with a status code below 300 and a twin, then one
-- request was sent and one more for each failure, and the last version of the desired properties
-- that went up is that of the twin.
pub reconnect_refreshes :
    (es : List Stimulus) (failures : List Answer) (status_code n : ℕ)
    → (run es initial).pending_get_request ≡ false
    → is_truthy (run es initial).last_version_seen ≡ true
    → All (λ a. fails a ≡ true) failures
    → leb 300 status_code ≡ false
    → let renewal : List Stimulus =
        event connected_event ∷ return_to_call ∷ answers_until failures status_code n in
      let t : Stage = run renewal (run es initial) in
      (last_told t.outputs ≡ some n)
      × (gets t.outputs ≡ gets (run es initial).outputs + suc (length failures))
unfolding run
reconnect_refreshes es failures status_code n idle on all_fail low =
    let s = run es initial in
    let known : s.outstanding ≡ 0 = ground (arith, one_get_at_a_time es, idle) in
    let told = run-IsTold es initial initial-IsTold in
    let up = connected_step s idle known on in
    let t = step return_to_call (step (event connected_event) s) in
    let end =
      refreshed failures status_code n t all_fail low
        (step-IsTold return_to_call (step (event connected_event) s)
          (step-IsTold (event connected_event) s told))
        up.0 in
    (end.0, omega (arith, end.1, up.1))
