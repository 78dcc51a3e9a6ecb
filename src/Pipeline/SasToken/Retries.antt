-- ===== src/Pipeline/SasToken/Retries.antt =====
-- A reauthorization that fails is retried until the connection is up again.
use mathlib.Core.List.{append_assoc, append-nil}
use azure_iot_dev.Pipeline.SasToken.Single.{shutdown_lem}
use azure_iot_dev.Prelude.{
  inl, inr, ℕ, suc, ◌+◌, ◌≡◌, refl, true, false, Option, none, some, List, [], ◌∷◌, ◌++◌, arith,
  length, ap, ◌∙◌, sym,
}
use azure_iot_dev.Errors.{Error}
use azure_iot_dev.Pipeline.Ops.{Op, shutdown}
use azure_iot_dev.Pipeline.SasToken.{
  Stage, Output, sent_down, sent_reauthorize, reported, reauthorize_connection,
  on_reauthorize_complete, reauthorize_completes, retry_expires, Stimulus, arrive, reauthorized,
  retry, step, run,
}

-- Each failure is followed by the expiry of the timer that it has started.
abbrev pub failing : ℕ → List Error → List Stimulus
failing timer [] = []
failing timer (e ∷ errors) = reauthorized (some e) ∷ retry timer ∷ failing (suc timer) errors

abbrev pub retried : List Error → List Output
retried [] = []
retried (e ∷ errors) = reported e ∷ sent_reauthorize ∷ retried errors

abbrev pub last_timer : ℕ → Option ℕ → List Error → Option ℕ
last_timer timer held [] = held
last_timer timer held (e ∷ errors) = last_timer (suc timer) (some timer) errors

-- The stage after so many retries.
abbrev pub after_retries : List Error → Stage → Stage
after_retries errors s = record s {
  reauth_retry_timer = last_timer s.next_timer s.reauth_retry_timer errors;
  next_timer = length errors + s.next_timer;
  outputs = s.outputs ++ retried errors;
}

one_retry :
    (timeout_max : ℕ) (e : Error) (s : Stage)
    → s.reauthorizing ≡ 1
    → s.running ≡ []
    → s.connected ≡ false
    → s.connection_retry ≡ true
    → run timeout_max (reauthorized (some e) ∷ retry s.next_timer ∷ []) s ≡ record s {
      reauth_retry_timer = some s.next_timer;
      next_timer = suc s.next_timer;
      outputs = (s.outputs ++ reported e ∷ []) ++ sent_reauthorize ∷ [];
    }
unfolding run step reauthorize_completes on_reauthorize_complete retry_expires
    reauthorize_connection
one_retry timeout_max e s one empty down configured = ground arith

run-append :
    (timeout_max : ℕ) (es fs : List Stimulus) (s : Stage)
    → run timeout_max (es ++ fs) s ≡ run timeout_max fs (run timeout_max es s)
unfolding run
run-append timeout_max [] fs s = refl
run-append timeout_max (e ∷ es) fs s = run-append timeout_max es fs (step timeout_max e s)

run-two :
    (timeout_max : ℕ) (d e : Stimulus) (es : List Stimulus) (s : Stage)
    → run timeout_max (d ∷ e ∷ es) s ≡ run timeout_max es (run timeout_max (d ∷ e ∷ []) s)
unfolding run
run-two timeout_max d e es s = refl

after_first :
    (e : Error) (errors : List Error) (s : Stage)
    → after_retries errors (record s {
      reauth_retry_timer = some s.next_timer;
      next_timer = suc s.next_timer;
      outputs = (s.outputs ++ reported e ∷ []) ++ sent_reauthorize ∷ [];
    })
      ≡ after_retries (e ∷ errors) s
after_first e errors s =
    let done = after_retries (e ∷ errors) s in
    let appended = ((s.outputs ++ reported e ∷ []) ++ sent_reauthorize ∷ []) ++ retried errors in
    let count : length errors + suc s.next_timer ≡ suc (length errors) + s.next_timer =
      omega arith in
    ap (λ n. record done { next_timer = n; outputs = appended }) count
    ∙ ap (λ o. record done { outputs = o })
        (append_assoc (s.outputs ++ reported e ∷ []) (sent_reauthorize ∷ []) (retried errors)
          ∙ append_assoc s.outputs (reported e ∷ []) (sent_reauthorize ∷ retried errors))

retries :
    (timeout_max : ℕ) (errors : List Error) (s : Stage)
    → s.reauthorizing ≡ 1
    → s.running ≡ []
    → s.connected ≡ false
    → s.connection_retry ≡ true
    → run timeout_max (failing s.next_timer errors) s ≡ after_retries errors s
unfolding run
retries timeout_max [] s one empty down configured =
    let zero : s.next_timer ≡ 0 + s.next_timer = omega arith in
    ap (λ n. record s { next_timer = n }) zero
    ∙ ap (λ o. record s { next_timer = 0 + s.next_timer; outputs = o }) (sym (append-nil s.outputs))
retries timeout_max (e ∷ errors) s one empty down configured =
    let next = record s {
      reauth_retry_timer = some s.next_timer;
      next_timer = suc s.next_timer;
      outputs = (s.outputs ++ reported e ∷ []) ++ sent_reauthorize ∷ [];
    } in
    ap (run timeout_max (failing (suc s.next_timer) errors))
      (one_retry timeout_max e s one empty down configured)
    ∙ retries timeout_max errors next one empty down configured
    ∙ after_first e errors s

succeeds :
    (timeout_max : ℕ) (s : Stage)
    → s.reauthorizing ≡ 1
    → run timeout_max (reauthorized none ∷ []) s ≡ record s { reauthorizing = 0 }
unfolding run step reauthorize_completes on_reauthorize_complete
succeeds timeout_max s one = ground arith

-- With connection retry, the one reauthorization that is under way while the connection is down is
-- reported and sent down again, when its retry timer expires, as often as it fails; once it
-- succeeds, none is under way and no timer runs.
pub reauthorization_persists :
    (timeout_max : ℕ) (errors : List Error) (s : Stage)
    → s.reauthorizing ≡ 1
    → s.running ≡ []
    → s.connected ≡ false
    → s.connection_retry ≡ true
    → run timeout_max (failing s.next_timer errors ++ reauthorized none ∷ []) s
      ≡ record (after_retries errors s) { reauthorizing = 0 }
reauthorization_persists timeout_max errors s one empty down configured =
    run-append timeout_max (failing s.next_timer errors) (reauthorized none ∷ []) s
    ∙ ap (run timeout_max (reauthorized none ∷ []))
        (retries timeout_max errors s one empty down configured)
    ∙ succeeds timeout_max (after_retries errors s) one

-- With connection retry, a reauthorization that is under way at the shutdown and fails after it,
-- while the connection is down, starts its retry timer all the same: when that expires, the stage
-- that was shut down sends another reauthorization.
pub late_failure_reauthorizes :
    (timeout_max now : ℕ) (op : Op) (e : Error) (s : Stage)
    → op.kind ≡ shutdown
    → s.reauthorizing ≡ 1
    → s.running ≡ []
    → s.connected ≡ false
    → s.connection_retry ≡ true
    → run timeout_max (arrive now op ∷ reauthorized (some e) ∷ retry s.next_timer ∷ []) s
      ≡ record s {
        token_update_alarm = none;
        reauth_retry_timer = some s.next_timer;
        next_timer = suc s.next_timer;
        outputs = ((s.outputs ++ sent_down op ∷ []) ++ reported e ∷ []) ++ sent_reauthorize ∷ [];
      }
unfolding run step
late_failure_reauthorizes timeout_max now op e s stops one empty down configured =
    ap (run timeout_max (reauthorized (some e) ∷ retry s.next_timer ∷ []))
      (shutdown_lem timeout_max now op s stops (inr (inl (one, empty))))
    ∙ one_retry timeout_max e
        (record s {
          token_update_alarm = none;
          reauth_retry_timer = none;
          running = [];
          outputs = s.outputs ++ sent_down op ∷ [];
        })
        one refl down configured
    ∙ ap
        (λ r. record s {
          token_update_alarm = none;
          reauth_retry_timer = some s.next_timer;
          running = r;
          next_timer = suc s.next_timer;
          outputs = ((s.outputs ++ sent_down op ∷ []) ++ reported e ∷ []) ++ sent_reauthorize ∷ [];
        })
        (sym empty)
