-- ===== src/Pipeline/ConnectionLock/Conservation.antt =====
-- No operation is lost or handled twice on its way through the stage.
use azure_iot_dev.Prelude.{
  ℕ, ◌+◌, ◌≡◌, refl, Option, none, some, List, [], ◌∷◌, ◌++◌, arith, if◌then◌else◌, ◌==◌,
}
use azure_iot_dev.Errors.{Error}
use azure_iot_dev.Pipeline.Ops.{Op}
use azure_iot_dev.Pipeline.ConnectionLock.{
  Lock, ReleaseLoop, Output, sent_down, completed, Stimulus, arrive, finish, return_to_loop,
  set_connected, initial, run_op, release, resume, on_operation_complete, step, run,
}

abbrev hit : ℕ → Op → ℕ
hit id op = if op.id == id then 1 else 0

abbrev in_queue : ℕ → List Op → ℕ
in_queue id [] = 0
in_queue id (op ∷ rest) = hit id op + in_queue id rest

abbrev in_loops : ℕ → List ReleaseLoop → ℕ
in_loops id [] = 0
in_loops id (loop ∷ rest) = in_queue id loop.old_queue + in_loops id rest

abbrev in_output : ℕ → Output → ℕ
in_output id (sent_down op) = hit id op
in_output id (completed op error) = hit id op

-- How often the stage has sent the operation down or completed it.
abbrev pub handled : ℕ → List Output → ℕ
handled id [] = 0
handled id (output ∷ rest) = in_output id output + handled id rest

-- How often the operation waits in the queue or in a release loop.
abbrev pub waiting : ℕ → Lock → ℕ
waiting id s = in_queue id s.queue + in_loops id s.loops

abbrev arrives : ℕ → Stimulus → ℕ
arrives id (arrive op) = hit id op
arrives id _ = 0

abbrev pub arrivals : ℕ → List Stimulus → ℕ
arrivals id [] = 0
arrivals id (e ∷ rest) = arrives id e + arrivals id rest

in_queue-append :
    (id : ℕ) (xs ys : List Op) → in_queue id (xs ++ ys) ≡ in_queue id xs + in_queue id ys
in_queue-append id [] ys = omega arith
in_queue-append id (x ∷ xs) ys = omega (arith, in_queue-append id xs ys)

handled-append :
    (id : ℕ) (xs ys : List Output) → handled id (xs ++ ys) ≡ handled id xs + handled id ys
handled-append id [] ys = omega arith
handled-append id (x ∷ xs) ys = omega (arith, handled-append id xs ys)

module _ (id : ℕ) where
  abbrev total : Lock → ℕ
  total s = handled id s.outputs + waiting id s

  total-run_op : (op : Op) (s : Lock) → total (run_op op s) ≡ total s + hit id op
  unfolding run_op
  total-run_op op s = ground (
    arith,
    in_queue-append id s.queue (op ∷ []),
    handled-append id s.outputs (completed op none ∷ []),
    handled-append id s.outputs (sent_down op ∷ []),
  )

  total-release :
      (queue : List Op) (error : Option Error) (outer : List ReleaseLoop) (s : Lock)
      → total (release queue error outer s)
        ≡ handled id s.outputs + in_queue id s.queue + in_queue id queue + in_loops id outer
  unfolding release
  total-release [] error outer s = ground arith
  total-release (op ∷ rest) none outer s = ground (
    arith,
    total-run_op op (record s { loops = record { old_queue = rest; error = none } ∷ outer }),
  )
  total-release (op ∷ rest) (some e) outer s =
      ground (arith, handled-append id s.outputs (completed op (some e) ∷ []))

  total-resume :
      (loops : List ReleaseLoop) (s : Lock) → s.loops ≡ loops → total (resume loops s) ≡ total s
  unfolding resume
  total-resume [] s e = omega arith
  total-resume (loop ∷ outer) s e = ground (arith, total-release loop.old_queue loop.error outer s)

  total_complete :
      (i : ℕ) (error : Option Error) (s : Lock) → total (on_operation_complete i error s) ≡ total s
  unfolding on_operation_complete
  total_complete i error s = ground arith

  total-step : (e : Stimulus) (s : Lock) → total (step e s) ≡ total s + arrives id e
  unfolding step
  total-step (arrive op) s = total-run_op op s
  total-step (finish i error) s = omega (arith, total_complete i error s)
  total-step return_to_loop s = omega (arith, total-resume s.loops s refl)
  total-step (set_connected b) s = omega arith

  total-run : (es : List Stimulus) (s : Lock) → total (run es s) ≡ total s + arrivals id es
  unfolding run
  total-run [] s = omega arith
  total-run (e ∷ es) s = omega (arith, total-run es (step e s), total-step e s)

  -- Whatever happens, and in any order: each operation was sent down or completed by the stage, or
  -- waits in it, exactly as often in all as it has arrived.
  pub lock_conserves :
      (es : List Stimulus)
      → handled id (run es initial).outputs + waiting id (run es initial) ≡ arrivals id es
  unfolding initial
  lock_conserves es = omega (arith, total-run es initial)
