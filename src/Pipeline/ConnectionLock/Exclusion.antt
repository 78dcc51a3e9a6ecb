-- ===== src/Pipeline/ConnectionLock/Exclusion.antt =====
-- At most one connect, disconnect or reauthorize operation is past the stage at a time.
use azure_iot_dev.Prelude.{
  ℕ, ◌⊎◌, ◌≡◌, refl, true, false, Option, none, some, List, [], ◌∷◌, arith, length, ap, inl, inr,
  Bool-cases,
}
use azure_iot_dev.Errors.{Error}
use azure_iot_dev.Pipeline.Ops.{Op}
use azure_iot_dev.Pipeline.ConnectionLock.{
  Lock, ReleaseLoop, Stimulus, arrive, finish, return_to_loop, set_connected, initial, run_op,
  release, resume, on_operation_complete, step, run,
}

-- The stage is blocked exactly while one operation is in flight, and holds no operation back
-- in its queue otherwise.
pub record IsGuarded (s : Lock) : Type 0 where
  pub free : s.blocked ≡ false → s.in_flight ≡ []
  pub one : s.blocked ≡ true → length s.in_flight ≡ 1
  pub no_wait : s.blocked ≡ false → s.queue ≡ []

run_op-IsGuarded : (op : Op) (s : Lock) → IsGuarded s → IsGuarded (run_op op s)
unfolding run_op
run_op-IsGuarded op s h = ground arith

release-IsGuarded :
    (queue : List Op) (error : Option Error) (outer : List ReleaseLoop) (s : Lock)
    → IsGuarded s
    → IsGuarded (release queue error outer s)
unfolding release
release-IsGuarded [] error outer s h = ground arith
release-IsGuarded (op ∷ rest) none outer s h = run_op-IsGuarded op _ (ground arith)
release-IsGuarded (op ∷ rest) (some e) outer s h = ground arith

resume-IsGuarded : (loops : List ReleaseLoop) (s : Lock) → IsGuarded s → IsGuarded (resume loops s)
unfolding resume
resume-IsGuarded [] s h = h
resume-IsGuarded (loop ∷ outer) s h = release-IsGuarded loop.old_queue loop.error outer s h

complete-IsGuarded :
    (id : ℕ) (error : Option Error) (flying : List Op) (s : Lock)
    → s.in_flight ≡ flying
    → IsGuarded s
    → IsGuarded (on_operation_complete id error s)
unfolding on_operation_complete
complete-IsGuarded id error [] s e h = ground arith
complete-IsGuarded id error (op ∷ []) s e h = ground arith
complete-IsGuarded id error (op ∷ p ∷ rest) s e h = elim (Bool-cases s.blocked) [
  | inl held ↦ absurd (omega (arith, h.one held, ap (length {0}) e))
  | inr released ↦ cc (h.free released, e)
]

pub step-IsGuarded : (e : Stimulus) (s : Lock) → IsGuarded s → IsGuarded (step e s)
unfolding step
step-IsGuarded (arrive op) s h = run_op-IsGuarded op s h
step-IsGuarded (finish id error) s h = complete-IsGuarded id error s.in_flight s refl h
step-IsGuarded return_to_loop s h = resume-IsGuarded s.loops s h
step-IsGuarded (set_connected b) s h = ground arith

run-IsGuarded : (es : List Stimulus) (s : Lock) → IsGuarded s → IsGuarded (run es s)
unfolding run
run-IsGuarded [] s h = h
run-IsGuarded (e ∷ es) s h = run-IsGuarded es _ (step-IsGuarded e s h)

pub initial-IsGuarded : IsGuarded initial
unfolding initial
initial-IsGuarded = ground arith

pub one_or_none :
    (s : Lock) → IsGuarded s → (length s.in_flight ≡ 1) ⊎ (s.in_flight ≡ [] × s.queue ≡ [])
one_or_none s h = elim (Bool-cases s.blocked) [
  | inl held ↦ inl (h.one held)
  | inr released ↦ inr (h.free released, h.no_wait released)
]

-- Whatever arrives, completes or returns, in any order, either exactly one connect, disconnect or
-- reauthorize operation that the stage sent down is still in flight, or there is none and the
-- queue is empty too.
pub lock_exclusion :
    (es : List Stimulus)
    → (length (run es initial).in_flight ≡ 1)
      ⊎ ((run es initial).in_flight ≡ [] × (run es initial).queue ≡ [])
lock_exclusion es = one_or_none _ (run-IsGuarded es initial initial-IsGuarded)
