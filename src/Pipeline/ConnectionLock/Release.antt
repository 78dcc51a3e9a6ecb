-- ===== src/Pipeline/ConnectionLock/Release.antt =====
-- What the stage does with the operations that waited, when nothing else happens meanwhile.
use mathlib.Core.List.{append-nil, append_assoc}
use azure_iot_dev.Prelude.{
  ℕ, zero, suc, ◌≡◌, refl, ap, sym, ◌∙◌, true, false, Option, none, some, List, [], ◌∷◌, ◌++◌, map,
  arith, length,
}
use azure_iot_dev.Errors.{Error}
use azure_iot_dev.Pipeline.Ops.{Op, reauthorize}
use azure_iot_dev.Pipeline.ConnectionLock.{
  Lock, ReleaseLoop, Output, sent_down, completed, Stimulus, finish, return_to_loop, run_op,
  release, resume, on_operation_complete, has, without, step, run,
}

-- Control comes back to the innermost loop so many times in a row.
abbrev pub returns : ℕ → List Stimulus
returns zero = []
returns (suc n) = return_to_loop ∷ returns n

abbrev with_loop : List Op → Option Error → List ReleaseLoop → Lock → Lock
with_loop queue error outer s = record s {
  loops = record { old_queue = queue; error = error } ∷ outer;
}

abbrev pub failures : Error → List Op → List Output
failures error = map (λ op. completed op (some error))

run-failing :
    (error : Error) (queue : List Op) (outer : List ReleaseLoop) (s : Lock)
    → run (returns (suc (length queue))) (with_loop queue (some error) outer s)
      ≡ record s { loops = outer; outputs = s.outputs ++ failures error queue }
unfolding run step resume release
run-failing error [] outer s = rw append-nil
run-failing error (op ∷ queue) outer s =
    run-failing error queue outer
      (record s { outputs = s.outputs ++ completed op (some error) ∷ [] })
    ∙ ap (λ all. record s { loops = outer; outputs = all })
        (append_assoc s.outputs (completed op (some error) ∷ []) (failures error queue))

-- The state once the operation in flight has completed, before the waiting ones are released.
abbrev pub landed : ℕ → Lock → Lock
landed id s = record s { queue = []; blocked = false; in_flight = without id s.in_flight }

complete-landed :
    (id : ℕ) (error : Option Error) (s : Lock)
    → has id s.in_flight ≡ true
    → on_operation_complete id error s ≡ with_loop s.queue error s.loops (landed id s)
unfolding on_operation_complete
complete-landed id error s flying = rw flying

-- When the operation in flight fails, the operations that waited are completed with the same
-- error, in the order in which they came, and the stage lets operations past again.
pub fail_releases_all :
    (id : ℕ) (error : Error) (s : Lock)
    → has id s.in_flight ≡ true
    → run (finish id (some error) ∷ returns (suc (length s.queue))) s ≡ record s {
      queue = [];
      blocked = false;
      in_flight = without id s.in_flight;
      outputs = s.outputs ++ failures error s.queue;
    }
unfolding run step
fail_releases_all id error s flying =
    ap (λ t. run (returns (suc (length s.queue))) t) (complete-landed id (some error) s flying)
    ∙ run-failing error s.queue s.loops (landed id s)

-- The operations run through the stage one after another, as if they arrived anew.
abbrev pub run_ops : List Op → Lock → Lock
run_ops [] s = s
run_ops (op ∷ rest) s = run_ops rest (run_op op s)

run_op-loops :
    (op : Op) (loops : List ReleaseLoop) (s : Lock)
    → run_op op (record s { loops = loops }) ≡ record (run_op op s) { loops = loops }
unfolding run_op
run_op-loops op loops s = ground arith

run-releasing :
    (queue : List Op) (outer : List ReleaseLoop) (s : Lock)
    → run (returns (suc (length queue))) (with_loop queue none outer s)
      ≡ record (run_ops queue s) { loops = outer }
unfolding run step resume release
run-releasing [] outer s = refl
run-releasing (op ∷ queue) outer s =
    ap (λ t. run (returns (suc (length queue))) t)
      (run_op-loops op (record { old_queue = queue; error = none } ∷ outer) s)
    ∙ run-releasing queue outer (run_op op s)

-- When the operation in flight succeeds, the operations that waited run through the stage again
-- in the order in which they came, from an empty queue: what they do to the stage is what they
-- would do if they arrived then.
pub success_reruns_all :
    (id : ℕ) (s : Lock)
    → has id s.in_flight ≡ true
    → run (finish id none ∷ returns (suc (length s.queue))) s
      ≡ record (run_ops s.queue (landed id s)) { loops = s.loops }
unfolding run step
success_reruns_all id s flying =
    ap (λ t. run (returns (suc (length s.queue))) t) (complete-landed id none s flying)
    ∙ run-releasing s.queue s.loops (landed id s)

run_op-blocked :
    (op : Op) (s : Lock) → s.blocked ≡ true → run_op op s ≡ record s { queue = s.queue ++ op ∷ [] }
unfolding run_op
run_op-blocked op s held = rw held

run_ops-blocked :
    (ops : List Op) (s : Lock)
    → s.blocked ≡ true
    → run_ops ops s ≡ record s { queue = s.queue ++ ops }
run_ops-blocked [] s held = ap (λ all. record s { queue = all }) (sym (append-nil s.queue))
run_ops-blocked (op ∷ ops) s held =
    ap (run_ops ops) (run_op-blocked op s held)
    ∙ run_ops-blocked ops (record s { queue = s.queue ++ op ∷ [] }) held
    ∙ ap (λ all. record s { queue = all }) (append_assoc s.queue (op ∷ []) ops)

-- The operation goes down and is watched; those behind it wait again.
abbrev pub relocked : Op → List Op → Lock → Lock
relocked op rest s = record s {
  queue = rest;
  blocked = true;
  in_flight = op ∷ s.in_flight;
  outputs = s.outputs ++ sent_down op ∷ [];
}

run_op-reauthorize :
    (op : Op) (s : Lock)
    → op.kind ≡ reauthorize
    → s.blocked ≡ false
    → s.queue ≡ []
    → run_op op s ≡ relocked op [] s
unfolding run_op
run_op-reauthorize op s kind released empty = ground arith

-- When the operation in flight succeeds and the first operation that waited is a reauthorization,
-- that one alone goes down: all behind it wait again, in the order in which they came.
pub reauthorize_relocks :
    (id : ℕ) (op : Op) (rest : List Op) (s : Lock)
    → has id s.in_flight ≡ true
    → s.queue ≡ op ∷ rest
    → op.kind ≡ reauthorize
    → run (finish id none ∷ returns (suc (length s.queue))) s
      ≡ relocked op rest (record s { blocked = false; in_flight = without id s.in_flight })
reauthorize_relocks id op rest s flying waits kind =
    success_reruns_all id s flying
    ∙ ap (λ ops. record (run_ops ops (landed id s)) { loops = s.loops }) waits
    ∙ ap (λ t. record (run_ops rest t) { loops = s.loops })
        (run_op-reauthorize op (landed id s) kind refl refl)
    ∙ ap {A = Lock} (λ t. record t { loops = s.loops })
        (run_ops-blocked rest (relocked op [] (landed id s)) refl)
