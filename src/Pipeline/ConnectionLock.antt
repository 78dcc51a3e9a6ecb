-- ===== src/Pipeline/ConnectionLock.antt =====
-- `ConnectionLockStage` of
-- azure-iot-device/azure/iot/device/common/pipeline/pipeline_stages_base.py. The stages around it
-- share its thread, and each of its calls may come back into it before it returns. So the state
-- holds the release loops that are suspended in such a call, the innermost first, and a run is a
-- sequence of stimuli in any order.
pub mod Exclusion
pub mod Conservation
pub mod Release
pub mod Samples
use azure_iot_dev.Prelude.{
  ℕ, Bool, true, false, not, ◌&&◌, ◌||◌, Option, none, some, List, [], ◌∷◌, ◌++◌, ◌==◌,
  if◌then◌else◌,
}
use azure_iot_dev.Errors.{Error}
use azure_iot_dev.Pipeline.Ops.{Op, is_connect, is_disconnect, is_reauthorize}

-- What the stage has asked of the outside, in order.
pub data Output : Type 0 where
  sent_down : Op → Output
  completed : Op → Option Error → Output

-- A `while not old_queue.empty()` loop of `_unblock`.
pub record ReleaseLoop : Type 0 where
  pub old_queue : List Op
  pub error : Option Error

-- `connected` is the nucleus's. `in_flight` holds the operations that were sent down with
-- `on_operation_complete` among their callbacks, and `outputs` what was asked of the outside.
pub record Lock : Type 0 where
  pub queue : List Op
  pub blocked : Bool
  pub connected : Bool
  pub loops : List ReleaseLoop
  pub in_flight : List Op
  pub outputs : List Output

unfoldable pub initial : Lock
initial = record {
  queue = [];
  blocked = false;
  connected = false;
  loops = [];
  in_flight = [];
  outputs = [];
}

abbrev emit : Output → Lock → Lock
emit output s = record s { outputs = s.outputs ++ output ∷ [] }

abbrev block : Lock → Lock
block s = record s { blocked = true }

abbrev watch : Op → Lock → Lock
watch op s = record s { in_flight = op ∷ s.in_flight }

unfoldable pub run_op : Op → Lock → Lock
run_op op s =
    if s.blocked
    then record s { queue = s.queue ++ op ∷ [] }
    else if is_connect op.kind && s.connected
    then emit (completed op none) s
    else if is_disconnect op.kind && not s.connected
    then emit (completed op none) s
    else if is_disconnect op.kind || is_connect op.kind || is_reauthorize op.kind
    then emit (sent_down op) (watch op (block s))
    else emit (sent_down op) s

-- `_unblock` up to its loop: the queue is replaced, and the loop has the old one.
unfoldable pub unblock : Option Error → Lock → Lock
unblock error s = record s {
  blocked = false;
  queue = [];
  loops = record { old_queue = s.queue; error = error } ∷ s.loops;
}

-- The body of the loop.
unfoldable pub release_op : Option Error → Op → Lock → Lock
unfolding run_op
release_op (some error) op s = emit (completed op (some error)) s
release_op none op s = run_op op s

-- A round of a loop whose queue is given, with the loops around it.
unfoldable pub release : List Op → Option Error → List ReleaseLoop → Lock → Lock
unfolding release_op
release [] error outer s = record s { loops = outer }
release (op ∷ rest) error outer s =
    release_op error op (record s { loops = record { old_queue = rest; error = error } ∷ outer })

unfoldable pub resume : List ReleaseLoop → Lock → Lock
unfolding release
resume [] s = s
resume (loop ∷ outer) s = release loop.old_queue loop.error outer s

-- The operation with this number leaves those in flight.
abbrev pub without : ℕ → List Op → List Op
without id [] = []
without id (op ∷ rest) = if op.id == id then rest else op ∷ without id rest

abbrev pub has : ℕ → List Op → Bool
has id [] = false
has id (op ∷ rest) = op.id == id || has id rest

-- `on_operation_complete`, which an operation in flight calls when it completes.
unfoldable pub on_operation_complete : ℕ → Option Error → Lock → Lock
unfolding unblock
on_operation_complete id error s =
    if has id s.in_flight
    then unblock error (record s { in_flight = without id s.in_flight })
    else s

-- What may happen next: an operation arrives, one in flight completes, control comes back to the
-- innermost loop, or the root stage notes that the transport connected or disconnected.
pub data Stimulus : Type 0 where
  arrive : Op → Stimulus
  finish : ℕ → Option Error → Stimulus
  return_to_loop : Stimulus
  set_connected : Bool → Stimulus

unfoldable pub step : Stimulus → Lock → Lock
unfolding run_op on_operation_complete resume
step (arrive op) s = run_op op s
step (finish id error) s = on_operation_complete id error s
step return_to_loop s = resume s.loops s
step (set_connected b) s = record s { connected = b }

unfoldable pub run : List Stimulus → Lock → Lock
run [] s = s
run (e ∷ rest) s = run rest (step e s)
