-- ===== src/Pipeline/Connection/Balance.antt =====
-- The connection operations between the lock and the transport: each one that the lock waits for is
-- on its way down, under way in the transport, or on its way up.
use azure_iot_dev.Prelude.{
  ℕ, ◌+◌, ◌≡◌, refl, Bool, true, Option, none, some, List, [], ◌∷◌, ◌++◌, arith, all, if◌then◌else◌,
}
use azure_iot_dev.Errors.{Error}
use azure_iot_dev.Pipeline.Ops.{Op}
use azure_iot_dev.Pipeline.ConnectionLock
use azure_iot_dev.Pipeline.ConnectionLock.{Lock, ReleaseLoop, release, resume, release_op}
use azure_iot_dev.Pipeline.MqttTransport
use azure_iot_dev.Pipeline.MqttTransport.{Stage}
use azure_iot_dev.Pipeline.MqttTransport.Kinds.{is_connection}
use azure_iot_dev.Pipeline.MqttTransport.Counts.{in_ops, answered}
use azure_iot_dev.Pipeline.Connection.{sent, returned}

-- Only connection operations count.
abbrev pub only : (Op → ℕ) → Op → ℕ
only w op = if is_connection op.kind then w op else 0

abbrev pub in_up : (Op → ℕ) → List (Op × Option Error) → ℕ
in_up w [] = 0
in_up w ((op, error) ∷ rest) = w op + in_up w rest

pub in_ops-append : (w : Op → ℕ) (xs ys : List Op) → in_ops w (xs ++ ys) ≡ in_ops w xs + in_ops w ys
in_ops-append w [] ys = omega arith
in_ops-append w (x ∷ xs) ys = omega (arith, in_ops-append w xs ys)

pub in_up-append :
    (w : Op → ℕ) (xs ys : List (Op × Option Error)) → in_up w (xs ++ ys) ≡ in_up w xs + in_up w ys
in_up-append w [] ys = omega arith
in_up-append w ((x, e) ∷ xs) ys = omega (arith, in_up-append w xs ys)

pub returned-answered :
    (w : Op → ℕ) (os : List MqttTransport.Output) → in_up w (returned os) ≡ answered w os
returned-answered w [] = refl
returned-answered w (MqttTransport.completed op error ∷ os) = omega (arith, returned-answered w os)
returned-answered w (MqttTransport.sent_down op ∷ os) = omega (arith, returned-answered w os)
returned-answered w (MqttTransport.sent_up e ∷ os) = omega (arith, returned-answered w os)
returned-answered w (MqttTransport.reported e ∷ os) = omega (arith, returned-answered w os)
returned-answered w (MqttTransport.called_connect ∷ os) = omega (arith, returned-answered w os)
returned-answered w (MqttTransport.called_shutdown ∷ os) = omega (arith, returned-answered w os)
returned-answered w (MqttTransport.called_disconnect b ∷ os) = omega (arith, returned-answered w os)
returned-answered w (MqttTransport.requested op ∷ os) = omega (arith, returned-answered w os)

-- What a step of the lock takes in flight is what it sends down.
abbrev pub Takes : (Op → ℕ) → Lock → Lock → Type 0
Takes w s after =
    in_ops (only w) after.in_flight
    ≡ in_ops (only w) s.in_flight + in_ops (only w) (sent after.outputs)

-- Only connection operations are in flight.
abbrev pub AreConnections : Lock → Type 0
AreConnections s = all (λ op. is_connection op.kind) s.in_flight ≡ true

pub run_op-Takes :
    (w : Op → ℕ) (op : Op) (s : Lock) → s.outputs ≡ [] → Takes w s (ConnectionLock.run_op op s)
unfolding ConnectionLock.run_op
run_op-Takes w op s e = ground (arith, e)

pub run_op-AreConnections :
    (op : Op) (s : Lock) → AreConnections s → AreConnections (ConnectionLock.run_op op s)
unfolding ConnectionLock.run_op
run_op-AreConnections op s h = ground (arith, h)

release-Takes :
    (w : Op → ℕ) (queue : List Op) (error : Option Error) (outer : List ReleaseLoop) (s : Lock)
    → s.outputs ≡ []
    → Takes w s (release queue error outer s)
unfolding release release_op
release-Takes w [] error outer s e = ground (arith, e)
release-Takes w (op ∷ rest) (some x) outer s e = ground (arith, e)
release-Takes w (op ∷ rest) none outer s e =
    run_op-Takes w op (record s { loops = record { old_queue = rest; error = none } ∷ outer }) e

release-AreConnections :
    (queue : List Op) (error : Option Error) (outer : List ReleaseLoop) (s : Lock)
    → AreConnections s
    → AreConnections (release queue error outer s)
unfolding release release_op
release-AreConnections [] error outer s h = h
release-AreConnections (op ∷ rest) (some x) outer s h = h
release-AreConnections (op ∷ rest) none outer s h =
    run_op-AreConnections op
      (record s { loops = record { old_queue = rest; error = none } ∷ outer }) h

pub resume-Takes :
    (w : Op → ℕ) (loops : List ReleaseLoop) (s : Lock) → s.outputs ≡ [] → Takes w s (resume loops s)
unfolding resume
resume-Takes w [] s e = ground (arith, e)
resume-Takes w (loop ∷ outer) s e = release-Takes w loop.old_queue loop.error outer s e

pub resume-AreConnections :
    (loops : List ReleaseLoop) (s : Lock) → AreConnections s → AreConnections (resume loops s)
unfolding resume
resume-AreConnections [] s h = h
resume-AreConnections (loop ∷ outer) s h =
    release-AreConnections loop.old_queue loop.error outer s h

-- The steps of the lock that are no completion.
pub arrive-Takes :
    (w : Op → ℕ) (op : Op) (s : Lock)
    → s.outputs ≡ []
    → Takes w s (ConnectionLock.step (ConnectionLock.arrive op) s)
unfolding ConnectionLock.step
arrive-Takes w op s e = run_op-Takes w op s e

pub arrive-AreConnections :
    (op : Op) (s : Lock)
    → AreConnections s
    → AreConnections (ConnectionLock.step (ConnectionLock.arrive op) s)
unfolding ConnectionLock.step
arrive-AreConnections op s h = run_op-AreConnections op s h

pub return-Takes :
    (w : Op → ℕ) (s : Lock)
    → s.outputs ≡ []
    → Takes w s (ConnectionLock.step ConnectionLock.return_to_loop s)
unfolding ConnectionLock.step
return-Takes w s e = resume-Takes w s.loops s e

pub return-AreConnections :
    (s : Lock)
    → AreConnections s
    → AreConnections (ConnectionLock.step ConnectionLock.return_to_loop s)
unfolding ConnectionLock.step
return-AreConnections s h = resume-AreConnections s.loops s h

pub connected-Takes :
    (w : Op → ℕ) (b : Bool) (s : Lock)
    → s.outputs ≡ []
    → Takes w s (ConnectionLock.step (ConnectionLock.set_connected b) s)
unfolding ConnectionLock.step
connected-Takes w b s e = ground (arith, e)

pub connected-AreConnections :
    (b : Bool) (s : Lock)
    → AreConnections s
    → AreConnections (ConnectionLock.step (ConnectionLock.set_connected b) s)
unfolding ConnectionLock.step
connected-AreConnections b s h = h
