-- ===== src/Pipeline/Connection/Exclusion.antt =====
-- The lock keeps connection operations from replacing each other in the transport: the runs.
use azure_iot_dev.Prelude.{◌≡◌, refl, Bool, true, none, List, [], ◌∷◌, arith, all, if_ind}
use azure_iot_dev.Pipeline.Ops.{Op}
use azure_iot_dev.Pipeline.ConnectionLock
use azure_iot_dev.Pipeline.ConnectionLock.{Lock}
use azure_iot_dev.Pipeline.ConnectionLock.Exclusion.{IsGuarded, step-IsGuarded, initial-IsGuarded}
use azure_iot_dev.Pipeline.MqttTransport
use azure_iot_dev.Pipeline.MqttTransport.{Stage, Raises, ConnectionOp, op_of}
use azure_iot_dev.Pipeline.MqttTransport.Kinds.{is_connection}
use azure_iot_dev.Pipeline.Connection.{
  Pair, start, quiet_lock, Move, arrive, return_to_lock, set_connected, in_transport, pass_down,
  pass_up, is_arrival, step, run,
}
use azure_iot_dev.Pipeline.Connection.Balance.{
  arrive-Takes, arrive-AreConnections, return-Takes, return-AreConnections, connected-Takes,
  connected-AreConnections,
}
use azure_iot_dev.Pipeline.Connection.Protection.{IsProtected, lock-IsProtected}
use azure_iot_dev.Pipeline.Connection.Moves.{
  waiting_free, not_initialize, down-IsProtected, inner-IsProtected, up-IsProtected,
}

-- No initialization comes down in the run.
abbrev pub is_allowed : Move → Pair → Bool
is_allowed (pass_down r) j = all (λ op. not_initialize op.kind) j.down
is_allowed _ j = true

abbrev pub AllAllowed : List Move → Pair → Type 0
AllAllowed [] j = Unit
AllAllowed (e ∷ es) j = (is_allowed e j ≡ true) × AllAllowed es (step e j)

quiet-IsGuarded : (s : Lock) → IsGuarded s → IsGuarded (quiet_lock s)
quiet-IsGuarded s h = record { free = h.free; one = h.one; no_wait = h.no_wait }

step-IsProtected :
    (e : Move) (j : Pair) → is_allowed e j ≡ true → IsProtected j → IsProtected (step e j)
unfolding step
step-IsProtected (arrive op) j fine h =
    lock-IsProtected (ConnectionLock.step (ConnectionLock.arrive op) (quiet_lock j.lock)) j h
      (step-IsGuarded (ConnectionLock.arrive op) (quiet_lock j.lock)
        (quiet-IsGuarded j.lock h.guarded))
      (arrive-AreConnections op (quiet_lock j.lock) h.connections)
      (λ w. arrive-Takes w op (quiet_lock j.lock) refl)
step-IsProtected return_to_lock j fine h =
    lock-IsProtected (ConnectionLock.step ConnectionLock.return_to_loop (quiet_lock j.lock)) j h
      (step-IsGuarded ConnectionLock.return_to_loop (quiet_lock j.lock)
        (quiet-IsGuarded j.lock h.guarded))
      (return-AreConnections (quiet_lock j.lock) h.connections)
      (λ w. return-Takes w (quiet_lock j.lock) refl)
step-IsProtected (set_connected b) j fine h =
    lock-IsProtected (ConnectionLock.step (ConnectionLock.set_connected b) (quiet_lock j.lock)) j h
      (step-IsGuarded (ConnectionLock.set_connected b) (quiet_lock j.lock)
        (quiet-IsGuarded j.lock h.guarded))
      (connected-AreConnections b (quiet_lock j.lock) h.connections)
      (λ w. connected-Takes w b (quiet_lock j.lock) refl)
step-IsProtected (in_transport e) j fine h =
    if_ind IsProtected (is_arrival e) (λ outer. h) (λ inner. inner-IsProtected e j inner h)
step-IsProtected (pass_down r) j fine h = down-IsProtected r j.down j refl fine h
step-IsProtected pass_up j fine h = up-IsProtected j.up j refl h

run-IsProtected :
    (es : List Move) (j : Pair) → AllAllowed es j → IsProtected j → IsProtected (run es j)
unfolding run
run-IsProtected [] j fine h = h
run-IsProtected (e ∷ es) j fine h =
    run-IsProtected es (step e j) fine.1 (step-IsProtected e j fine.0 h)

start-IsProtected : (retry : Bool) → IsProtected (start retry)
unfolding start MqttTransport.initial ConnectionLock.initial
start-IsProtected retry = record {
  guarded = initial-IsGuarded;
  connections = refl;
  watched = record { clean = refl; guarded = refl };
  kinds = refl;
  balance = λ w. omega arith;
}

-- Once the pipeline is initialized, and whatever arrives at the lock, in whatever order operations
-- and their completions are handed on, and whatever the transport, its watchdogs and the connection
-- do: when a connect, a disconnect or a reauthorization reaches the transport stage, no operation is
-- pending there. So the lock meets the condition under which the transport stage keeps its own
-- promises, and no connection operation is cancelled by another one.
pub lock_protects_transport :
    (retry : Bool) (es : List Move) (op : Op) (rest : List Op)
    → AllAllowed es (start retry)
    → (run es (start retry)).down ≡ op ∷ rest
    → is_connection op.kind ≡ true
    → (run es (start retry)).transport.pending_connection_op ≡ none
lock_protects_transport retry es op rest fine e kind =
    waiting_free op rest (run es (start retry))
      (run-IsProtected es (start retry) fine (start-IsProtected retry)) e kind
