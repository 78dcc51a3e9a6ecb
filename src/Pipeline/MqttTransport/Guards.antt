-- ===== src/Pipeline/MqttTransport/Guards.antt =====
-- The watchdogs that run are those of the pending operation: the operations keep this.
use azure_iot_dev.Prelude.{
  ℕ, ◌≡◌, ==_iff, refl, Bool, true, false, not, ◌||◌, Option, none, some, List, [], ◌∷◌, arith,
  is_some, ◌⊎◌, inl, inr, Option-cases, if_ind,
}
use azure_iot_dev.Errors.{Error}
use azure_iot_dev.Pipeline.Ops.{
  Op, OpKind, initialize, shutdown, connect, disconnect, reauthorize, mqtt_publish, mqtt_subscribe,
  mqtt_unsubscribe,
}
use azure_iot_dev.Pipeline.MqttTransport.{
  ConnectionOp, own, reauth_disconnect, reauth_connect, is_connect_op, Rest, start_op,
  rest_of_watchdog, Raises, Stage, emit, called_shutdown, without, raised, disconnect_outcome,
  start_connect, complete_op, start_disconnect, start, cancel_pending, run_connection_op,
  shutdown_outcome, initialize_outcome, run_request, run_kind,
}

-- No operation is to be started after a cancellation.
abbrev pub no_start : List Rest → Bool
no_start [] = true
no_start (start_op c ∷ rest) = false
no_start (_ ∷ rest) = no_start rest

-- A watchdog has expired and its function is suspended.
abbrev pub barks : List Rest → Bool
barks [] = false
barks (rest_of_watchdog ∷ rest) = true
barks (_ ∷ rest) = barks rest

-- The watchdogs that run, for the operation that is pending.
abbrev pub Guards : Option (ℕ × ConnectionOp) → List ℕ → Bool → Type 0
Guards none running barking = running ≡ []
Guards (some (n, c)) running barking =
    (is_connect_op c ≡ false × running ≡ [])
    ⊎ (is_connect_op c ≡ true × running ≡ n ∷ [])
    ⊎ (is_connect_op c ≡ true × running ≡ [] × barking ≡ true)

pub record IsWatched (s : Stage) : Type 0 where
  pub clean : no_start s.suspended ≡ true
  pub guarded : Guards s.pending_connection_op s.watchdogs (barks s.suspended)

-- An operation that replaces the pending one arrives only when there is none.
abbrev pub replaces_pending : OpKind → Bool
replaces_pending initialize = true
replaces_pending connect = true
replaces_pending disconnect = true
replaces_pending reauthorize = true
replaces_pending _ = false

-- Nothing is pending and nothing is guarded.
pub record IsIdle (s : Stage) : Type 0 where
  pub clean : no_start s.suspended ≡ true
  pub empty : s.pending_connection_op ≡ none
  pub still : s.watchdogs ≡ []

connect-IsWatched :
    (r : Raises) (c : ConnectionOp) (s : Stage)
    → is_connect_op c ≡ true
    → IsIdle s
    → IsWatched (start_connect r c s)
unfolding start_connect
connect-IsWatched r c s kind h = elim (Option-cases (raised s.transport r.connect_raises)) [
  | inl fine ↦ ground (arith, fine)
  | inr (e, fails) ↦ ground (arith, fails)
]

pub complete-IsWatched :
    (r : Raises) (c : ConnectionOp) (error : Option Error) (s : Stage)
    → IsIdle s
    → IsWatched (complete_op r c error s)
unfolding complete_op
complete-IsWatched r (own op) error s h = ground arith
complete-IsWatched r (reauth_disconnect op) error s h =
    connect-IsWatched r (reauth_connect op) s refl h
complete-IsWatched r (reauth_connect op) error s h = ground arith

disconnect_outcome-IsWatched :
    (r : Raises) (error : Option Error) (n : ℕ) (c : ConnectionOp) (s : Stage)
    → is_connect_op c ≡ false
    → IsIdle s
    → IsWatched (disconnect_outcome r error n c s)
disconnect_outcome-IsWatched r none n c s kind h = ground arith
disconnect_outcome-IsWatched r (some e) n c s kind h =
    complete-IsWatched r c (some e) (record s { pending_connection_op = none }) (ground arith)

disconnect-IsWatched :
    (r : Raises) (c : ConnectionOp) (s : Stage)
    → is_connect_op c ≡ false
    → IsIdle s
    → IsWatched (start_disconnect r c s)
unfolding start_disconnect
disconnect-IsWatched r c s kind h =
    disconnect_outcome-IsWatched r (raised s.transport r.disconnect_raises) s.next_number c _ kind
      (ground arith)

pub start-IsWatched :
    (r : Raises) (c : ConnectionOp) (s : Stage) → IsIdle s → IsWatched (start r c s)
start-IsWatched r c s h =
    if_ind IsWatched (is_connect_op c) (λ holds. connect-IsWatched r c s holds h)
      (λ fails. disconnect-IsWatched r c s fails h)

IsIdle-of_none : (s : Stage) → s.pending_connection_op ≡ none → IsWatched s → IsIdle s
IsIdle-of_none s e h = ground arith

-- The pending operation's watchdog is the only one that runs.
pub cancelled-still :
    (n : ℕ) (c : ConnectionOp) (running : List ℕ) (barking : Bool)
    → Guards (some (n, c)) running barking
    → without n running ≡ []
cancelled-still n c running barking h = ground (arith, ==_iff n n)

pub cancel-IsWatched :
    (r : Raises) (error : Error) (found : Option (ℕ × ConnectionOp)) (s : Stage)
    → s.pending_connection_op ≡ found
    → no_start s.suspended ≡ true
    → (barking : Bool) → Guards found s.watchdogs barking
    → IsWatched (cancel_pending r error found s)
unfolding cancel_pending
cancel-IsWatched r error none s e clean barking h = ground arith
cancel-IsWatched r error (some (n, c)) s e clean barking h =
    complete-IsWatched r c (some error) _
      (record { clean = clean; empty = refl; still = cancelled-still n c s.watchdogs barking h })

run_connection_op-IsWatched :
    (r : Raises) (c : ConnectionOp) (s : Stage)
    → is_some s.pending_connection_op ≡ false
    → IsWatched s
    → IsWatched (run_connection_op r c s)
unfolding run_connection_op
run_connection_op-IsWatched r c s free h =
    rw free (start-IsWatched r c s (IsIdle-of_none s (ground (arith, free)) h))

request-IsWatched :
    (r : Raises) (op : Op) (s : Stage) → IsWatched s → IsWatched (run_request r op s)
request-IsWatched r op s h = elim (Option-cases (raised s.transport r.request_raises)) [
  | inl fine ↦ ground (arith, fine)
  | inr (e, fails) ↦ ground (arith, fails)
]

shutdown-IsWatched :
    (error : Option Error) (op : Op) (s : Stage)
    → IsWatched s
    → IsWatched (shutdown_outcome error op s)
shutdown-IsWatched none op s h = ground arith
shutdown-IsWatched (some e) op s h = ground arith

initialize-IsWatched :
    (error : Option Error) (op : Op) (s : Stage)
    → is_some s.pending_connection_op ≡ false
    → IsWatched s
    → IsWatched (initialize_outcome error op s)
initialize-IsWatched none op s free h = ground arith
initialize-IsWatched (some e) op s free h = ground arith

pub run_kind-IsWatched :
    (kind : OpKind) (r : Raises) (op : Op) (s : Stage)
    → (not (replaces_pending kind) || not (is_some s.pending_connection_op)) ≡ true
    → IsWatched s
    → IsWatched (run_kind kind r op s)
unfolding run_kind
run_kind-IsWatched initialize r op s free h =
    initialize-IsWatched r.create_raises op s (ground arith) h
run_kind-IsWatched shutdown r op s free h =
    shutdown-IsWatched (raised s.transport r.shutdown_raises) op (emit called_shutdown s)
      (ground arith)
run_kind-IsWatched connect r op s free h = run_connection_op-IsWatched r (own op) s (ground arith) h
run_kind-IsWatched disconnect r op s free h =
    run_connection_op-IsWatched r (own op) s (ground arith) h
run_kind-IsWatched reauthorize r op s free h =
    run_connection_op-IsWatched r (reauth_disconnect op) s (ground arith) h
run_kind-IsWatched mqtt_publish r op s free h = request-IsWatched r op s h
run_kind-IsWatched mqtt_subscribe r op s free h = request-IsWatched r op s h
run_kind-IsWatched mqtt_unsubscribe r op s free h = request-IsWatched r op s h
run_kind-IsWatched kind r op s free h = ground arith
