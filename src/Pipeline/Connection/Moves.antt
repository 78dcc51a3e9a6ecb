-- ===== src/Pipeline/Connection/Moves.antt =====
-- The lock keeps connection operations from replacing each other in the transport: what the
-- transport and the lock are handed.
use azure_iot_dev.Prelude.{
  ℕ, suc, ◌≤◌, ◌≡◌, ==_iff, refl, ap, Bool, true, false, Option, none, List, [], ◌∷◌, ◌==◌, arith,
  length, all, Bool-cases, Option-cases, if_ind, inl, inr,
}
use azure_iot_dev.Errors.{Error}
use azure_iot_dev.Pipeline.Ops.{Op, OpKind, initialize}
use azure_iot_dev.Pipeline.ConnectionLock
use azure_iot_dev.Pipeline.ConnectionLock.{Lock}
use azure_iot_dev.Pipeline.ConnectionLock.Exclusion.{step-IsGuarded}
use azure_iot_dev.Pipeline.MqttTransport.{Stage, Raises, op_of}
use azure_iot_dev.Pipeline.MqttTransport.Handlers
use azure_iot_dev.Pipeline.MqttTransport.Handlers.{Stimulus}
use azure_iot_dev.Pipeline.MqttTransport.Guards.{IsWatched, replaces_pending}
use azure_iot_dev.Pipeline.MqttTransport.Watchdog.{is_admitted, step-IsWatched}
use azure_iot_dev.Pipeline.MqttTransport.Kinds.{is_connection, step-IsConnection}
use azure_iot_dev.Pipeline.MqttTransport.Counts.{hit, in_ops, in_pending}
use azure_iot_dev.Pipeline.MqttTransport.Conservation.{in_stimulus, step-total}
use azure_iot_dev.Pipeline.Connection.{
  Pair, sent, quiet_lock, quiet_transport, with_lock, with_transport, is_arrival, hand_down,
  hand_up,
}
use azure_iot_dev.Pipeline.Connection.Balance.{only, in_up, in_ops-append}
use azure_iot_dev.Pipeline.Connection.Protection.{
  one, IsProtected, in_ops-zero, in_up-zero, under_way-zero, at_most_one, in_ops-length,
  transport-IsProtected,
}

-- A connection operation that comes down finds none pending.
pub waiting_free :
    (op : Op) (rest : List Op) (j : Pair)
    → IsProtected j
    → j.down ≡ op ∷ rest
    → is_connection op.kind ≡ true
    → j.transport.pending_connection_op ≡ none
waiting_free op rest j h e kind = elim (Option-cases j.transport.pending_connection_op) [
  | inl free ↦ free
  | inr ((n, c), taken) ↦
      let is_kind : is_connection (op_of c).kind ≡ true = ground (arith, taken, h.kinds) in
      let pending : in_pending (only one) j.transport.pending_connection_op ≡ 1 =
        ground (arith, taken, is_kind) in
      let coming : in_ops (only one) j.down ≡ suc (in_ops (only one) rest) =
        ground (arith, e, kind) in
      absurd (
        omega (
          arith,
          h.balance one,
          pending,
          coming,
          at_most_one j.lock h.guarded,
          in_ops-length j.lock.in_flight,
        ))
]

-- An initialization is not handed down again.
abbrev pub not_initialize : OpKind → Bool
not_initialize initialize = false
not_initialize _ = true

admitted_lem :
    (kind : OpKind)
    → not_initialize kind ≡ true
    → is_connection kind ≡ false
    → replaces_pending kind ≡ false
admitted_lem kind a b = ground arith

admitted :
    (r : Raises) (op : Op) (rest : List Op) (j : Pair)
    → IsProtected j
    → j.down ≡ op ∷ rest
    → not_initialize op.kind ≡ true
    → is_admitted (Handlers.arrive r op) (quiet_transport j.transport) ≡ true
admitted r op rest j h e new = elim (Bool-cases (is_connection op.kind)) [
  | inl kind ↦ ground (arith, waiting_free op rest j h e kind)
  | inr other ↦ ground (arith, admitted_lem op.kind new other)
]

pub down-IsProtected :
    (r : Raises) (ops : List Op) (j : Pair)
    → j.down ≡ ops
    → all (λ op. not_initialize op.kind) ops ≡ true
    → IsProtected j
    → IsProtected (hand_down r ops j)
down-IsProtected r [] j e new h = h
down-IsProtected r (op ∷ rest) j e new h =
    let before = quiet_transport j.transport in
    let v : IsWatched before = record { clean = h.watched.clean; guarded = h.watched.guarded } in
    let fine = admitted r op rest j h e (ground (arith, new)) in
    transport-IsProtected (Handlers.step (Handlers.arrive r op) before) rest j h
      (step-IsWatched (Handlers.arrive r op) before fine v)
      (step-IsConnection (Handlers.arrive r op) before v h.kinds)
      (λ w.
        omega
          (arith, step-total (only w) (Handlers.arrive r op) before fine v, ap (in_ops (only w)) e))

inner_lem :
    (w : Op → ℕ) (e : Stimulus) (s : Stage)
    → is_arrival e ≡ false
    → (is_admitted e s ≡ true) × (in_stimulus w e ≡ 0)
inner_lem w e s h = ground arith

pub inner-IsProtected :
    (e : Stimulus) (j : Pair)
    → is_arrival e ≡ false
    → IsProtected j
    → IsProtected (with_transport (Handlers.step e (quiet_transport j.transport)) j)
inner-IsProtected e j inner h =
    let before = quiet_transport j.transport in
    let v : IsWatched before = record { clean = h.watched.clean; guarded = h.watched.guarded } in
    let fine = (inner_lem one e before inner).0 in
    transport-IsProtected (Handlers.step e before) j.down j h (step-IsWatched e before fine v)
      (step-IsConnection e before v h.kinds)
      (λ w.
        omega (arith, step-total (only w) e before fine v, (inner_lem (only w) e before inner).1))

-- The one operation that the lock waits for completes.
finish_lem :
    (s : Lock) (id : ℕ) (error : Option Error) (x : Op)
    → s.in_flight ≡ x ∷ []
    → (x.id == id) ≡ true
    → s.outputs ≡ []
    → let after : Lock = ConnectionLock.step (ConnectionLock.finish id error) s in
      (after.in_flight ≡ []) × (after.outputs ≡ [])
unfolding ConnectionLock.step ConnectionLock.on_operation_complete ConnectionLock.unblock
finish_lem s id error x e same quiet = ground (arith, e, same, quiet)

single : (w : Op → ℕ) (l : List Op) → length l ≤ 1 → 1 ≤ in_ops (only w) l → (x : Op) × (l ≡ x ∷ [])
single w [] short some_in = absurd (omega (arith, some_in))
single w (x ∷ []) short some_in = (x, refl)
single w (x ∷ y ∷ l) short some_in = absurd (omega (arith, short))

is_hit : (id : ℕ) (x : Op) → 1 ≤ in_ops (only (hit id)) (x ∷ []) → (x.id == id) ≡ true
is_hit id x h = ground arith

pub up-IsProtected :
    (ups : List (Op × Option Error)) (j : Pair)
    → j.up ≡ ups
    → IsProtected j
    → IsProtected (hand_up ups j)
up-IsProtected [] j e h = h
up-IsProtected ((op, error) ∷ rest) j e h =
    if_ind IsProtected (is_connection op.kind) completes passes
  where
    completes :
        is_connection op.kind ≡ true
        → IsProtected (
            with_lock
              (ConnectionLock.step (ConnectionLock.finish op.id error) (quiet_lock j.lock))
              (record j { up = rest }))
    completes kind =
        let one_up : in_up (only one) j.up ≡ suc (in_up (only one) rest) =
          ground (arith, e, kind) in
        let hit_up : 1 ≤ in_up (only (hit op.id)) j.up =
          ground (arith, e, kind, ==_iff op.id op.id) in
        let found =
          single one j.lock.in_flight (at_most_one j.lock h.guarded)
            (omega (arith, h.balance one, one_up)) in
        let same =
          is_hit op.id found.0 (
            omega (arith, h.balance (hit op.id), hit_up, ap (in_ops (only (hit op.id))) found.1)) in
        let after = ConnectionLock.step (ConnectionLock.finish op.id error) (quiet_lock j.lock) in
        let done = finish_lem (quiet_lock j.lock) op.id error found.0 found.1 same refl in
        let all_one : in_ops (only one) j.lock.in_flight ≤ 1 =
          omega (arith, at_most_one j.lock h.guarded, in_ops-length j.lock.in_flight) in
        record {
          guarded =
              step-IsGuarded (ConnectionLock.finish op.id error) (quiet_lock j.lock) (record {
                free = h.guarded.free;
                one = h.guarded.one;
                no_wait = h.guarded.no_wait;
              });
          connections = ap (all (λ op. is_connection op.kind)) done.0;
          watched = h.watched;
          kinds = h.kinds;
          balance = λ w. omega (
            arith,
            in_ops-append (only w) j.down (sent after.outputs),
            ap (λ os. in_ops (only w) (sent os)) done.1,
            ap (in_ops (only w)) done.0,
            in_ops-zero w j.down (omega (arith, h.balance one, one_up, all_one)),
            under_way-zero w j.transport (omega (arith, h.balance one, one_up, all_one)),
            in_up-zero w rest (omega (arith, h.balance one, one_up, all_one)),
          );
        }

    passes : is_connection op.kind ≡ false → IsProtected (record j { up = rest })
    passes kind = record {
      guarded = h.guarded;
      connections = h.connections;
      watched = h.watched;
      kinds = h.kinds;
      balance = λ w.
          let none_up : in_up (only w) j.up ≡ in_up (only w) rest = ground (arith, e, kind) in
          omega (arith, h.balance w, none_up);
    }
