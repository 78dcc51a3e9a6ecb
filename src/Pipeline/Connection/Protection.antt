-- ===== src/Pipeline/Connection/Protection.antt =====
-- The lock keeps connection operations from replacing each other in the transport: the invariant.
use azure_iot_dev.Prelude.{
  ℕ, ◌+◌, ◌≤◌, ◌≡◌, refl, ap, Bool, Option, none, some, List, [], ◌∷◌, arith, length, Bool-cases,
  inl, inr,
}
use azure_iot_dev.Errors.{Error}
use azure_iot_dev.Pipeline.Ops.{Op}
use azure_iot_dev.Pipeline.ConnectionLock.{Lock}
use azure_iot_dev.Pipeline.ConnectionLock.Exclusion.{IsGuarded}
use azure_iot_dev.Pipeline.MqttTransport.{Stage, ConnectionOp}
use azure_iot_dev.Pipeline.MqttTransport.Guards.{IsWatched}
use azure_iot_dev.Pipeline.MqttTransport.Kinds.{IsConnection}
use azure_iot_dev.Pipeline.MqttTransport.Counts.{in_ops, in_calls, in_pending, under_way, total}
use azure_iot_dev.Pipeline.Connection.{Pair, sent, returned, quiet_lock, with_lock, with_transport}
use azure_iot_dev.Pipeline.Connection.Balance.{
  only, in_up, in_ops-append, in_up-append, returned-answered, Takes, AreConnections,
}

abbrev pub one : Op → ℕ
one op = 1

pub record IsProtected (j : Pair) : Type 0 where
  pub guarded : IsGuarded j.lock
  pub connections : AreConnections j.lock
  pub watched : IsWatched j.transport
  pub kinds : IsConnection j.transport
  pub balance :
      (w : Op → ℕ)
      → in_ops (only w) j.down + under_way (only w) j.transport + in_up (only w) j.up
        ≡ in_ops (only w) j.lock.in_flight

pub in_ops-zero : (w : Op → ℕ) (l : List Op) → in_ops (only one) l ≡ 0 → in_ops (only w) l ≡ 0
in_ops-zero w [] h = refl
in_ops-zero w (op ∷ l) h = ground (arith, h, in_ops-zero w l)

in_calls-zero :
    (w : Op → ℕ) (l : List (Op × Bool)) → in_calls (only one) l ≡ 0 → in_calls (only w) l ≡ 0
in_calls-zero w [] h = refl
in_calls-zero w ((op, b) ∷ l) h = ground (arith, h, in_calls-zero w l)

pub in_up-zero :
    (w : Op → ℕ) (l : List (Op × Option Error)) → in_up (only one) l ≡ 0 → in_up (only w) l ≡ 0
in_up-zero w [] h = refl
in_up-zero w ((op, e) ∷ l) h = ground (arith, h, in_up-zero w l)

in_pending-zero :
    (w : Op → ℕ) (p : Option (ℕ × ConnectionOp))
    → in_pending (only one) p ≡ 0
    → in_pending (only w) p ≡ 0
in_pending-zero w none h = refl
in_pending-zero w (some (n, c)) h = ground (arith, h)

pub under_way-zero :
    (w : Op → ℕ) (s : Stage) → under_way (only one) s ≡ 0 → under_way (only w) s ≡ 0
under_way-zero w s h = omega (
  arith,
  in_pending-zero w s.pending_connection_op (omega (arith, h)),
  in_ops-zero w s.in_flight (omega (arith, h)),
  in_calls-zero w s.queued (omega (arith, h)),
)

-- What the lock lets past is one operation at most.
pub at_most_one : (s : Lock) → IsGuarded s → length s.in_flight ≤ 1
at_most_one s h = elim (Bool-cases s.blocked) [
  | inl held ↦ omega (arith, h.one held)
  | inr released ↦ omega (arith, ap (length {A = Op}) (h.free released))
]

pub in_ops-length : (l : List Op) → in_ops (only one) l ≤ length l
in_ops-length [] = omega arith
in_ops-length (op ∷ l) = ground (arith, in_ops-length l)

pub lock-IsProtected :
    (after : Lock) (j : Pair)
    → IsProtected j
    → IsGuarded after
    → AreConnections after
    → ((w : Op → ℕ) → Takes w (quiet_lock j.lock) after)
    → IsProtected (with_lock after j)
lock-IsProtected after j h g c t = record {
  guarded = g;
  connections = c;
  watched = h.watched;
  kinds = h.kinds;
  balance =
      λ w. omega (arith, h.balance w, t w, in_ops-append (only w) j.down (sent after.outputs));
}

pub transport-IsProtected :
    (after : Stage) (down : List Op) (j : Pair)
    → IsProtected j
    → IsWatched after
    → IsConnection after
    → ((w : Op → ℕ)
        → in_ops (only w) down + total (only w) after
          ≡ in_ops (only w) j.down + under_way (only w) j.transport)
    → IsProtected (with_transport after (record j { down = down }))
transport-IsProtected after down j h v k t = record {
  guarded = h.guarded;
  connections = h.connections;
  watched = v;
  kinds = k;
  balance = λ w. omega (
    arith,
    h.balance w,
    t w,
    in_up-append (only w) j.up (returned after.outputs),
    returned-answered (only w) after.outputs,
  );
}
