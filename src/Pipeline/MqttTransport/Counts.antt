-- ===== src/Pipeline/MqttTransport/Counts.antt =====
-- Every operation is completed once, or is still under way: the counts, and the operations. Each
-- operation counts as much as its weight says.
use azure_iot_dev.Prelude.{
  ℕ, suc, ◌+◌, ◌≡◌, refl, Bool, true, false, Option, none, some, List, [], ◌∷◌, ◌++◌, ◌==◌, arith,
  if◌then◌else◌,
}
use azure_iot_dev.Errors.{Error}
use azure_iot_dev.Pipeline.Ops.{Op}
use azure_iot_dev.Pipeline.MqttTransport.{
  Output, completed, sent_down, called_connect, called_disconnect, ConnectionOp, own,
  reauth_disconnect, reauth_connect, op_of, hard, Raises, Stage, emit, raised, cancelled_calls,
  cancel_all_operations, clear_inflight, connect_outcome, disconnect_outcome, start_connect,
  complete_op, start_disconnect,
}
use azure_iot_dev.Pipeline.MqttTransport.Handlers.{take, drop}

abbrev pub hit : ℕ → Op → ℕ
hit i op = if op.id == i then 1 else 0

abbrev pub in_output : (Op → ℕ) → Output → ℕ
in_output w (completed op error) = w op
in_output w (sent_down op) = w op
in_output w _ = 0

-- How often an operation was completed, or sent down as one that is not the stage's.
abbrev pub answered : (Op → ℕ) → List Output → ℕ
answered w [] = 0
answered w (o ∷ rest) = in_output w o + answered w rest

abbrev pub in_pending : (Op → ℕ) → Option (ℕ × ConnectionOp) → ℕ
in_pending w none = 0
in_pending w (some (n, c)) = w (op_of c)

abbrev pub in_ops : (Op → ℕ) → List Op → ℕ
in_ops w [] = 0
in_ops w (op ∷ rest) = w op + in_ops w rest

abbrev pub in_calls : (Op → ℕ) → List (Op × Bool) → ℕ
in_calls w [] = 0
in_calls w ((op, cancelled) ∷ rest) = w op + in_calls w rest

-- How often it is pending, with the transport, or about to be completed.
abbrev pub under_way : (Op → ℕ) → Stage → ℕ
under_way w s = in_pending w s.pending_connection_op + (in_ops w s.in_flight + in_calls w s.queued)

pub answered-snoc :
    (w : Op → ℕ) (os : List Output) (o : Output)
    → answered w (os ++ o ∷ []) ≡ answered w os + in_output w o
answered-snoc w [] o = omega arith
answered-snoc w (x ∷ os) o = omega (arith, answered-snoc w os o)

pub in_ops-snoc :
    (w : Op → ℕ) (ops : List Op) (op : Op) → in_ops w (ops ++ op ∷ []) ≡ in_ops w ops + w op
in_ops-snoc w [] op = omega arith
in_ops-snoc w (x ∷ ops) op = omega (arith, in_ops-snoc w ops op)

pub in_calls-append :
    (w : Op → ℕ) (xs ys : List (Op × Bool)) → in_calls w (xs ++ ys) ≡ in_calls w xs + in_calls w ys
in_calls-append w [] ys = omega arith
in_calls-append w ((op, c) ∷ xs) ys = omega (arith, in_calls-append w xs ys)

pub in_calls-cancelled_calls :
    (w : Op → ℕ) (ops : List Op) → in_calls w (cancelled_calls ops) ≡ in_ops w ops
in_calls-cancelled_calls w [] = refl
in_calls-cancelled_calls w (op ∷ ops) = omega (arith, in_calls-cancelled_calls w ops)

pub in_ops-drop :
    (w : Op → ℕ) (id : ℕ) (op : Op) (ops : List Op)
    → take id ops ≡ some op
    → in_ops w (drop id ops) + w op ≡ in_ops w ops
in_ops-drop w id op [] h = ground arith
in_ops-drop w id op (x ∷ ops) h = ground (arith, in_ops-drop w id op ops)

module _ (w : Op → ℕ) where
  abbrev pub total : Stage → ℕ
  total s = answered w s.outputs + under_way w s

  pub total-emit : (o : Output) (s : Stage) → total (emit o s) ≡ total s + in_output w o
  total-emit o s = omega (arith, answered-snoc w s.outputs o)

  pub total_cancel_all : (s : Stage) → total (cancel_all_operations s) ≡ total s
  total_cancel_all s = omega (
    arith,
    in_calls-append w s.queued (cancelled_calls s.in_flight),
    in_calls-cancelled_calls w s.in_flight,
  )

  total_clear : (b : Bool) (s : Stage) → total (clear_inflight b s) ≡ total s
  total_clear true s = total_cancel_all s
  total_clear false s = refl

  connect_outcome-total :
      (error : Option Error) (n : ℕ) (c : ConnectionOp) (s : Stage)
      → s.pending_connection_op ≡ none
      → total (connect_outcome error n c s) ≡ total s + w (op_of c)
  connect_outcome-total none n c s e = ground (arith, e)
  connect_outcome-total (some error) n c s e =
      ground (arith, e, answered-snoc w s.outputs (completed (op_of c) (some error)))

  pub start_connect-total :
      (r : Raises) (c : ConnectionOp) (s : Stage)
      → s.pending_connection_op ≡ none
      → total (start_connect r c s) ≡ total s + w (op_of c)
  unfolding start_connect
  start_connect-total r c s e = omega (
    arith,
    connect_outcome-total (raised s.transport r.connect_raises) s.next_number c
        (emit called_connect (record s { next_number = suc s.next_number })) e,
    total-emit called_connect s,
  )

  pub complete_op-total :
      (r : Raises) (c : ConnectionOp) (error : Option Error) (s : Stage)
      → s.pending_connection_op ≡ none
      → total (complete_op r c error s) ≡ total s + w (op_of c)
  unfolding complete_op
  complete_op-total r (own op) error s e = total-emit (completed op error) s
  complete_op-total r (reauth_disconnect op) error s e =
      start_connect-total r (reauth_connect op) s e
  complete_op-total r (reauth_connect op) error s e = total-emit (completed op error) s

  disconnect_outcome-total :
      (r : Raises) (error : Option Error) (n : ℕ) (c : ConnectionOp) (s : Stage)
      → s.pending_connection_op ≡ none
      → total (disconnect_outcome r error n c s) ≡ total s + w (op_of c)
  disconnect_outcome-total r none n c s e =
      let pending = record s { pending_connection_op = some (n, c) } in
      ground (arith, e, total_clear (hard c) pending)
  disconnect_outcome-total r (some error) n c s e = ground (
    arith,
    e,
    complete_op-total r c (some error) (record s { pending_connection_op = none }) refl,
  )

  pub start_disconnect-total :
      (r : Raises) (c : ConnectionOp) (s : Stage)
      → s.pending_connection_op ≡ none
      → total (start_disconnect r c s) ≡ total s + w (op_of c)
  unfolding start_disconnect
  start_disconnect-total r c s e = omega (
    arith,
    disconnect_outcome-total r (raised s.transport r.disconnect_raises) s.next_number c
        (emit (called_disconnect (hard c)) (record s { next_number = suc s.next_number })) e,
    total-emit (called_disconnect (hard c)) s,
  )
