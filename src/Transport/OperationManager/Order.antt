-- ===== src/Transport/OperationManager/Order.antt =====
-- A response may come before the operation is established, and a mid is never both pending and
-- unknown.
use azure_iot_dev.Prelude.{
  ap, ◌∙◌, ℕ, ◌≡◌, true, false, Option, none, some, List, [], ◌∷◌, ◌++◌, arith,
}
use azure_iot_dev.Transport.OperationManager.{
  Pending, lookup, insert, delete, has, record_mid, forget, Manager, trigger, establish_operation,
  complete_found, complete_operation, establish, complete, step, run,
}

lookup-insert :
    (mid : ℕ) (callback : Option ℕ) (p : Pending)
    → lookup mid (insert mid callback p) ≡ some callback
unfolding lookup insert
lookup-insert mid callback [] = ground arith
lookup-insert mid callback ((m, old) ∷ p) = ground (arith, lookup-insert mid callback p)

delete-insert :
    (mid : ℕ) (callback : Option ℕ) (p : Pending)
    → lookup mid p ≡ none
    → delete mid (insert mid callback p) ≡ p
unfolding lookup insert delete
delete-insert mid callback [] h = ground arith
delete-insert mid callback ((m, old) ∷ p) h = ground (arith, delete-insert mid callback p)

has-record_mid : (mid : ℕ) (mids : List ℕ) → has mid (record_mid mid mids) ≡ true
unfolding has record_mid
has-record_mid mid [] = ground arith
has-record_mid mid (m ∷ mids) = ground (arith, has-record_mid mid mids)

forget-record_mid :
    (mid : ℕ) (mids : List ℕ) → has mid mids ≡ false → forget mid (record_mid mid mids) ≡ mids
unfolding has record_mid forget
forget-record_mid mid [] h = ground arith
forget-record_mid mid (m ∷ mids) h = ground (arith, forget-record_mid mid mids)

-- An operation and its response together, in both orders.
module _ (mid : ℕ) (m : Manager) (not_pending : lookup mid m.pending_operation_callbacks ≡ none)
    (not_unknown : has mid m.unknown_operation_completions ≡ false) where
  establish-fresh :
      (callback : Option ℕ)
      → establish_operation mid callback m ≡ record m {
        pending_operation_callbacks = insert mid callback m.pending_operation_callbacks;
      }
  unfolding establish_operation
  establish-fresh callback = ground arith

  complete-fresh :
      complete_operation mid m
      ≡ record m { unknown_operation_completions = record_mid mid m.unknown_operation_completions }
  unfolding complete_operation
  complete-fresh = ap (λ found. complete_found mid found m) not_pending

  establish_complete :
      (callback : Option ℕ)
      → complete_operation mid (establish_operation mid callback m)
        ≡ record m { calls = m.calls ++ trigger mid callback }
  unfolding complete_operation
  establish_complete callback = ground (
    arith,
    establish-fresh callback,
    lookup-insert mid callback m.pending_operation_callbacks,
    delete-insert mid callback m.pending_operation_callbacks not_pending,
  )

  complete_establish :
      (callback : Option ℕ)
      → establish_operation mid callback (complete_operation mid m)
        ≡ record m { calls = m.calls ++ trigger mid callback }
  unfolding establish_operation
  complete_establish callback = ground (
    arith,
    complete-fresh,
    has-record_mid mid m.unknown_operation_completions,
    forget-record_mid mid m.unknown_operation_completions not_unknown,
  )

  -- For a mid that is neither pending nor unknown, an operation and its response have the same
  -- effect in both orders, also when the response comes before the operation is established: the
  -- callback, if there is one, is called once, and nothing is left behind.
  pub either_order :
      (callback : Option ℕ)
      → (run (establish mid callback ∷ complete mid ∷ []) m
          ≡ record m { calls = m.calls ++ trigger mid callback })
        × (run (complete mid ∷ establish mid callback ∷ []) m
            ≡ record m { calls = m.calls ++ trigger mid callback })
  unfolding run step
  either_order callback = (establish_complete callback, complete_establish callback)

module _ (mid : ℕ) (m : Manager) (not_pending : lookup mid m.pending_operation_callbacks ≡ none)
    (not_unknown : has mid m.unknown_operation_completions ≡ false) where
  -- If two responses come to an operation whose mid was neither pending nor unknown, which a
  -- delivery at least once allows, the second one is kept as an unknown response, and it completes
  -- the next operation with that mid as soon as that is established, before its own response.
  pub second_response_completes_next :
      (callback next : Option ℕ)
      → run (establish mid callback ∷ complete mid ∷ complete mid ∷ establish mid next ∷ []) m
        ≡ record m { calls = (m.calls ++ trigger mid callback) ++ trigger mid next }
  unfolding run step
  second_response_completes_next callback next =
      ap (λ s. establish_operation mid next (complete_operation mid s))
        (establish_complete mid m not_pending not_unknown callback)
      ∙ complete_establish mid (record m { calls = m.calls ++ trigger mid callback }) not_pending
          not_unknown next
