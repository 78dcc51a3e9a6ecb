-- ===== src/Transport/OperationManager/Samples.antt =====
-- The operation manager at concrete inputs.
use azure_iot_dev.Prelude.{◌+◌, ◌≡◌, refl, none, some, List, [], ◌∷◌}
use azure_iot_dev.Transport.OperationManager.{
  lookup, insert, delete, has, record_mid, forget, Manager, initial, completed, cancelled,
  establish_operation, complete_operation, cancel_all_operations, cancellations, Request, establish,
  complete, cancel_all, step, run,
}
use azure_iot_dev.Transport.OperationManager.Conservation.{
  called, pending_count, established, callbacks_conserved,
}
use azure_iot_dev.Transport.OperationManager.Order.{either_order}

abbrev busy : List Request
busy =
    complete 2
    ∷ establish 1 (some 10)
    ∷ establish 2 (some 20)
    ∷ establish 3 none
    ∷ complete 1
    ∷ establish 4 (some 40)
    ∷ cancel_all
    ∷ complete 4
    ∷ []

run-busy : run busy initial ≡ record {
  pending_operation_callbacks = [];
  unknown_operation_completions = 4 ∷ [];
  calls = completed 2 20 ∷ completed 1 10 ∷ cancelled 4 40 ∷ [];
}
unfolding run step initial establish_operation complete_operation cancel_all_operations lookup
    insert delete has record_mid forget cancellations
run-busy = refl

callbacks_conserved_example :
    called 40 (run busy initial).calls
      + pending_count 40 (run busy initial).pending_operation_callbacks
    ≡ established 40 busy
unfolding lookup step initial establish_operation complete_operation cancel_all_operations insert
    delete has record_mid forget cancellations
callbacks_conserved_example =
    callbacks_conserved 40 busy (tt, (refl, (refl, (refl, (tt, (refl, (tt, (tt, tt))))))))

abbrev used : Manager
used = record {
  pending_operation_callbacks = (7, some 70) ∷ [];
  unknown_operation_completions = 8 ∷ [];
  calls = completed 6 60 ∷ [];
}

either_order_example :
    (run (establish 9 (some 90) ∷ complete 9 ∷ []) used
      ≡ record used { calls = completed 6 60 ∷ completed 9 90 ∷ [] })
    × (run (complete 9 ∷ establish 9 (some 90) ∷ []) used
        ≡ record used { calls = completed 6 60 ∷ completed 9 90 ∷ [] })
unfolding lookup has
either_order_example = either_order 9 used refl refl (some 90)
