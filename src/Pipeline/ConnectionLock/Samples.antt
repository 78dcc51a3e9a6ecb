-- ===== src/Pipeline/ConnectionLock/Samples.antt =====
-- Small runs of the connection lock, and the theorems at concrete inputs.
use azure_iot_dev.Prelude.{ℕ, ◌+◌, ◌⊎◌, ◌≡◌, refl, true, false, none, List, [], ◌∷◌, length}
use azure_iot_dev.Pipeline.Ops.{Op, OpKind, connect, disconnect, reauthorize, mqtt_publish}
use azure_iot_dev.Pipeline.ConnectionLock.{
  Lock, sent_down, completed, Stimulus, arrive, finish, initial, step, run,
}
use azure_iot_dev.Pipeline.ConnectionLock.Exclusion.{lock_exclusion}
use azure_iot_dev.Pipeline.ConnectionLock.Conservation.{handled, waiting, arrivals, lock_conserves}
use azure_iot_dev.Pipeline.ConnectionLock.Release.{returns, landed, run_ops, success_reruns_all}

abbrev op : ℕ → OpKind → Op
op id kind = record { id = id; kind = kind; needs_connection = false }

-- A connect is in flight while a reauthorization and a publish wait.
abbrev busy : List Stimulus
busy = arrive (op 1 connect) ∷ arrive (op 2 reauthorize) ∷ arrive (op 3 mqtt_publish) ∷ []

abbrev held : Lock
held = record {
  queue = op 2 reauthorize ∷ op 3 mqtt_publish ∷ [];
  blocked = true;
  connected = false;
  loops = [];
  in_flight = op 1 connect ∷ [];
  outputs = sent_down (op 1 connect) ∷ [];
}

run-busy : run busy initial ≡ held
unfolding run step initial
run-busy = refl

-- A disconnect that is not connected is completed at once.
run-disconnect :
    (run (arrive (op 1 disconnect) ∷ []) initial).outputs ≡ completed (op 1 disconnect) none ∷ []
unfolding run step initial
run-disconnect = refl

lock_exclusion_example :
    (length (run busy initial).in_flight ≡ 1)
    ⊎ ((run busy initial).in_flight ≡ [] × (run busy initial).queue ≡ [])
lock_exclusion_example = lock_exclusion busy

lock_conserves_example :
    handled 3 (run busy initial).outputs + waiting 3 (run busy initial) ≡ arrivals 3 busy
lock_conserves_example = lock_conserves 3 busy

success_reruns_all_example :
    run (finish 1 none ∷ returns 3) held
    ≡ record (run_ops held.queue (landed 1 held)) { loops = [] }
success_reruns_all_example = success_reruns_all 1 held refl
