-- ===== src/Pipeline/Connection.antt =====
-- `ConnectionLockStage` and `MQTTTransportStage` of
-- azure-iot-device/azure/iot/device/common/pipeline together: what the lock sends down reaches the
-- transport stage, and what that completes comes back to the lock. The stages between them let
-- these operations and completions pass. Both ways are queues here, from which one operation at a
-- time is handed on, which includes that a call runs at once.
pub mod Balance
pub mod Protection
pub mod Moves
pub mod Exclusion
pub mod Samples
use azure_iot_dev.Prelude.{
  ℕ, Bool, true, false, not, ◌||◌, Option, none, some, List, [], ◌∷◌, ◌++◌, if◌then◌else◌,
}
use azure_iot_dev.Errors.{Error, pipeline_runtime_error}
use azure_iot_dev.Pipeline.Ops.{Op, OpKind, initialize, is_connect, is_disconnect, is_reauthorize}
use azure_iot_dev.Pipeline.ConnectionLock
use azure_iot_dev.Pipeline.ConnectionLock.{Lock}
use azure_iot_dev.Pipeline.MqttTransport
use azure_iot_dev.Pipeline.MqttTransport.{Raises, Stage}
use azure_iot_dev.Pipeline.MqttTransport.Handlers
use azure_iot_dev.Pipeline.MqttTransport.Handlers.{Stimulus}
use azure_iot_dev.Pipeline.MqttTransport.Kinds.{is_connection}

-- `down` and `up` hold what is on its way, the oldest first.
pub record Pair : Type 0 where
  pub lock : Lock
  pub transport : Stage
  pub down : List Op
  pub up : List (Op × Option Error)

-- The transport is made by the initialization, which comes first.
unfoldable pub start : Bool → Pair
unfolding ConnectionLock.initial MqttTransport.initial
start connection_retry = record {
  lock = ConnectionLock.initial;
  transport = record (MqttTransport.initial connection_retry) { transport = true };
  down = [];
  up = [];
}

-- What a stage has newly asked for, once the outputs before are forgotten.
abbrev pub sent : List ConnectionLock.Output → List Op
sent [] = []
sent (ConnectionLock.sent_down op ∷ rest) = op ∷ sent rest
sent (ConnectionLock.completed op error ∷ rest) = sent rest

-- `send_op_down` of the last stage raises, and `run_op` completes the operation with that error, as there
-- is no next stage.
abbrev pub returned : List MqttTransport.Output → List (Op × Option Error)
returned [] = []
returned (MqttTransport.completed op error ∷ rest) = (op, error) ∷ returned rest
returned (MqttTransport.sent_down op ∷ rest) = (op, some pipeline_runtime_error) ∷ returned rest
returned (_ ∷ rest) = returned rest

abbrev pub quiet_lock : Lock → Lock
quiet_lock s = record s { outputs = [] }

abbrev pub quiet_transport : Stage → Stage
quiet_transport s = record s { outputs = [] }

abbrev pub with_lock : Lock → Pair → Pair
with_lock after j = record j { lock = after; down = j.down ++ sent after.outputs }

abbrev pub with_transport : Stage → Pair → Pair
with_transport after j = record j { transport = after; up = j.up ++ returned after.outputs }

pub data Move : Type 0 where
  arrive : Op → Move
  return_to_lock : Move
  set_connected : Bool → Move
  in_transport : Stimulus → Move
  pass_down : Raises → Move
  pass_up : Move

abbrev pub is_arrival : Stimulus → Bool
is_arrival (Handlers.arrive r op) = true
is_arrival _ = false

abbrev pub hand_down : Raises → List Op → Pair → Pair
hand_down r [] j = j
hand_down r (op ∷ rest) j =
    with_transport (Handlers.step (Handlers.arrive r op) (quiet_transport j.transport))
      (record j { down = rest })

-- A connection operation calls back into the lock when it completes.
abbrev pub hand_up : List (Op × Option Error) → Pair → Pair
hand_up [] j = j
hand_up ((op, error) ∷ rest) j =
    if is_connection op.kind
    then with_lock (ConnectionLock.step (ConnectionLock.finish op.id error) (quiet_lock j.lock))
        (record j { up = rest })
    else record j { up = rest }

unfoldable pub step : Move → Pair → Pair
unfolding ConnectionLock.step Handlers.step
step (arrive op) j =
    with_lock (ConnectionLock.step (ConnectionLock.arrive op) (quiet_lock j.lock)) j
step return_to_lock j =
    with_lock (ConnectionLock.step ConnectionLock.return_to_loop (quiet_lock j.lock)) j
step (set_connected b) j =
    with_lock (ConnectionLock.step (ConnectionLock.set_connected b) (quiet_lock j.lock)) j
step (in_transport e) j =
    if is_arrival e then j else with_transport (Handlers.step e (quiet_transport j.transport)) j
step (pass_down r) j = hand_down r j.down j
step pass_up j = hand_up j.up j

unfoldable pub run : List Move → Pair → Pair
unfolding step
run [] j = j
run (e ∷ rest) j = run rest (step e j)
