-- ===== src/Pipeline/AutoConnect.antt =====
-- `AutoConnectStage` of
-- azure-iot-device/azure/iot/device/common/pipeline/pipeline_stages_base.py.
pub mod Connected
pub mod Samples
use azure_iot_dev.Prelude.{
  ℕ, Bool, true, false, not, ◌&&◌, Option, none, some, List, [], ◌∷◌, ◌++◌, ◌==◌, if◌then◌else◌,
}
use azure_iot_dev.Errors.{Error}
use azure_iot_dev.Pipeline.Ops.{Op}

-- What the stage has asked of the outside, in order. An operation that goes down is noted with
-- whether the nucleus was connected then; `sent_connect` is the `ConnectOperation` of `_do_connect`
-- for an operation.
pub data Output : Type 0 where
  sent_down : Op → (connected : Bool) → Output
  sent_connect : Op → Output
  completed : Op → Error → Output

-- `connected` and `auto_connect` are the nucleus's and its configuration's. `connecting` holds the
-- operations for which a `ConnectOperation` is still to complete.
pub record Stage : Type 0 where
  pub connected : Bool
  pub auto_connect : Bool
  pub connecting : List Op
  pub outputs : List Output

unfoldable pub initial : Bool → Stage
initial auto_connect = record {
  connected = false;
  auto_connect = auto_connect;
  connecting = [];
  outputs = [];
}

abbrev pub emit : Output → Stage → Stage
emit output s = record s { outputs = s.outputs ++ output ∷ [] }

abbrev do_connect : Op → Stage → Stage
do_connect op s = emit (sent_connect op) (record s { connecting = op ∷ s.connecting })

unfoldable pub run_op : Op → Stage → Stage
run_op op s =
    if op.needs_connection && not s.connected && s.auto_connect
    then do_connect op s
    else emit (sent_down op s.connected) s

-- The operation with this number, of those that wait for a connection.
unfoldable pub find : ℕ → List Op → Option Op
find id [] = none
find id (op ∷ rest) = if op.id == id then some op else find id rest

unfoldable pub without : ℕ → List Op → List Op
without id [] = []
without id (op ∷ rest) = if op.id == id then rest else op ∷ without id rest

abbrev pub connected_for : Option Error → Op → Stage → Stage
connected_for none op s = run_op op s
connected_for (some error) op s = emit (completed op error) s

abbrev pub on_found : ℕ → Option Error → Option Op → Stage → Stage
on_found id error none s = s
on_found id error (some op) s =
    connected_for error op (record s { connecting = without id s.connecting })

-- `on_connect_op_complete` for the operation with this number.
unfoldable pub on_connect_op_complete : ℕ → Option Error → Stage → Stage
unfolding run_op find without
on_connect_op_complete id error s = on_found id error (find id s.connecting) s

pub data Stimulus : Type 0 where
  arrive : Op → Stimulus
  connect_done : (id : ℕ) → Option Error → Stimulus
  set_connected : Bool → Stimulus

unfoldable pub step : Stimulus → Stage → Stage
unfolding run_op on_connect_op_complete
step (arrive op) s = run_op op s
step (connect_done id error) s = on_connect_op_complete id error s
step (set_connected b) s = record s { connected = b }

unfoldable pub run : List Stimulus → Stage → Stage
run [] s = s
run (e ∷ rest) s = run rest (step e s)
