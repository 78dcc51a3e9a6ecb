-- ===== src/Pipeline/Ops.antt =====
-- The operations and events that the stages tell apart
-- (azure-iot-device/azure/iot/device/common/pipeline/pipeline_ops_base.py, pipeline_ops_mqtt.py and
-- pipeline_events_base.py).
use azure_iot_dev.Prelude.{ℕ, Bool, true, false}
use azure_iot_dev.Errors.{Error}

-- The class of an operation. `other_op` stands for those that no stage of the package names.
pub data OpKind : Type 0 where
  initialize shutdown connect reauthorize disconnect : OpKind
  enable_feature disable_feature request_and_response request : OpKind
  mqtt_publish mqtt_subscribe mqtt_unsubscribe other_op : OpKind

-- An operation as a stage sees it: which object it is, and what the stages ask of it.
pub record Op : Type 0 where
  pub id : ℕ
  pub kind : OpKind
  pub needs_connection : Bool

-- A `ResponseEvent` carries its request id and status code; `other_event` is any domain event.
pub data Event : Type 0 where
  connected_event disconnected_event new_sastoken_required_event : Event
  background_exception_event : Error → Event
  response_event : (request_id status_code : ℕ) → Event
  other_event : ℕ → Event

abbrev pub is_connect : OpKind → Bool
is_connect connect = true
is_connect _ = false

abbrev pub is_disconnect : OpKind → Bool
is_disconnect disconnect = true
is_disconnect _ = false

abbrev pub is_reauthorize : OpKind → Bool
is_reauthorize reauthorize = true
is_reauthorize _ = false
