-- ===== src/Iothub/MqttPipeline.antt =====
-- `MQTTPipeline` of azure-iot-device/azure/iot/device/iothub/pipeline/mqtt_pipeline.py: its flags, the
-- operations that its methods start, and what the callbacks of these do. Messages, responses,
-- patches, twins and handlers are numbers. The stages that it puts together are not part of it here.
pub mod Outcomes
pub mod Samples
use azure_iot_dev.Prelude.{
  ℕ, Bool, true, false, Option, none, some, List, [], ◌∷◌, ◌||◌, if◌then◌else◌,
}
use azure_iot_dev.Errors.{Error, pipeline_not_running, value_error}
use azure_iot_dev.Text.{Text, codes, text_eq}

abbrev pub Flags : Type 0
Flags = List (Text × Bool)

pub record Pipeline : Type 0 where
  pub feature_enabled : Flags
  pub running : Bool

-- The constructor, once the operation that initializes the stages has completed.
unfoldable pub new_pipeline : Pipeline
new_pipeline = record {
  feature_enabled =
      (codes "c2d", false)
      ∷ (codes "input", false)
      ∷ (codes "methods", false)
      ∷ (codes "twin", false)
      ∷ (codes "twin_patches", false)
      ∷ [];
  running = true;
}

-- `feature_name in self.feature_enabled`.
unfoldable pub has_feature : Text → Flags → Bool
has_feature name [] = false
has_feature name ((n, flag) ∷ rest) = text_eq n name || has_feature name rest

-- `self.feature_enabled[feature_name] = flag`.
unfoldable pub set_feature : Text → Bool → Flags → Flags
set_feature name flag [] = (name, flag) ∷ []
set_feature name flag ((n, old) ∷ rest) =
    if text_eq n name then (n, flag) ∷ rest else (n, old) ∷ set_feature name flag rest

-- The methods, by the operation that each starts.
pub data Request : Type 0 where
  shutdown connect disconnect reauthorize_connection get_twin : Request
  send_message send_output_message send_method_response : ℕ → Request
  patch_twin_reported_properties : ℕ → Request
  enable_feature disable_feature : Text → Request

pub data Reply : Type 0 where
  started : Request → Reply
  raised : Error → Reply

start : Request → Flags → Reply
unfolding has_feature
start (enable_feature name) flags =
    if has_feature name flags then started (enable_feature name) else raised value_error
start (disable_feature name) flags =
    if has_feature name flags then started (disable_feature name) else raised value_error
start request flags = started request

-- A method up to the call of `run_op`, `_verify_running` included.
unfoldable pub run_request : Request → Pipeline → Reply
unfolding start
run_request request p =
    if p.running then start request p.feature_enabled else raised pipeline_not_running

-- What the callback of the caller is given.
pub record Answer : Type 0 where
  pub error : Option Error
  pub twin : Option ℕ

abbrev answer_of : Option Error → Answer
answer_of error = record { error = error; twin = none }

-- The `on_complete` of each method, for an operation that holds this twin.
unfoldable pub on_complete : Request → Option Error → ℕ → Pipeline → Pipeline × Answer
unfolding set_feature
on_complete shutdown none twin p = (record p { running = false }, answer_of none)
on_complete shutdown (some e) twin p = (p, answer_of (some e))
on_complete get_twin none twin p = (p, record { error = none; twin = some twin })
on_complete get_twin (some e) twin p = (p, answer_of (some e))
on_complete (enable_feature name) none twin p =
    (record p { feature_enabled = set_feature name true p.feature_enabled }, answer_of none)
on_complete (enable_feature name) (some e) twin p = (p, answer_of (some e))
on_complete (disable_feature name) error twin p =
    (record p { feature_enabled = set_feature name false p.feature_enabled }, answer_of error)
on_complete request error twin p = (p, answer_of error)

pub record Handlers : Type 0 where
  pub on_c2d_message_received : Option ℕ
  pub on_input_message_received : Option ℕ
  pub on_method_request_received : Option ℕ
  pub on_twin_patch_received : Option ℕ

pub data Event : Type 0 where
  c2d_message_event input_message_event method_request_event twin_patch_event : ℕ → Event
  unknown_event : Event

call : Option ℕ → ℕ → Option (ℕ × ℕ)
call none n = none
call (some handler) n = some (handler, n)

-- The handler that is called, and what it is called with; `none` where the event is dropped.
unfoldable pub on_pipeline_event : Handlers → Event → Option (ℕ × ℕ)
unfolding call
on_pipeline_event h (c2d_message_event n) = call h.on_c2d_message_received n
on_pipeline_event h (input_message_event n) = call h.on_input_message_received n
on_pipeline_event h (method_request_event n) = call h.on_method_request_received n
on_pipeline_event h (twin_patch_event n) = call h.on_twin_patch_received n
on_pipeline_event h unknown_event = none
