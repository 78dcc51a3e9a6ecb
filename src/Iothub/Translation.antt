-- ===== src/Iothub/Translation.antt =====
-- `IoTHubMQTTTranslationStage` of
-- azure-iot-device/azure/iot/device/iothub/pipeline/pipeline_stages_iothub_mqtt.py: the operations
-- that become MQTT operations, and the messages that become events. The user agent, which the
-- platform determines, is a part of the configuration here, and what `json.loads` makes of a payload
-- is an argument, a function from texts to texts that stand for the decoded values.
pub mod Events
pub mod Names
pub mod Samples
use azure_iot_dev.Prelude.{
  ℕ, Bool, true, false, Option, none, some, List, [], ◌∷◌, ◌++◌, if◌then◌else◌,
}
use azure_iot_dev.Text.{Text, codes, text_eq, starts_with}
use azure_iot_dev.Text.Int.{int_of}
use azure_iot_dev.Iothub.Topic.{
  Result, ok, err, truthy, get_c2d_topic_for_subscribe, get_input_topic_for_subscribe,
  get_method_topic_for_subscribe, get_twin_response_topic_for_subscribe,
  get_twin_patch_topic_for_subscribe, get_telemetry_topic_for_publish, get_method_topic_for_publish,
  get_twin_topic_for_publish, is_c2d_topic, is_input_topic, is_method_topic, is_twin_response_topic,
  is_twin_desired_property_patch_topic, get_input_name_from_topic, get_method_name_from_topic,
  get_method_request_id_from_topic, get_twin_request_id_from_topic, get_twin_status_code_from_topic,
}
use azure_iot_dev.Iothub.Message.{
  Message, Pairs, urlencode, encode_message_properties_in_topic,
  extract_message_properties_from_topic,
}

pub record Configuration : Type 0 where
  pub device_id : Text
  pub module_id : Option Text
  pub hostname : Text
  pub product_info : Text
  pub user_agent : Text

-- A message goes with the items of its custom properties, each converted by `str`, and its data; a
-- response with its payload as `json.dumps` writes it.
pub data Operation : Type 0 where
  initialize other_operation : Operation
  send_message : Message → (custom : Pairs) → (payload : Text) → Operation
  send_method_response : (request_id status payload : Text) → Operation
  enable_feature disable_feature : (feature : Text) → Operation
  request : (request_type method resource_location request_id body : Text) → Operation

-- What `_run_op` sends down: the operation itself, with the attributes that it is given, or the
-- worker operation that completes it, or what it raises.
pub data Sent : Type 0 where
  passed_down raised : Sent
  initialized : (username client_id : Text) → Sent
  publish : (topic payload : Text) → Sent
  subscribe unsubscribe : (topic : Text) → Sent

abbrev pub module_part : Option Text → Text
module_part (some (c ∷ module_id)) = b'/' ∷ c ∷ module_id
module_part _ = []

unfoldable pub client_id : Configuration → Text
client_id c = c.device_id ++ module_part c.module_id

unfoldable pub query_params : Configuration → Pairs
unfolding starts_with
query_params c =
    if starts_with (codes "dtmi") c.product_info
    then (codes "api-version", codes "2020-09-30")
      ∷ (codes "DeviceClientType", c.user_agent)
      ∷ (codes "model-id", c.product_info)
      ∷ []
    else (codes "api-version", codes "2019-10-01")
      ∷ (codes "DeviceClientType", c.user_agent ++ c.product_info)
      ∷ []

unfoldable pub username : Configuration → Text
unfolding client_id query_params urlencode
username c = c.hostname ++ b'/' ∷ (client_id c ++ b'/' ∷ b'?' ∷ urlencode (query_params c))

-- `_get_feature_subscription_topic`; `none` is the `OperationError`.
unfoldable pub get_feature_subscription_topic : Configuration → Text → Option Text
unfolding get_c2d_topic_for_subscribe get_input_topic_for_subscribe
get_feature_subscription_topic c feature =
    if text_eq feature (codes "c2d")
    then some (get_c2d_topic_for_subscribe c.device_id)
    else if text_eq feature (codes "input")
    then some (get_input_topic_for_subscribe c.device_id c.module_id)
    else if text_eq feature (codes "methods")
    then some get_method_topic_for_subscribe
    else if text_eq feature (codes "twin")
    then some get_twin_response_topic_for_subscribe
    else if text_eq feature (codes "twin_patches")
    then some get_twin_patch_topic_for_subscribe
    else none

abbrev pub publish_message : Result Text → Text → Sent
publish_message (ok topic) payload = publish topic payload
publish_message (err e) payload = raised

abbrev pub subscribe_to : Option Text → Sent
subscribe_to none = raised
subscribe_to (some topic) = subscribe topic

abbrev pub unsubscribe_from : Option Text → Sent
unsubscribe_from none = raised
unsubscribe_from (some topic) = unsubscribe topic

unfoldable pub run_op : Configuration → Operation → Sent
unfolding username client_id get_feature_subscription_topic get_telemetry_topic_for_publish
    encode_message_properties_in_topic get_method_topic_for_publish get_twin_topic_for_publish
run_op c initialize = initialized (username c) (client_id c)
run_op c other_operation = passed_down
run_op c (send_message m custom payload) =
    publish_message
      (encode_message_properties_in_topic m custom
        (get_telemetry_topic_for_publish c.device_id c.module_id))
      payload
run_op c (send_method_response request_id status payload) =
    publish (get_method_topic_for_publish request_id status) payload
run_op c (enable_feature feature) = subscribe_to (get_feature_subscription_topic c feature)
run_op c (disable_feature feature) = unsubscribe_from (get_feature_subscription_topic c feature)
run_op c (request request_type method resource_location request_id body) =
    if text_eq request_type (codes "twin")
    then publish (get_twin_topic_for_publish method resource_location request_id) body
    else raised

pub data Event : Type 0 where
  incoming_message : (topic payload : Text) → Event
  c2d_message : Message → (payload : Text) → Event
  input_message : (input_name : Text) → Message → (payload : Text) → Event
  method_request : (request_id name value : Text) → Event
  response : (request_id : Text) (status_code : ℕ) (body : Text) → Event
  twin_desired_properties_patch : (value : Text) → Event
  other_event : ℕ → Event

-- A new `Message`, before its properties are set.
abbrev pub empty_message : Message
empty_message = record {
  message_id = none;
  expiry_time_utc = none;
  correlation_id = none;
  user_id = none;
  content_encoding = none;
  content_type = none;
  output_name = none;
  ack = none;
  iothub_interface_id = none;
  custom_properties = [];
}

-- `none` is a handler that raises.
abbrev pub c2d_of : Result Message → Text → Option Event
c2d_of (ok m) payload = some (c2d_message m payload)
c2d_of (err e) payload = none

abbrev pub input_of : Result Message → Result Text → Text → Option Event
input_of (ok m) (ok input_name) payload = some (input_message input_name m payload)
input_of _ _ payload = none

abbrev pub method_of : Result Text → Result Text → Option Text → Option Event
method_of (ok request_id) (ok name) (some value) = some (method_request request_id name value)
method_of _ _ _ = none

abbrev pub with_status : Text → Option ℕ → Text → Option Event
with_status request_id none payload = none
with_status request_id (some status_code) payload = some (response request_id status_code payload)

abbrev pub response_of : Result Text → Result Text → Text → Option Event
response_of (ok request_id) (ok status) payload = with_status request_id (int_of status) payload
response_of _ _ payload = none

abbrev pub patch_of : Option Text → Option Event
patch_of none = none
patch_of (some value) = some (twin_desired_properties_patch value)

-- The event that goes up.
unfoldable pub handle_pipeline_event : (Text → Option Text) → Configuration → Event → Option Event
unfolding is_c2d_topic is_input_topic is_method_topic is_twin_response_topic
    is_twin_desired_property_patch_topic extract_message_properties_from_topic
    get_input_name_from_topic get_method_request_id_from_topic get_method_name_from_topic
    get_twin_request_id_from_topic get_twin_status_code_from_topic int_of
handle_pipeline_event loads c (incoming_message topic payload) =
    if is_c2d_topic topic c.device_id
    then c2d_of (extract_message_properties_from_topic topic empty_message) payload
    else if is_input_topic topic (some c.device_id) c.module_id
    then input_of (extract_message_properties_from_topic topic empty_message)
        (get_input_name_from_topic topic) payload
    else if is_method_topic topic
    then method_of (get_method_request_id_from_topic topic) (get_method_name_from_topic topic)
        (loads payload)
    else if is_twin_response_topic topic
    then response_of (get_twin_request_id_from_topic topic) (get_twin_status_code_from_topic topic)
        payload
    else if is_twin_desired_property_patch_topic topic
    then patch_of (loads payload)
    else some (incoming_message topic payload)
handle_pipeline_event loads c event = some event
