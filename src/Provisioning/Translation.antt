-- ===== src/Provisioning/Translation.antt =====
-- `ProvisioningMQTTTranslationStage` of
-- azure-iot-device/azure/iot/device/provisioning/pipeline/pipeline_stages_provisioning_mqtt.py: the
-- operations that become MQTT operations, and the messages that become responses. The user agent,
-- which the platform determines, is a part of the configuration here.
pub mod Messages
pub mod Samples
use azure_iot_dev.Prelude.{
  ℕ, Bool, true, false, Option, none, some, List, [], ◌∷◌, ◌++◌, if◌then◌else◌,
}
use azure_iot_dev.Text.{Text, codes, text_eq}
use azure_iot_dev.Text.Int.{int_of}
use azure_iot_dev.Iothub.Topic.{Result, ok, err, get_property, Properties}
use azure_iot_dev.Iothub.Message.{Pairs, urlencode}
use azure_iot_dev.Provisioning.Topic.{
  DpsResult, properties, failure, get_register_topic_for_subscribe, get_register_topic_for_publish,
  get_query_topic_for_publish, is_dps_response_topic, extract_properties_from_dps_response_topic,
  extract_status_code_from_dps_response_topic,
}

pub record Configuration : Type 0 where
  pub id_scope : Text
  pub registration_id : Text
  pub user_agent : Text

-- A `RequestOperation` carries its type, its id, the id of the operation that it asks for, which
-- only a query has, and its body.
pub data Operation : Type 0 where
  initialize other_operation : Operation
  request : (request_type request_id operation_id body : Text) → Operation
  enable_feature disable_feature : (feature : Text) → Operation

-- What `_run_op` sends down: the operation itself, with the attributes that it is given, or the
-- worker operation that completes it, or the `OperationError` that it raises.
pub data Sent : Type 0 where
  passed_down raised : Sent
  initialized : (username client_id : Text) → Sent
  publish : (topic payload : Text) → Sent
  subscribe unsubscribe : (topic : Text) → Sent

abbrev pub register_type : Text
register_type = codes "register"

abbrev pub query_type : Text
query_type = codes "query"

abbrev pub query_params : Configuration → Pairs
query_params c =
    (codes "api-version", codes "2019-03-31") ∷ (codes "ClientVersion", c.user_agent) ∷ []

unfoldable pub username : Configuration → Text
unfolding urlencode
username c =
    c.id_scope
    ++ b'/'
      ∷ (codes "registrations" ++ b'/' ∷ (c.registration_id ++ b'/' ∷ urlencode (query_params c)))

abbrev pub run_request : Text → Text → Text → Text → Sent
run_request request_type request_id operation_id body =
    if text_eq request_type register_type
    then publish (get_register_topic_for_publish request_id) body
    else if text_eq request_type query_type
    then publish (get_query_topic_for_publish request_id operation_id) body
    else raised

unfoldable pub run_op : Configuration → Operation → Sent
unfolding username get_register_topic_for_publish get_query_topic_for_publish
    get_register_topic_for_subscribe
run_op c initialize = initialized (username c) c.registration_id
run_op c other_operation = passed_down
run_op c (request request_type request_id operation_id body) =
    run_request request_type request_id operation_id body
run_op c (enable_feature feature) =
    if text_eq feature register_type then subscribe get_register_topic_for_subscribe else raised
run_op c (disable_feature feature) =
    if text_eq feature register_type then unsubscribe get_register_topic_for_subscribe else raised

pub data Event : Type 0 where
  incoming_message : (topic payload : Text) → Event
  other_event : ℕ → Event

-- What goes up, or that the handler raises.
pub data Handled : Type 0 where
  sent_up : Event → Handled
  sent_response :
      (request_id : Text) (status_code : ℕ) (body : Text) (retry_after : Option Text) → Handled
  crashed : Handled

-- `key_values.get("retry-after", None)`
abbrev pub found : Result Text → Option Text
found (ok value) = some value
found (err e) = none

abbrev pub of_status : Option ℕ → Text → Text → Option Text → Handled
of_status none request_id payload retry_after = crashed
of_status (some status_code) request_id payload retry_after =
    sent_response request_id status_code payload retry_after

abbrev pub of_parts : Result Text → Result Text → Text → Option Text → Handled
of_parts (ok status) (ok request_id) payload retry_after =
    of_status (int_of status) request_id payload retry_after
of_parts _ _ payload retry_after = crashed

abbrev pub of_properties : DpsResult → Result Text → Text → Handled
of_properties (properties d) status payload =
    of_parts status (get_property (codes "rid") d) payload
      (found (get_property (codes "retry-after") d))
of_properties (failure e) status payload = crashed

unfoldable pub handle_pipeline_event : Event → Handled
unfolding is_dps_response_topic extract_properties_from_dps_response_topic
    extract_status_code_from_dps_response_topic get_property int_of
handle_pipeline_event (incoming_message topic payload) =
    if is_dps_response_topic topic
    then of_properties (extract_properties_from_dps_response_topic topic)
        (extract_status_code_from_dps_response_topic topic) payload
    else sent_up (incoming_message topic payload)
handle_pipeline_event (other_event e) = sent_up (other_event e)
