-- ===== src/Iothub/Translation/Samples.antt =====
-- The translation of operations and messages at concrete inputs.
use azure_iot_dev.Prelude.{◌≡◌, refl, Option, none, some, [], ◌∷◌, arith}
use azure_iot_dev.Text.{Text, codes, starts_with, quote}
use azure_iot_dev.Iothub.Topic.{get_input_topic_for_subscribe, get_topic_base}
use azure_iot_dev.Iothub.Topic.Parse.{method_topic}
use azure_iot_dev.Iothub.Message.{urlencode}
use azure_iot_dev.Iothub.Translation.{
  Configuration, enable_feature, disable_feature, initialize, initialized, subscribe, raised,
  run_op, client_id, query_params, username, get_feature_subscription_topic, incoming_message,
  method_request, handle_pipeline_event,
}
use azure_iot_dev.Iothub.Translation.Events.{method_request_goes_up}

abbrev configuration : Configuration
configuration = record {
  device_id = codes "d1";
  module_id = some (codes "m1");
  hostname = codes "hub";
  product_info = codes "";
  user_agent = codes "py";
}

-- A payload stands for its own value here, and an empty one cannot be decoded.
abbrev loads : Text → Option Text
loads [] = none
loads (c ∷ s) = some (c ∷ s)

run_op-initialize :
    run_op configuration initialize
    ≡ initialized (codes "hub/d1/m1/?api-version=2019-10-01&DeviceClientType=py") (codes "d1/m1")
unfolding run_op username client_id query_params urlencode quote starts_with
run_op-initialize = refl

run_op-enable :
    run_op configuration (enable_feature (codes "input"))
    ≡ subscribe (codes "devices/d1/modules/m1/inputs/#")
unfolding run_op get_feature_subscription_topic get_input_topic_for_subscribe get_topic_base
run_op-enable = refl

run_op-invalid : run_op configuration (disable_feature (codes "register")) ≡ raised
unfolding run_op get_feature_subscription_topic
run_op-invalid = refl

method_request_goes_up_example :
    handle_pipeline_event loads configuration
      (incoming_message (method_topic (codes "re/boot") (codes "7")) (codes "{}"))
    ≡ some (method_request (codes "7") (codes "re/boot") (codes "{}"))
method_request_goes_up_example =
    method_request_goes_up loads configuration (codes "re/boot") (codes "7") (codes "{}")
      (codes "{}") (omega arith) (omega arith) refl
